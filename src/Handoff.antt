-- ===== src/Handoff.antt =====
-- The handoff queue: internal/handoff/queue.go.
pub mod Buffering
use eudi_verifier_core.Prelude.{
  ℕ, String, Bool, Option, none, some, List, [], ◌∷◌, ◌++◌, ◌||◌, not, Bytes, bytes, Time, Duration,
  pos, shorter, add_time, str_eq, text_append, if◌then◌else◌,
}
use eudi_verifier_core.Errors.{GoError, Result, ok, err}
use eudi_verifier_core.Pipeline.Context.{SessionRow, RunResult}

-- A command of a transaction.
pub data Command : Type 0 where
  sets : (key : String) (value : Bytes) → Duration → Command
  pushes : (key value : String) → Command

-- `handoffwire.Envelope`
pub record Envelope : Type 0 where
  pub version : ℕ
  pub session_id : String
  pub client_id : String
  pub correlation_id : String
  pub webhook_url : String
  pub result_jwe : Bytes
  pub enqueued_at : Time
  pub expires_at : Time

-- The Valkey client's transaction, the encryption to the operator's key, the JSON encoder and the
-- key names of the shared contract.
pub record Wire (V : Type 0) : Type 0 where
  pub exec : List Command → V → Option GoError × V
  pub encrypt : Bytes → Result Bytes
  pub marshal_result : RunResult → Result Bytes
  pub marshal_envelope : Envelope → Result Bytes
  pub payload_key : String → String
  pub queue_key : String

-- `Queue`
pub record Queue : Type 0 where
  pub ttl : Duration
  pub prefix : String

-- 24 hours
abbrev pub hard_cap : Duration
hard_cap = pos 86400000000000

-- `NewQueue`
unfoldable pub new_queue : Duration → Queue
new_queue ttl = record {
  ttl = if not (shorter (pos 0) ttl) || shorter hard_cap ttl then hard_cap else ttl;
  prefix = "";
}

-- `WithKeyPrefix`
unfoldable pub with_prefix : String → Queue → Queue
with_prefix prefix q = record q { prefix = prefix }

unfoldable pub envelope_of :
    Queue → SessionRow → (jwe : Bytes) → (enqueued expiring : Time) → Envelope
envelope_of q meta jwe enqueued expiring = record {
  version = 1;
  session_id = meta.id;
  client_id = meta.client_id;
  correlation_id = meta.correlation_id;
  webhook_url = meta.webhook_url;
  result_jwe = jwe;
  enqueued_at = enqueued;
  expires_at = add_time expiring q.ttl;
}

module _ {V : Type 0} (wire : Wire V) (q : Queue) where
  -- The payload first; the id is queued for delivery only where there is a webhook.
  unfoldable pub commands : SessionRow → Bytes → List Command
  commands meta json =
      sets (text_append q.prefix (wire.payload_key meta.id)) json q.ttl
      ∷ (if not (str_eq meta.webhook_url "")
          then pushes (text_append q.prefix wire.queue_key) meta.id ∷ []
          else [])

  failing : Bytes → GoError → Option GoError
  failing text e = some (record e { message = text ++ e.message })

  enqueued : Option GoError × V → Option GoError × V
  unfolding failing
  enqueued (some e, v) = (failing (bytes "handoff: enqueue: ") e, v)
  enqueued (none, v) = (none, v)

  buffer : SessionRow → Result Bytes → V → Option GoError × V
  unfolding enqueued commands failing
  buffer meta (err e) v = (failing (bytes "handoff: marshal envelope: ") e, v)
  buffer meta (ok json) v = enqueued (wire.exec (commands meta json) v)

  seal : SessionRow → Time → Time → Result Bytes → V → Option GoError × V
  unfolding buffer envelope_of failing
  seal meta t u (err e) v = (failing (bytes "handoff: encrypt: ") e, v)
  seal meta t u (ok jwe) v = buffer meta (wire.marshal_envelope (envelope_of q meta jwe t u)) v

  encode : SessionRow → Time → Time → Result Bytes → V → Option GoError × V
  unfolding seal failing
  encode meta t u (err e) v = (failing (bytes "handoff: marshal result: ") e, v)
  encode meta t u (ok plain) v = seal meta t u (wire.encrypt plain) v

  -- `Deliver`; its two readings of the clock are `t` and `u`.
  unfoldable pub deliver : SessionRow → RunResult → (t u : Time) → V → Option GoError × V
  unfolding encode
  deliver meta res t u v = encode meta t u (wire.marshal_result res) v
