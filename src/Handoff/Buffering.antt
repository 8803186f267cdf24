-- ===== src/Handoff/Buffering.antt =====
-- What a delivery leaves on the server.
use eudi_verifier_core.Prelude.{
  List, [], ◌∷◌, ◌≢◌, text_append, add_time, str_eq, eq_iff, Bool-cases, ap, ◌∙◌, String, true,
  false, Option, none, some, ◌≡◌, ◌⊎◌, inl, inr, refl, arith, Bytes, Time, Duration, pos, negsuc,
  shorter,
}
use eudi_verifier_core.Errors.{GoError, Result, ok, err}
use eudi_verifier_core.Pipeline.Context.{SessionRow, RunResult}
use eudi_verifier_core.Handoff.{
  Command, sets, pushes, Wire, Queue, hard_cap, new_queue, with_prefix, envelope_of, commands,
  deliver, encode, seal, buffer, enqueued,
}

-- A lifetime that is positive and at most the hard cap.
abbrev pub IsCapped : Duration → Type 0
IsCapped d = (shorter (pos 0) d ≡ true) × (shorter hard_cap d ≡ false)

pub new_queue-IsCapped : (ttl : Duration) → IsCapped (new_queue ttl).ttl
unfolding new_queue
new_queue-IsCapped (negsuc n) = (refl, refl)
new_queue-IsCapped (pos n) = (ground arith, ground arith)

module _ {V : Type 0} (wire : Wire V) (q : Queue) where
  -- The second part of the transaction: the id is queued where there is a webhook.
  abbrev pub Queueing : SessionRow → List Command → Type 0
  Queueing meta rest =
      ((meta.webhook_url ≢ "") × (rest ≡ pushes (text_append q.prefix wire.queue_key) meta.id ∷ []))
      ⊎ ((meta.webhook_url ≡ "") × (rest ≡ []))

  -- A delivery that changed the server: one transaction, whose payload's only part that depends on
  -- the result is the ciphertext.
  pub record Buffered (meta : SessionRow) (res : RunResult) (t u : Time) (v : V)
      (answer : Option GoError × V) : Type 0 where
    pub plain : Bytes
    pub jwe : Bytes
    pub json : Bytes
    pub lifetime : Duration
    pub rest : List Command
    pub encoded : wire.marshal_result res ≡ ok plain
    pub encrypted : wire.encrypt plain ≡ ok jwe
    pub enveloped :
        wire.marshal_envelope (record {
          version = 1;
          session_id = meta.id;
          client_id = meta.client_id;
          correlation_id = meta.correlation_id;
          webhook_url = meta.webhook_url;
          result_jwe = jwe;
          enqueued_at = t;
          expires_at = add_time u lifetime;
        })
        ≡ ok json
    pub executed :
        answer.1
        ≡ (wire.exec
            (sets (text_append q.prefix (wire.payload_key meta.id)) json lifetime ∷ rest)
            v).1
    pub queueing : Queueing meta rest
    pub lasting : lifetime ≡ q.ttl
    pub capped : IsCapped lifetime

  -- A delivery that failed before it reached the server.
  abbrev pub Untouched : V → Option GoError × V → Type 0
  Untouched v answer = (answer.1 ≡ v) × ((e : GoError) × (answer.0 ≡ some e))

  enqueued-state : (r : Option GoError × V) → (enqueued wire q r).1 ≡ r.1
  unfolding enqueued
  enqueued-state (some e, v) = refl
  enqueued-state (none, v) = refl

  buffer-cases :
      (meta : SessionRow) (r : Result Bytes) (v : V)
      → Untouched v (buffer wire q meta r v)
        ⊎ ((json : Bytes) × (r ≡ ok json)
            × ((buffer wire q meta r v).1 ≡ (wire.exec (commands wire q meta json) v).1))
  unfolding buffer
  buffer-cases meta (err e) v = inl (refl, (_, refl))
  buffer-cases meta (ok json) v =
      inr (json, refl, enqueued-state (wire.exec (commands wire q meta json) v))

  seal-cases :
      (meta : SessionRow) (t u : Time) (r : Result Bytes) (v : V)
      → Untouched v (seal wire q meta t u r v)
        ⊎ ((jwe : Bytes) × (json : Bytes) × (r ≡ ok jwe)
            × (wire.marshal_envelope (envelope_of q meta jwe t u) ≡ ok json)
            × ((seal wire q meta t u r v).1 ≡ (wire.exec (commands wire q meta json) v).1))
  unfolding seal
  seal-cases meta t u (err e) v = inl (refl, (_, refl))
  seal-cases meta t u (ok jwe) v =
      elim (buffer-cases meta (wire.marshal_envelope (envelope_of q meta jwe t u)) v) [
        | inl untouched ↦ inl untouched
        | inr (json, enveloped, executed) ↦ inr (jwe, json, refl, enveloped, executed)
      ]

  commands-Queueing :
      (meta : SessionRow) (json : Bytes)
      → (rest : List Command) × Queueing meta rest
        × (commands wire q meta json
            ≡ sets (text_append q.prefix (wire.payload_key meta.id)) json q.ttl ∷ rest)
  unfolding commands
  commands-Queueing meta json = elim (Bool-cases (str_eq meta.webhook_url "")) [
    | inl e ↦ ([], inr ((eq_iff meta.webhook_url "").0 e, refl), rw (e, commands) refl)
    | inr e ↦ (
      pushes (text_append q.prefix wire.queue_key) meta.id ∷ [],
      inl (λ n. cc (e, (eq_iff meta.webhook_url "").1 n), refl),
      rw (e, commands) refl,
    )
  ]

  encode-cases :
      (meta : SessionRow) (res : RunResult) (t u : Time) (v : V) (r : Result Bytes)
      → wire.marshal_result res ≡ r
      → IsCapped q.ttl
      → Untouched v (encode wire q meta t u r v)
        ⊎ Buffered meta res t u v (encode wire q meta t u r v)
  unfolding encode envelope_of
  encode-cases meta res t u v (err e) same capped = inl (refl, (_, refl))
  encode-cases meta res t u v (ok plain) same capped =
      elim (seal-cases meta t u (wire.encrypt plain) v) [
        | inl untouched ↦ inl untouched
        | inr (jwe, json, encrypted, enveloped, executed) ↦
            let (rest, queueing, listed) = commands-Queueing meta json in
            inr (record {
              lifetime = q.ttl;
              rest = rest;
              queueing = queueing;
              lasting = refl;
              plain = plain;
              jwe = jwe;
              json = json;
              encoded = same;
              encrypted = encrypted;
              enveloped = enveloped;
              executed = executed ∙ ap (λ cmds. (wire.exec cmds v).1) listed;
              capped = capped;
            })
      ]

new_queue-kept : (ttl : Duration) → IsCapped ttl → (new_queue ttl).ttl ≡ ttl
unfolding new_queue
new_queue-kept ttl (positive, short) = rw (positive, short) refl

-- A delivery by a queue of `NewQueue`, whatever lifetime was configured and whatever prefix set, either
-- returns an error and leaves the server as it was, or changes it by one transaction: it sets the
-- payload, and where there is a webhook it then queues the id, under keys with this prefix. The
-- payload is an envelope of the session's row in which nothing but the ciphertext depends on the
-- result. The payload's key and its envelope have one lifetime, which is positive and at most 24
-- hours, and is the configured one if that is such a lifetime.
pub deliver-Buffered :
    {V : Type 0} (wire : Wire V) (ttl : Duration) (prefix : String) (meta : SessionRow)
    (res : RunResult) (t u : Time) (v : V)
    → let q = with_prefix prefix (new_queue ttl) in
      (Untouched wire q v (deliver wire q meta res t u v)
        ⊎ Buffered wire q meta res t u v (deliver wire q meta res t u v))
      × (IsCapped ttl → q.ttl ≡ ttl)
unfolding deliver with_prefix
deliver-Buffered wire ttl prefix meta res t u v = (
  encode-cases wire (with_prefix prefix (new_queue ttl)) meta res t u v (wire.marshal_result res)
      refl (new_queue-IsCapped ttl),
  new_queue-kept ttl,
)
