-- ===== src/ValkeyStore.antt =====
-- The session store: internal/valkeystore/store.go, over internal/keyspace/keyspace.go.
pub mod Laws
pub mod Replay
pub mod Lookup
pub mod Liveness
pub mod Lifecycle
pub mod Refinement
use eudi_verifier_core.Prelude.{
  String, Bool, true, false, Option, none, some, List, [], ◌∷◌, ◌++◌, ◌&&◌, not, Bytes, bytes, Time,
  Duration, pos, sub_time, shorter, leb, is_zero, str_eq, text_append, if◌then◌else◌,
}
use eudi_verifier_core.Errors.{
  GoError, Result, ok, err, Sentinel, oid4vp_session_invalid, oid4vp_session_not_found,
  oid4vp_session_consumed,
}
use eudi_verifier_core.Libraries.{Session}

-- What `Get` answers; `redis.Nil` is the missing key.
pub data Got : Type 0 where
  found : Bytes → Got
  missing : Got
  broken : GoError → Got

-- The client of the Valkey server that the store is given, over the server's state `V`, and the
-- JSON form of a session.
pub record Backend (V : Type 0) : Type 0 where
  pub set : String → Bytes → Duration → V → Option GoError × V
  pub get : String → V → Got
  pub set_nx : String → Bytes → Duration → V → Result Bool × V
  pub del : List String → V → Option GoError × V
  pub marshal : Session → Result Bytes
  pub unmarshal : Bytes → Result Session
  pub sentinel : Sentinel → GoError
  pub resp_code_key : String → String

-- `Store`
pub record Store : Type 0 where
  pub session_ttl : Duration
  pub resp_code_ttl : Duration
  pub prefix : String

-- `New`, `WithResponseCodeTTL` and `WithKeyPrefix`
unfoldable pub new_store : Duration → Store
new_store ttl = record { session_ttl = ttl; resp_code_ttl = pos 300000000000; prefix = "" }

unfoldable pub with_response_code_ttl : Duration → Store → Store
with_response_code_ttl ttl s = record s { resp_code_ttl = ttl }

unfoldable pub with_key_prefix : String → Store → Store
with_key_prefix prefix s = record s { prefix = prefix }

unfoldable pub key_session : Store → String → String
key_session s id = text_append s.prefix (text_append "vc:session:" id)

unfoldable pub key_served : Store → String → String
key_served s id = text_append s.prefix (text_append "vc:session:" (text_append id ":served"))

unfoldable pub key_consumed : Store → String → String
key_consumed s id = text_append s.prefix (text_append "vc:session:" (text_append id ":consumed"))

abbrev pub prefixed : Bytes → GoError → GoError
prefixed text e = record e { message = text ++ e.message }

-- The lifetime that `Save` gives the record: what is left of the session's own, if that is shorter.
unfoldable pub save_ttl : Store → Session → (wall : Time) → Duration
save_ttl s sess wall =
    let until = sub_time sess.expires_at wall in
    if shorter (pos 0) until && shorter until s.session_ttl then until else s.session_ttl

module _ {V : Type 0} (b : Backend V) (s : Store) where
  -- `Save`; `wall` is the time that `time.Until` reads.
  unfoldable pub save : Session → (wall : Time) → V → Option GoError × V
  unfolding save_ttl key_session
  save sess wall v =
      if str_eq sess.id ""
      then (some (b.sentinel oid4vp_session_invalid), v)
      else elim (b.marshal sess) [
        | err e ↦ (some (prefixed (bytes "valkeystore: marshal session: ") e), v)
        | ok json ↦ b.set (key_session s sess.id) json (save_ttl s sess wall) v
      ]

  unexpired : Session → Time → Result Session
  unexpired sess now =
      if not (is_zero sess.expires_at) && leb sess.expires_at now
      then err (b.sentinel oid4vp_session_not_found)
      else ok sess

  read : Got → Time → Result Session
  read missing now = err (b.sentinel oid4vp_session_not_found)
  read (broken e) now = err (prefixed (bytes "valkeystore: load: ") e)
  read (found json) now = elim (b.unmarshal json) [
    | err e ↦ err (prefixed (bytes "valkeystore: unmarshal session: ") e)
    | ok sess ↦ unexpired sess now
  ]

  -- `Load`; `now` is the time that the store's clock gives.
  unfoldable pub load : String → (now : Time) → V → Result Session
  unfolding read unexpired
  load id now v = read (b.get (key_session s id) v) now

  -- The marker is held: save the consumed session, or let go of the marker.
  persist : String → Session → (wall : Time) → V → Result Session × V
  unfolding save key_consumed
  persist id sess wall v =
      let consumed = record sess { consumed = true } in
      let (failed, saved) = save consumed wall v in
      elim failed [
        | none ↦ (ok consumed, saved)
        | some e ↦ (
          err (prefixed (bytes "valkeystore: consume: persist Consumed: ") e),
          (b.del (key_consumed s id ∷ []) saved).1,
        )
      ]

  claim : String → Session → (wall : Time) → Result Bool × V → Result Session × V
  unfolding persist
  claim id sess wall (err e, v) = (err (prefixed (bytes "valkeystore: consume: ") e), v)
  claim id sess wall (ok false, v) = (err (b.sentinel oid4vp_session_consumed), v)
  claim id sess wall (ok true, v) = persist id sess wall v

  -- `ConsumeOnce`
  unfoldable pub consume_once : String → (now wall : Time) → V → Result Session × V
  unfolding claim load persist key_consumed
  consume_once id now wall v = elim (load id now v) [
    | err e ↦ (err e, v)
    | ok sess ↦ claim id sess wall (b.set_nx (key_consumed s id) (bytes "1") s.session_ttl v)
  ]

  served : Result Bool × V → Result Bool × V
  served (ok first, v) = (ok first, v)
  served (err e, v) = (err (prefixed (bytes "valkeystore: mark served: ") e), v)

  -- `MarkRequestObjectServed`
  unfoldable pub mark_request_object_served : String → V → Result Bool × V
  unfolding served key_served
  mark_request_object_served id v = served (b.set_nx (key_served s id) (bytes "1") s.session_ttl v)

  -- `SaveResponseCode`
  unfoldable pub save_response_code : String → (session_id : String) → V → Option GoError × V
  save_response_code code session_id v =
      b.set (text_append s.prefix (b.resp_code_key code)) (bytes session_id) s.resp_code_ttl v

  -- `DeleteSession`
  unfoldable pub delete_session : String → V → Option GoError × V
  unfolding key_session key_served key_consumed
  delete_session id v = b.del (key_session s id ∷ key_served s id ∷ key_consumed s id ∷ []) v
