-- ===== src/ValkeyStore/Refinement.antt =====
-- The store's operations as runs of the single-use contract.
pub mod Bits
pub mod Keeping
pub mod Consuming
pub mod Simulation
use eudi_verifier_core.Prelude.{
  ℕ, ◌+◌, ◌≤◌, String, Bool, true, false, Option, none, some, List, [], ◌∷◌, ◌≡◌, ◌≢◌, ◌⊎◌, inl,
  inr, refl, sym, ◌∙◌, ap, All, bytes, Time, str_eq, eq_iff, Bool-cases, Option-cases, arith,
  text_append,
}
use eudi_verifier_core.Errors.{GoError, Result, ok, err, Result-cases}
use eudi_verifier_core.Libraries.{Session}
use eudi_verifier_core.ValkeyStore.{
  Backend, Store, Got, found, missing, broken, key_session, key_served, key_consumed, save,
  save_ttl, load, read, consume_once, persist, claim, mark_request_object_served,
  save_response_code, delete_session,
}
use eudi_verifier_core.ValkeyStore.Laws.{IsValkey, holds_del}
use eudi_verifier_core.ValkeyStore.Replay.{state-mark}
use eudi_verifier_core.ValkeyStore.Lifecycle.{
  Phase, absent, fresh, spent, closed, Event, creates, saves, accepts, rejects, deletes,
  delete_fails, others, Step, created, uncreated, resaved, restored, accepted, rejected, burnt,
  removed, unremoved, lost, passed, Trace, stays, goes, acceptances, creations, allowance,
  acceptances-le,
}

-- The phase, by whether the server has the session and the marker.
abbrev pub phase : Bool → Bool → Phase
phase false false = absent
phase true false = fresh
phase true true = spent
phase false true = closed

module _ {V : Type 0} (b : Backend V) (s : Store) (id : String) where
  -- A key that is neither this session's nor its marker.
  pub record IsApart (k : String) : Type 0 where
    pub session : k ≢ key_session s id
    pub marker : k ≢ key_consumed s id

  module _ (valkey : IsValkey b) where
    -- What the specification sees of the server.
    abbrev pub phase_of : V → Phase
    phase_of v = phase (valkey.holds (key_session s id) v) (valkey.holds (key_consumed s id) v)

    -- One operation of the store, and what the specification calls it.
    pub data Does : Event → V → V → Type 0 where
      does_create :
          (sess : Session) (wall : Time) (v : V)
          → sess.id ≡ id
          → phase_of v ≡ absent
          → Does creates v (save b s sess wall v).1
      does_save :
          (sess : Session) (wall : Time) (v : V)
          → sess.id ≡ id
          → phase_of v ≢ absent
          → Does saves v (save b s sess wall v).1
      does_accept :
          (got : Session) (now wall : Time) (v : V)
          → (consume_once b s id now wall v).0 ≡ ok got
          → Does accepts v (consume_once b s id now wall v).1
      does_reject :
          (e : GoError) (now wall : Time) (v : V)
          → (consume_once b s id now wall v).0 ≡ err e
          → Does rejects v (consume_once b s id now wall v).1
      does_delete :
          (v : V) → (delete_session b s id v).0 ≡ none → Does deletes v (delete_session b s id v).1
      does_delete_fail :
          (e : GoError) (v : V)
          → (delete_session b s id v).0 ≡ some e
          → Does delete_fails v (delete_session b s id v).1
      does_serve :
          (other : String) (v : V)
          → IsApart (key_served s other)
          → Does others v (mark_request_object_served b s other v).1
      does_code :
          (code other : String) (v : V)
          → IsApart (text_append s.prefix (b.resp_code_key code))
          → Does others v (save_response_code b s code other v).1
      does_save_other :
          (sess : Session) (wall : Time) (v : V)
          → IsApart (key_session s sess.id)
          → Does others v (save b s sess wall v).1
      does_delete_other :
          (other : String) (v : V)
          → IsApart (key_session s other)
          → IsApart (key_served s other)
          → IsApart (key_consumed s other)
          → Does others v (delete_session b s other v).1
      does_consume_other :
          (other : String) (now wall : Time) (v : V)
          → IsApart (key_consumed s other)
          → ((sess : Session) → load b s other now v ≡ ok sess → IsApart (key_session s sess.id))
          → Does others v (consume_once b s other now wall v).1

    pub data Runs : List Event → V → V → Type 0 where
      rests : (v : V) → Runs [] v v
      then_does :
          (e : Event) (es : List Event) (v w x : V) → Does e v w → Runs es w x → Runs (e ∷ es) v x
