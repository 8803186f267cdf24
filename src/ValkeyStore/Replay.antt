-- ===== src/ValkeyStore/Replay.antt =====
-- A consumed session stays consumed.
pub mod Traffic
use eudi_verifier_core.Prelude.{
  String, Bool, true, false, ◌≡◌, ◌≢◌, inl, inr, refl, bytes, Time, str_eq, Bool-cases,
  Option-cases,
}
use eudi_verifier_core.Errors.{GoError, Result, ok, err, Result-cases}
use eudi_verifier_core.Libraries.{Session}
use eudi_verifier_core.ValkeyStore.{
  Backend, Store, key_session, key_served, key_consumed, save, load, consume_once, persist, claim,
  mark_request_object_served, served, save_response_code, delete_session,
}
use eudi_verifier_core.ValkeyStore.Laws.{IsValkey, holds_del}

served-state :
    {V : Type 0} (b : Backend V) (s : Store) (r : Result Bool × V) → (served b s r).1 ≡ r.1
unfolding served
served-state b s (ok first, v) = refl
served-state b s (err e, v) = refl

pub state-mark :
    {V : Type 0} (b : Backend V) (s : Store) (other : String) (v : V)
    → (mark_request_object_served b s other v).1
      ≡ (b.set_nx (key_served s other) (bytes "1") s.session_ttl v).1
unfolding mark_request_object_served
state-mark b s other v =
    served-state b s (b.set_nx (key_served s other) (bytes "1") s.session_ttl v)

module _ {V : Type 0} (b : Backend V) (s : Store) (id : String) where
  -- The other calls that reach the server between two attempts on one session: every operation of
  -- the store on any session, but for the deletion of this one, and of one whose consumed marker or
  -- other key would be this session's marker.
  pub data Calls : V → V → Type 0 where
    done : (v : V) → Calls v v
    saves : (sess : Session) (wall : Time) (v w : V) → Calls (save b s sess wall v).1 w → Calls v w
    marks :
        (other : String) (v w : V) → Calls (mark_request_object_served b s other v).1 w → Calls v w
    codes :
        (code other : String) (v w : V)
        → Calls (save_response_code b s code other v).1 w
        → Calls v w
    retries : (now wall : Time) (v w : V) → Calls (consume_once b s id now wall v).1 w → Calls v w
    consumes :
        (other : String) (now wall : Time) (v w : V)
        → key_consumed s other ≢ key_consumed s id
        → Calls (consume_once b s other now wall v).1 w
        → Calls v w
    deletes :
        (other : String) (v w : V)
        → key_session s other ≢ key_consumed s id
        → key_served s other ≢ key_consumed s id
        → key_consumed s other ≢ key_consumed s id
        → Calls (delete_session b s other v).1 w
        → Calls v w

  module _ (valkey : IsValkey b) where
    abbrev Holds : V → Type 0
    Holds v = valkey.holds (key_consumed s id) v ≡ true

    save-holds : (sess : Session) (wall : Time) (v : V) → Holds v → Holds (save b s sess wall v).1
    unfolding save
    save-holds sess wall v h = elim (Bool-cases (str_eq sess.id "")) [
      | inl e ↦ rw (e, save) h
      | inr e ↦ elim (Result-cases (b.marshal sess)) [
        | inr (failed, m) ↦ rw (e, m, save) h
        | inl (json, m) ↦ rw (e, m, save) (valkey.holds_set _ _ json _ v h)
      ]
    ]

    -- A claimed marker is let go only by the rollback of that very claim.
    persist-holds :
        (other : String) (sess : Session) (wall : Time) (v : V)
        → key_consumed s other ≢ key_consumed s id
        → Holds v
        → Holds (persist b s other sess wall v).1
    unfolding persist
    persist-holds other sess wall v ne h =
        let kept = save-holds (record sess { consumed = true }) wall v h in
        elim (Option-cases (save b s (record sess { consumed = true }) wall v).0) [
          | inl e ↦ rw (e, persist) kept
          | inr (failed, e) ↦ rw (e, persist) (holds_del valkey _ _ _ (ne, tt) kept)
        ]

    claim-holds :
        (other : String) (sess : Session) (wall : Time) (r : Result Bool) (v : V)
        → key_consumed s other ≢ key_consumed s id
        → Holds v
        → Holds (claim b s other sess wall (r, v)).1
    unfolding claim
    claim-holds other sess wall (err e) v ne h = h
    claim-holds other sess wall (ok false) v ne h = h
    claim-holds other sess wall (ok true) v ne h = persist-holds other sess wall v ne h

    not_first :
        (v : V) → Holds v → (b.set_nx (key_consumed s id) (bytes "1") s.session_ttl v).0 ≢ ok true
    not_first v h e = cc (h, (valkey.first_set_nx _ _ _ v e).0)

    claim-again :
        (sess : Session) (wall : Time) (r : Result Bool) (v : V)
        → r ≢ ok true
        → Holds v
        → ((e : GoError) × ((claim b s id sess wall (r, v)).0 ≡ err e))
          × Holds (claim b s id sess wall (r, v)).1
    unfolding claim
    claim-again sess wall (err e) v ne h = ((_, refl), h)
    claim-again sess wall (ok false) v ne h = ((_, refl), h)
    claim-again sess wall (ok true) v ne h = absurd (ne refl)

    consume_other-holds :
        (other : String) (now wall : Time) (v : V)
        → key_consumed s other ≢ key_consumed s id
        → Holds v
        → Holds (consume_once b s other now wall v).1
    unfolding consume_once
    consume_other-holds other now wall v ne h =
        let kept =
          valkey.holds_set_nx (key_consumed s id) (key_consumed s other) (bytes "1") s.session_ttl v
            h in
        elim (Result-cases (load b s other now v)) [
          | inr (e, l) ↦ rw (l, consume_once) h
          | inl (sess, l) ↦ rw (l, consume_once) (claim-holds other sess wall _ _ ne kept)
        ]

    -- With the marker held, an attempt on this session ends in an error and changes nothing else.
    again :
        (now wall : Time) (v : V)
        → Holds v
        → ((e : GoError) × ((consume_once b s id now wall v).0 ≡ err e))
          × Holds (consume_once b s id now wall v).1
    unfolding consume_once
    again now wall v h =
        let kept =
          valkey.holds_set_nx (key_consumed s id) (key_consumed s id) (bytes "1") s.session_ttl v
            h in
        elim (Result-cases (load b s id now v)) [
          | inr (e, l) ↦ rw (l, consume_once) ((e, refl), h)
          | inl (sess, l) ↦ rw (l, consume_once) (claim-again sess wall _ _ (not_first v h) kept)
        ]

    mark-holds :
        (other : String) (v : V) → Holds v → Holds (mark_request_object_served b s other v).1
    mark-holds other v h = rw (state-mark b s other v) (valkey.holds_set_nx _ _ _ _ v h)

    Calls-holds : (v w : V) → Calls v w → Holds v → Holds w
    unfolding save_response_code delete_session
    Calls-holds v w (done _) h = h
    Calls-holds v w (saves sess wall _ _ cs) h = Calls-holds _ w cs (save-holds sess wall v h)
    Calls-holds v w (marks other _ _ cs) h = Calls-holds _ w cs (mark-holds other v h)
    Calls-holds v w (codes code other _ _ cs) h = Calls-holds _ w cs (valkey.holds_set _ _ _ _ v h)
    Calls-holds v w (retries now wall _ _ cs) h = Calls-holds _ w cs (again now wall v h).1
    Calls-holds v w (consumes other now wall _ _ ne cs) h =
        Calls-holds _ w cs (consume_other-holds other now wall v ne h)
    Calls-holds v w (deletes other _ _ n1 n2 n3 cs) h =
        Calls-holds _ w cs (holds_del valkey _ _ v (n1, (n2, (n3, tt))) h)

    -- A successful attempt leaves the marker held.
    persisted :
        (sess got : Session) (wall : Time) (v : V)
        → Holds v
        → (persist b s id sess wall v).0 ≡ ok got
        → Holds (persist b s id sess wall v).1
    unfolding persist
    persisted sess got wall v h e =
        let kept = save-holds (record sess { consumed = true }) wall v h in
        elim (Option-cases (save b s (record sess { consumed = true }) wall v).0) [
          | inl q ↦ rw (q, persist) kept
          | inr (failed, q) ↦ absurd (cc (rw (q, persist) at e))
        ]

    claimed :
        (sess got : Session) (wall : Time) (r : Result Bool) (v : V)
        → (r ≡ ok true → Holds v)
        → (claim b s id sess wall (r, v)).0 ≡ ok got
        → Holds (claim b s id sess wall (r, v)).1
    unfolding claim
    claimed sess got wall (err e) v h q = cc q
    claimed sess got wall (ok false) v h q = cc q
    claimed sess got wall (ok true) v h q = persisted sess got wall v (h refl) q

    first :
        (got : Session) (now wall : Time) (v : V)
        → (consume_once b s id now wall v).0 ≡ ok got
        → Holds (consume_once b s id now wall v).1
    unfolding consume_once
    first got now wall v q = elim (Result-cases (load b s id now v)) [
      | inr (e, l) ↦ absurd (cc (rw (l, consume_once) at q))
      | inl (sess, l) ↦
          rw (l, consume_once)
            (claimed sess got wall _ _ (λ e. (valkey.first_set_nx _ _ _ v e).1)
              (rw (l, consume_once) at q))
    ]

-- On a backend that behaves like Valkey and of which no key expires, once `ConsumeOnce` has returned
-- a session, every later `ConsumeOnce` of the same id returns an error, whatever operations of the
-- store came between, on this session or on others, but for a deletion of this one and for a
-- consumption or a deletion of another whose keys would be this session's marker.
pub consume_once-once :
    {V : Type 0} (b : Backend V) (s : Store) (id : String)
    → IsValkey b
    → (got : Session) (now wall now2 wall2 : Time) (v w : V)
    → (consume_once b s id now wall v).0 ≡ ok got
    → Calls b s id (consume_once b s id now wall v).1 w
    → (e : GoError) × ((consume_once b s id now2 wall2 w).0 ≡ err e)
consume_once-once b s id valkey got now wall now2 wall2 v w h cs =
    (again b s id valkey now2 wall2 w
      (Calls-holds b s id valkey _ w cs (first b s id valkey got now wall v h))).0
