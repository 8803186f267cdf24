-- ===== src/Examples/Stores.antt =====
-- The session store over a server that keeps its keys in a function.
use mathlib.Core.List.{append_assoc}
use eudi_verifier_core.Prelude.{
  sub_time, String, Bool, true, false, not, Option, none, some, List, [], ◌∷◌, ◌≡◌, ◌≢◌, ◌++◌, sym,
  Option-cases, inl, inr, refl, All, Bytes, bytes, pos, str_eq, eq_iff, is_none, exists,
  if◌then◌else◌, Bool-cases,
}
use eudi_verifier_core.Errors.{GoError, ok, err, plain}
use eudi_verifier_core.ValkeyStore.{
  Got, found, missing, broken, Backend, Store, new_store, save, load, consume_once, key_session,
  key_consumed, mark_request_object_served,
}
use eudi_verifier_core.Libraries.{Session}
use eudi_verifier_core.ValkeyStore.Laws.{IsValkey, IsLasting}
use eudi_verifier_core.ValkeyStore.Liveness.{IsUp}
use eudi_verifier_core.ValkeyStore.Lookup.{IsWithin}
use eudi_verifier_core.ValkeyStore.Replay.{done, marks, retries, consume_once-once}
use eudi_verifier_core.Examples.Wallet.{session}

abbrev pub Keys : Type 0
Keys = String → Option Bytes

abbrev pub put : String → Bytes → Keys → Keys
put k value v = λ key. if str_eq key k then some value else v key

abbrev pub drop : List String → Keys → Keys
drop ks v = λ key. if exists (λ k. str_eq key k) ks then none else v key

abbrev pub got : Option Bytes → Got
got none = missing
got (some value) = found value

-- The session that a `Load` finds.
abbrev pub unconsumed : Session
unconsumed = record session { consumed = false }

abbrev pub backend : Backend Keys
backend = record {
  set = λ k value ttl v. (none, put k value v);
  get = λ k v. got (v k);
  set_nx = λ k value ttl v.
      (if is_none (v k) then ok true else ok false, if is_none (v k) then put k value v else v);
  del = λ ks v. (none, drop ks v);
  marshal = λ s. ok (bytes s.id);
  unmarshal = λ json. ok unconsumed;
  sentinel = λ s. plain [];
  resp_code_key = λ code. code;
}

abbrev pub present : String → Keys → Bool
present key v = not (is_none (v key))

put-present :
    (key k : String) (value : Bytes) (v : Keys)
    → present key v ≡ true
    → present key (put k value v) ≡ true
put-present key k value v h = elim (Bool-cases (str_eq key k)) [
  | inl e ↦ rw e refl
  | inr e ↦ rw e h
]

put_here : (k : String) (value : Bytes) (v : Keys) → put k value v k ≡ some value
put_here k value v = rw ((eq_iff k k).1 refl) refl

kept :
    (key : String) (ks : List String)
    → All (λ k. k ≢ key) ks
    → exists (λ k. str_eq key k) ks ≡ false
kept key [] h = refl
kept key (k ∷ ks) h = elim (Bool-cases (str_eq key k)) [
  | inl e ↦ absurd (h.0 (cc ((eq_iff key k).0 e)))
  | inr e ↦ rw e (kept key ks h.1)
]

put_apart : (key k : String) (value : Bytes) (v : Keys) → k ≢ key → put k value v key ≡ v key
put_apart key k value v apart = elim (Bool-cases (str_eq key k)) [
  | inl e ↦ absurd (apart (sym ((eq_iff key k).0 e)))
  | inr e ↦ rw e refl
]

-- A key that a list names is one of its keys.
named-exists :
    (k : String) (front back : List String) → exists (λ x. str_eq k x) (front ++ k ∷ back) ≡ true
named-exists k [] back = rw ((eq_iff k k).1 refl) refl
named-exists k (x ∷ front) back = elim (Bool-cases (str_eq k x)) [
  | inl e ↦ rw e refl
  | inr e ↦ rw e (named-exists k front back)
]

dropped_from :
    (front ks : List String) (v : Keys) → All (λ k. present k (drop (front ++ ks) v) ≡ false) ks
dropped_from front [] v = tt
dropped_from front (k ∷ ks) v = (
  rw (named-exists k front ks) refl,
  rw (append_assoc front (k ∷ []) ks) at (dropped_from (front ++ k ∷ []) ks v),
)

dropped : (ks : List String) (v : Keys) → All (λ k. present k (drop ks v) ≡ false) ks
dropped ks v = dropped_from [] ks v

found-present :
    (k : String) (value : Bytes) (v : Keys) → got (v k) ≡ found value → present k v ≡ true
found-present k value v h = elim (Option-cases (v k)) [
  | inl e ↦ absurd (cc (rw e at h))
  | inr (x, e) ↦ rw e refl
]

first_nx :
    (k : String) (value : Bytes) (v : Keys)
    → (backend.set_nx k value (pos 0) v).0 ≡ ok true
    → (present k v ≡ false) × (present k (backend.set_nx k value (pos 0) v).1 ≡ true)
first_nx k value v h = elim (Bool-cases (is_none (v k))) [
  | inl e ↦ rw e (refl, rw (put_here k value v) refl)
  | inr e ↦ absurd (cc (rw e at h))
]

pub backend-IsValkey : IsValkey backend
backend-IsValkey = record {
  holds = present;
  get_set = λ k value ttl v h. inl (rw (put_here k value v) refl);
  holds_set = λ key k value ttl v h. put-present key k value v h;
  first_set_nx = λ k value ttl v h. first_nx k value v h;
  holds_set_nx = λ key k value ttl v h. elim (Bool-cases (is_none (v k))) [
    | inl e ↦ rw e (put-present key k value v h)
    | inr e ↦ rw e h
  ];
  del_here = λ ks v h. dropped ks v;
  del_atomic = λ ks v. inl (dropped ks v);
  same_del = λ key ks v apart. rw (kept key ks apart) refl;
  set_here = λ k value ttl v h. rw (put_here k value v) refl;
  same_set = λ key k value ttl v apart. rw (put_apart key k value v apart) refl;
  same_set_nx = λ key k value ttl v apart. elim (Bool-cases (is_none (v k))) [
    | inl e ↦ rw (e, put_apart key k value v apart) refl
    | inr e ↦ rw e refl
  ];
  get_found = λ k value v h. found-present k value v h;
}

never_broken : (o : Option Bytes) (e : GoError) → got o ≢ broken e
never_broken none e h = absurd (cc h)
never_broken (some b) e h = absurd (cc h)

pub backend-IsUp : IsUp backend backend-IsValkey
unfolding backend-IsValkey
backend-IsUp = record {
  writes = λ k value ttl v. refl;
  claims =
      λ k value ttl v. elim (Bool-cases (is_none (v k))) [ inl e ↦ rw e refl | inr e ↦ rw e refl ];
  reads = λ k e v. never_broken (v k) e;
}

unfoldable pub store : Store
unfolding new_store
store = new_store (pos 300000000000)

abbrev pub nothing : Keys
nothing key = none

pub nothing_held : (key : String) → backend-IsValkey.holds key nothing ≡ false
unfolding backend-IsValkey
nothing_held key = refl

-- A server on which the time for these tests is too short for a key to go.
pub backend-IsLasting : IsLasting backend backend-IsValkey
unfolding backend-IsValkey
backend-IsLasting = record {
  elapse = λ d v. v;
  get_within = λ k value ttl d v h stays. inl (rw (put_here k value v) refl);
  still_free = λ k d v free. free;
}

pub soon : IsWithin store unconsumed 10 10
unfolding store sub_time
soon = (refl, λ p. refl)

-- The server behind a `Save`.
abbrev pub holding : Keys
holding = put "vc:session:s1" (bytes "s1") nothing

consumed : (consume_once backend store "s1" 20 20 holding).0 ≡ ok session
unfolding save consume_once load store key_session key_consumed
consumed = refl

-- Behind the first attempt the request object is served once more, and a second attempt fails.
consume_once-once_example :
    let first = (consume_once backend store "s1" 20 20 holding).1 in
    let marked = (mark_request_object_served backend store "s1" first).1 in
    (e : GoError) × ((consume_once backend store "s1" 30 30
        (consume_once backend store "s1" 25 25 marked).1).0
      ≡ err e)
consume_once-once_example =
    let first = (consume_once backend store "s1" 20 20 holding).1 in
    let marked = (mark_request_object_served backend store "s1" first).1 in
    let again = (consume_once backend store "s1" 25 25 marked).1 in
    consume_once-once backend store "s1" backend-IsValkey session 20 20 30 30 holding again consumed
      (marks "s1" first again (retries 25 25 marked again (done again)))
