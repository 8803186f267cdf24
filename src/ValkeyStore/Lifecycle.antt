-- ===== src/ValkeyStore/Lifecycle.antt =====
-- The single-use contract of the session store, for one session: an abstract specification that
-- knows of the server only whether it has the session and its marker.
use eudi_verifier_core.Prelude.{ℕ, ◌+◌, ◌≤◌, List, [], ◌∷◌, arith}

pub data Phase : Type 0 where
  -- Neither key, the session alone, both, and the marker alone.
  absent fresh spent closed : Phase

pub data Event : Type 0 where
  -- A save where the server has no session and no marker, and any other save.
  creates saves : Event
  -- A consumption that returns the session, and one that returns an error.
  accepts rejects : Event
  -- A deletion that returns no error, and one that returns one.
  deletes delete_fails : Event
  -- Whatever concerns another session, or other keys of this one.
  others : Event

pub data Step : Event → Phase → Phase → Type 0 where
  created : Step creates absent fresh
  uncreated : Step creates absent absent
  resaved : (p : Phase) → Step saves p p
  restored : Step saves closed spent
  accepted : Step accepts fresh spent
  rejected : (p : Phase) → Step rejects p p
  burnt : Step rejects fresh spent
  removed : (p : Phase) → Step deletes p absent
  unremoved : (p : Phase) → Step delete_fails p p
  lost : (p : Phase) → Step delete_fails p absent
  passed : (p : Phase) → Step others p p

pub data Trace : List Event → Phase → Phase → Type 0 where
  stays : (p : Phase) → Trace [] p p
  goes :
      (e : Event) (es : List Event) (p q r : Phase) → Step e p q → Trace es q r → Trace (e ∷ es) p r

abbrev is_accept : Event → ℕ
is_accept accepts = 1
is_accept _ = 0

abbrev is_create : Event → ℕ
is_create creates = 1
is_create _ = 0

-- How often an event of a kind happens.
abbrev pub acceptances : List Event → ℕ
acceptances [] = 0
acceptances (e ∷ es) = is_accept e + acceptances es

abbrev pub creations : List Event → ℕ
creations [] = 0
creations (e ∷ es) = is_create e + creations es

-- The acceptances that a phase still allows.
abbrev pub allowance : Phase → ℕ
allowance fresh = 1
allowance _ = 0

allowance-step :
    (e : Event) (p q : Phase) → Step e p q → is_accept e + allowance q ≤ is_create e + allowance p
allowance-step creates p q created = omega arith
allowance-step creates p q uncreated = omega arith
allowance-step saves p q (resaved _) = omega arith
allowance-step saves p q restored = omega arith
allowance-step accepts p q accepted = omega arith
allowance-step rejects p q (rejected _) = omega arith
allowance-step rejects p q burnt = omega arith
allowance-step deletes p q (removed _) = omega arith
allowance-step delete_fails p q (unremoved _) = omega arith
allowance-step delete_fails p q (lost _) = omega arith
allowance-step others p q (passed _) = omega arith

-- Each creation allows one acceptance, and nothing else allows one.
pub acceptances-le :
    (es : List Event) (p q : Phase)
    → Trace es p q
    → acceptances es + allowance q ≤ creations es + allowance p
acceptances-le es p q (stays _) = omega arith
acceptances-le (e ∷ es) p q (goes _ _ _ mid _ step path) =
    omega (arith, allowance-step e p mid step, acceptances-le es mid q path)
