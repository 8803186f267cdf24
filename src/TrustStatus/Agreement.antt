-- ===== src/TrustStatus/Agreement.antt =====
-- What the trust status tells of readiness.
use eudi_verifier_core.Prelude.{
  String, Bool, true, false, Option, none, some, List, [], ◌∷◌, ◌++◌, ◌≡◌, ◌↔◌, inl, inr, refl,
  ◌&&◌, not, is_none, Bool-cases, str_eq, arith, if◌then◌else◌,
}
use eudi_verifier_core.Anchors.{Valkey, TypeFreshness, SnapshotHealth, freshness, fresh_in}
use eudi_verifier_core.Readiness.{
  Dependencies, anchor_freshness, anchor_snapshot_health, required_anchor_types, stale_types,
  one_if, degraded_types, snapshot_degraded, degraded, answered, readyz,
}
use eudi_verifier_core.TrustStatus.{
  flag, text, count, instant, Object, Body, snapshot_members, type_members, type_objects, types_of,
  trust_status,
}

-- A reader of the answer: the member's value, if it is a flag.
pub member_flag : String → Object → Option Bool
member_flag name [] = none
member_flag name ((n, flag b) ∷ rest) = if str_eq n name then some b else member_flag name rest
member_flag name ((n, text s) ∷ rest) = if str_eq n name then none else member_flag name rest
member_flag name ((n, count i) ∷ rest) = if str_eq n name then none else member_flag name rest
member_flag name ((n, instant t) ∷ rest) = if str_eq n name then none else member_flag name rest

-- Whether the flag is there and has this value.
pub tells : Bool → Option Bool → Bool
tells b none = false
tells true (some c) = c
tells false (some c) = not c

pub type_fresh : String → List (String × Object) → Bool
unfolding tells
type_fresh t [] = false
type_fresh t ((name, o) ∷ rest) =
    if str_eq name t then tells true (member_flag "fresh" o) else type_fresh t rest

all_types_fresh : List String → List (String × Object) → Bool
all_types_fresh [] types = true
all_types_fresh (t ∷ ts) types = type_fresh t types && all_types_fresh ts types

types_fresh : Option (List (String × Object)) → Bool
types_fresh none = false
types_fresh (some types) = all_types_fresh required_anchor_types types

-- What a client reads from the answer alone: a snapshot that is confirmed and booted, and each
-- required type fresh.
unfoldable pub tells_ready : Body → Bool
unfolding types_fresh all_types_fresh type_fresh tells member_flag
tells_ready body =
    tells false (member_flag "upstreamStale" body.members)
    && (tells false (member_flag "pendingBootstrap" body.members) && types_fresh body.types)

type_fresh-fresh_in :
    (t : String) (fr : List (String × TypeFreshness))
    → type_fresh t (type_objects fr) ≡ fresh_in t fr
unfolding type_fresh type_objects type_members fresh_in member_flag tells
type_fresh-fresh_in t [] = refl
type_fresh-fresh_in t ((name, f) ∷ rest) = elim (Bool-cases (str_eq name t)) [
  | inl e ↦ rw e refl
  | inr e ↦ rw e (type_fresh-fresh_in t rest)
]

-- Nothing is listed as degraded exactly if each type of the list is fresh.
is_empty : {A : Type 0} → List A → Bool
is_empty [] = true
is_empty (x ∷ xs) = false

all_types_fresh-stale_types :
    (fr : List (String × TypeFreshness)) (ts : List String)
    → all_types_fresh ts (type_objects fr) ≡ is_empty (stale_types fr ts)
unfolding all_types_fresh stale_types is_empty
all_types_fresh-stale_types fr [] = refl
all_types_fresh-stale_types fr (t ∷ ts) =
    rw (type_fresh-fresh_in t fr) (elim (Bool-cases (fresh_in t fr)) [
      | inl e ↦ rw e (all_types_fresh-stale_types fr ts)
      | inr e ↦ rw e refl
    ])

-- The parts of readiness, as one test.
is_ready : Dependencies → Bool
is_ready d =
    is_none d.ping_db
    && (is_none d.ping_valkey
        && (is_empty (degraded_types (anchor_freshness d.source))
            && not (snapshot_degraded (anchor_snapshot_health d.source))))

is_empty-one_if :
    (b : Bool) (name : String) (rest : List String)
    → is_empty (one_if b name ++ rest) ≡ (not b && is_empty rest)
unfolding is_empty
is_empty-one_if true name rest = refl
is_empty-one_if false name rest = refl

is_empty-append : {A : Type 0} (xs ys : List A) → is_empty (xs ++ ys) ≡ (is_empty xs && is_empty ys)
unfolding is_empty
is_empty-append [] ys = refl
is_empty-append (x ∷ xs) ys = refl

is_empty-degraded : (d : Dependencies) → is_empty (degraded d) ≡ is_ready d
unfolding degraded is_ready is_empty
is_empty-degraded d = ground (
  arith,
  is_empty-one_if (not (is_none d.ping_db)) "postgres" (
      one_if (not (is_none d.ping_valkey)) "valkey"
      ++ (degraded_types (anchor_freshness d.source)
          ++ one_if (snapshot_degraded (anchor_snapshot_health d.source)) "trust-snapshot")),
  is_empty-one_if (not (is_none d.ping_valkey)) "valkey" (
      degraded_types (anchor_freshness d.source)
      ++ one_if (snapshot_degraded (anchor_snapshot_health d.source)) "trust-snapshot"),
  is_empty-append (degraded_types (anchor_freshness d.source))
      (one_if (snapshot_degraded (anchor_snapshot_health d.source)) "trust-snapshot"),
)

answered-ok : (names : List String) → ((answered names).0 ≡ 200) ↔ (is_empty names ≡ true)
unfolding answered is_empty
answered-ok [] = (λ h. refl, λ h. refl)
answered-ok (name ∷ names) = (λ h. absurd (omega (arith, h)), λ h. absurd (cc h))

told_of :
    (fr : List (String × TypeFreshness)) (sh : Option SnapshotHealth)
    → (tells false (member_flag "upstreamStale" (snapshot_members (some sh)))
        && (tells false (member_flag "pendingBootstrap" (snapshot_members (some sh)))
            && types_fresh (types_of (some fr))))
      ≡ (is_empty (degraded_types (some fr)) && not (snapshot_degraded (some sh)))
unfolding tells types_fresh degraded_types snapshot_degraded snapshot_members types_of is_empty
    member_flag
told_of fr none = ground arith
told_of fr (some sh) = ground (arith, all_types_fresh-stale_types fr required_anchor_types)

told_by :
    (source : Option Valkey)
    → tells_ready (trust_status source) ≡ (
        is_empty (degraded_types (anchor_freshness source))
        && not (snapshot_degraded (anchor_snapshot_health source)))
unfolding tells_ready trust_status anchor_freshness anchor_snapshot_health is_empty degraded_types
    snapshot_degraded
told_by none = refl
told_by (some v) = told_of (freshness v) _

and_parts : (a b : Bool) → a && b ≡ true → (a ≡ true) × (b ≡ true)
and_parts a b h = ground arith

is_none-none : {A : Type 0} (o : Option A) → (is_none o ≡ true) ↔ (o ≡ none)
is_none-none none = (λ h. refl, λ h. refl)
is_none-none (some a) = (λ h. absurd (cc h), λ h. absurd (cc h))

-- The service answers 200 exactly if both pings succeed and its trust status, read by itself, tells
-- of a confirmed and booted snapshot and of each required type that it is fresh.
pub readyz-tells_ready :
    (d : Dependencies)
    → ((readyz d).0 ≡ 200)
      ↔ ((d.ping_db ≡ none) × (d.ping_valkey ≡ none) × (tells_ready (trust_status d.source) ≡ true))
unfolding readyz is_ready
readyz-tells_ready d = (
  λ h.
      let all = (answered-ok (degraded d)).0 h in
      let parts = rw (is_empty-degraded d, is_ready, ← told_by d.source) at all in
      (
        (is_none-none d.ping_db).0 (and_parts _ _ parts).0,
        (is_none-none d.ping_valkey).0 (and_parts _ _ (and_parts _ _ parts).1).0,
        (and_parts _ _ (and_parts _ _ parts).1).1,
      ),
  λ (db, cache, told).
      (answered-ok (degraded d)).1
        (rw (is_empty-degraded d, is_ready, ← told_by d.source, db, cache, told) refl),
)
