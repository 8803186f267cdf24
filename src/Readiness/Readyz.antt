-- ===== src/Readiness/Readyz.antt =====
-- When the service says that it is ready.
use eudi_verifier_core.Prelude.{
  ◌<◌, String, Bool, true, false, Option, none, some, List, [], ◌∷◌, ◌++◌, ◌≡◌, ◌↔◌, inl, inr, refl,
  ap, arith, ◌&&◌, not, is_none, Bool-cases, Option-cases, All, All-imp, add_time,
}
use eudi_verifier_core.Errors.{Result, ok, err, Result-cases}
use eudi_verifier_core.Anchors.{
  Valkey, FreshnessRecord, TypeFreshness, SnapshotHealth, freshness, freshness_entry, fresh_in,
  snapshot_health,
}
use eudi_verifier_core.Anchors.Freshness.{is_listed, fresh_in-freshness_list}
use eudi_verifier_core.Readiness.{
  Dependencies, anchor_freshness, known_health, anchor_snapshot_health, required_anchor_types,
  stale_types, one_if, degraded_types, snapshot_degraded, degraded, answered, readyz,
}

-- The type's record is readable, confirmed upstream, and within its validity and the grace.
pub record IsUsable (v : Valkey) (t : String) : Type 0 where
  pub fr : FreshnessRecord
  pub known : v.freshness_of t ≡ ok fr
  pub confirmed : fr.upstream_stale ≡ false
  pub in_time : v.now < add_time fr.valid_until v.grace

pub record IsReady (d : Dependencies) : Type 0 where
  pub db : d.ping_db ≡ none
  pub cache : d.ping_valkey ≡ none
  pub v : Valkey
  pub production : d.source ≡ some v
  pub usable : All (IsUsable v) required_anchor_types
  pub health : SnapshotHealth
  pub known : v.read_snapshot_health ≡ ok (some health)
  pub booted : health.pending_bootstrap ≡ false
  pub confirmed : health.upstream_stale ≡ false

one_if-nil : (b : Bool) (name : String) → one_if b name ≡ [] → b ≡ false
one_if-nil true name h = absurd (cc h)
one_if-nil false name h = refl

append-nil : {A : Type 0} (xs ys : List A) → xs ++ ys ≡ [] → (xs ≡ []) × (ys ≡ [])
append-nil [] ys h = (refl, h)
append-nil (x ∷ xs) ys h = absurd (cc h)

stale_types-nil :
    (fr : List (String × TypeFreshness)) (ts : List String)
    → stale_types fr ts ≡ []
    → All (λ t. fresh_in t fr ≡ true) ts
unfolding stale_types
stale_types-nil fr [] h = tt
stale_types-nil fr (t ∷ rest) h = elim (Bool-cases (fresh_in t fr)) [
  | inl e ↦ (e, stale_types-nil fr rest (rw (e, stale_types) at h))
  | inr e ↦ absurd (cc (rw (e, stale_types) at h))
]

fresh_stale_types :
    (fr : List (String × TypeFreshness)) (ts : List String)
    → All (λ t. fresh_in t fr ≡ true) ts
    → stale_types fr ts ≡ []
unfolding stale_types
fresh_stale_types fr [] h = refl
fresh_stale_types fr (t ∷ rest) (e, h) = rw (e, fresh_stale_types fr rest h) refl

and_right : (a b : Bool) → a && b ≡ true → b ≡ true
and_right a b h = ground arith

module _ (v : Valkey) where
  fresh-IsUsable : (t : String) → fresh_in t (freshness v) ≡ true → IsUsable v t
  unfolding freshness freshness_entry
  fresh-IsUsable t h =
      let entry =
        and_right (is_listed t v.all_types) (freshness_entry v (v.freshness_of t)).fresh
          (rw (fresh_in-freshness_list v t v.all_types) at h) in
      elim (Result-cases (v.freshness_of t)) [
        | inr (e, r) ↦ absurd (cc (rw (r, freshness_entry) at entry))
        | inl (fr, r) ↦
            let fresh = rw (r, freshness_entry) at entry in
            record { fr = fr; known = r; confirmed = ground arith; in_time = ground arith }
      ]

  usable_fresh :
      (t : String) → is_listed t v.all_types ≡ true → IsUsable v t → fresh_in t (freshness v) ≡ true
  unfolding freshness freshness_entry
  usable_fresh t listed u =
      rw (fresh_in-freshness_list v t v.all_types, listed, u.known, freshness_entry)
        (ground (arith, u.confirmed, u.in_time))

  all_fresh :
      (ts : List String)
      → All (λ t. is_listed t v.all_types ≡ true) ts
      → All (IsUsable v) ts
      → All (λ t. fresh_in t (freshness v) ≡ true) ts
  all_fresh [] listed u = tt
  all_fresh (t ∷ ts) (l, listed) (u, us) = (usable_fresh t l u, all_fresh ts listed us)

answered_ok : (names : List String) → (answered names).0 ≡ 200 → names ≡ []
unfolding answered
answered_ok [] h = refl
answered_ok (name ∷ names) h = absurd (omega (arith, h))

known_health-some :
    (r : Result (Option SnapshotHealth)) (health : SnapshotHealth)
    → known_health r ≡ some health
    → r ≡ ok (some health)
unfolding known_health
known_health-some (err e) health h = absurd (cc h)
known_health-some (ok got) health h = ap ok h

not-false : (b : Bool) → not b ≡ false → b ≡ true
not-false true h = refl
not-false false h = absurd (cc h)

-- The parts of an empty list of components.
parts :
    (d : Dependencies)
    → degraded d ≡ []
    → (is_none d.ping_db ≡ true)
      × (is_none d.ping_valkey ≡ true)
      × (degraded_types (anchor_freshness d.source) ≡ [])
      × (snapshot_degraded (anchor_snapshot_health d.source) ≡ false)
unfolding degraded
parts d h =
    let (db, rest) = append-nil _ _ h in
    let (cache, tail) = append-nil _ _ rest in
    let (types, snapshot) = append-nil _ _ tail in
    (
      not-false _ (one_if-nil _ _ db),
      not-false _ (one_if-nil _ _ cache),
      types,
      one_if-nil _ _ snapshot,
    )

is_none-none : {A : Type 0} (o : Option A) → is_none o ≡ true → o ≡ none
is_none-none none h = refl
is_none-none (some a) h = absurd (cc h)

-- A health that the handler accepts.
healthy :
    (o : Option SnapshotHealth)
    → snapshot_degraded (some o) ≡ false
    → (sh : SnapshotHealth) × (o ≡ some sh)
      × (sh.pending_bootstrap ≡ false)
      × (sh.upstream_stale ≡ false)
unfolding snapshot_degraded
healthy none h = absurd (cc h)
healthy (some sh) h = (sh, refl, ground arith, ground arith)

ready : (d : Dependencies) → degraded d ≡ [] → IsReady d
unfolding degraded_types snapshot_degraded anchor_freshness anchor_snapshot_health snapshot_health
ready d h =
    let (db, cache, types, snapshot) = parts d h in
    elim (Option-cases d.source) [
      | inl s ↦ absurd (cc (rw (s, anchor_snapshot_health, snapshot_degraded) at snapshot))
      | inr (v, s) ↦
          let (sh, known, booted, confirmed) =
            healthy (known_health v.read_snapshot_health)
              (rw (s, anchor_snapshot_health) at snapshot) in
          record {
            db = is_none-none d.ping_db db;
            cache = is_none-none d.ping_valkey cache;
            v = v;
            production = s;
            usable =
                All-imp (λ t. fresh_in t (freshness v) ≡ true) (IsUsable v) (fresh-IsUsable v)
                  required_anchor_types
                  (stale_types-nil (freshness v) required_anchor_types
                    (rw (s, anchor_freshness, degraded_types) at types));
            health = sh;
            known = known_health-some v.read_snapshot_health sh known;
            booted = booted;
            confirmed = confirmed;
          }
    ]

none_degraded :
    (d : Dependencies) (r : IsReady d)
    → All (λ t. is_listed t r.v.all_types ≡ true) required_anchor_types
    → degraded d ≡ []
unfolding degraded degraded_types snapshot_degraded anchor_freshness anchor_snapshot_health
    known_health snapshot_health
none_degraded d r listed =
    rw
      (
        r.db,
        r.cache,
        r.production,
        degraded,
        anchor_freshness,
        anchor_snapshot_health,
        degraded_types,
        fresh_stale_types (freshness r.v) required_anchor_types
            (all_fresh r.v required_anchor_types listed r.usable),
        r.known,
        known_health,
        snapshot_degraded,
        r.booted,
        r.confirmed,
      )
      refl

-- The service answers 200 exactly if both pings succeed, its anchor source is the production one,
-- the record of each required type is readable, confirmed upstream and within its validity and the
-- grace, and the snapshot's health is readable, with no pending bootstrap and not stale; provided
-- that the cache names the required types.
pub readyz-IsReady :
    (d : Dependencies)
    → ((v : Valkey)
        → d.source ≡ some v
        → All (λ t. is_listed t v.all_types ≡ true) required_anchor_types)
    → ((readyz d).0 ≡ 200) ↔ IsReady d
unfolding readyz answered
readyz-IsReady d listed = (
  λ h. ready d (answered_ok (degraded d) h),
  λ r. rw (none_degraded d r (listed r.v r.production)) refl,
)
