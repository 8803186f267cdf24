-- ===== src/Readiness.antt =====
-- Readiness: routes/readyz.go, and what app.go hands to it.
pub mod Readyz
use eudi_verifier_core.Prelude.{
  ℕ, String, Bool, true, false, Option, none, some, List, [], ◌∷◌, ◌++◌, ◌||◌, not, text_append,
  is_none, if◌then◌else◌,
}
use eudi_verifier_core.Errors.{GoError, Result, ok, err}
use eudi_verifier_core.Anchors.{
  Valkey, TypeFreshness, SnapshotHealth, snapshot_health, freshness, fresh_in,
}

-- What the handler asks: the two pings, and the anchor source if it is the production one.
pub record Dependencies : Type 0 where
  pub ping_db : Option GoError
  pub ping_valkey : Option GoError
  pub source : Option Valkey

-- `AnchorFreshness`
unfoldable pub anchor_freshness : Option Valkey → Option (List (String × TypeFreshness))
anchor_freshness none = none
anchor_freshness (some v) = some (freshness v)

known_health : Result (Option SnapshotHealth) → Option SnapshotHealth
known_health (err e) = none
known_health (ok health) = health

-- `AnchorSnapshotHealth`; `none` where its second result is false.
unfoldable pub anchor_snapshot_health : Option Valkey → Option (Option SnapshotHealth)
unfolding known_health
anchor_snapshot_health none = none
anchor_snapshot_health (some v) = some (known_health (snapshot_health v))

-- `requiredAnchorTypes`
abbrev pub required_anchor_types : List String
required_anchor_types = "pid_provider" ∷ "qeaa_provider" ∷ "pub_eaa_provider" ∷ "eaa_provider" ∷ []

-- The loop over the required types.
unfoldable pub stale_types : List (String × TypeFreshness) → List String → List String
stale_types fr [] = []
stale_types fr (t ∷ rest) =
    let others = stale_types fr rest in
    if not (fresh_in t fr) then text_append "anchors:" t ∷ others else others

abbrev pub one_if : Bool → String → List String
one_if true name = name ∷ []
one_if false name = []

unfoldable pub degraded_types : Option (List (String × TypeFreshness)) → List String
degraded_types none = []
degraded_types (some fr) = stale_types fr required_anchor_types

unfoldable pub snapshot_degraded : Option (Option SnapshotHealth) → Bool
snapshot_degraded none = true
snapshot_degraded (some none) = true
snapshot_degraded (some (some sh)) = sh.pending_bootstrap || sh.upstream_stale

-- The components that the handler lists.
unfoldable pub degraded : Dependencies → List String
unfolding degraded_types snapshot_degraded
degraded d =
    one_if (not (is_none d.ping_db)) "postgres"
    ++ (one_if (not (is_none d.ping_valkey)) "valkey"
        ++ (degraded_types (anchor_freshness d.source)
            ++ one_if (snapshot_degraded (anchor_snapshot_health d.source)) "trust-snapshot"))

unfoldable pub answered : List String → ℕ × List String
answered [] = (200, [])
answered (name ∷ names) = (503, name ∷ names)

-- The answer: its status, and the components where it is not 200.
unfoldable pub readyz : Dependencies → ℕ × List String
unfolding answered
readyz d = answered (degraded d)
