-- ===== src/TrustStatus.antt =====
-- The trust status of the cluster-internal API: routes/truststatus.go.
pub mod Agreement
use eudi_verifier_core.Prelude.{
  String, Bool, true, false, Option, none, some, List, [], ◌∷◌, ◌++◌, ◌||◌, not, Time, Int64,
  is_zero, is_none, str_eq, if◌then◌else◌,
}
use eudi_verifier_core.Anchors.{Valkey, TypeFreshness, SnapshotHealth}
use eudi_verifier_core.Readiness.{anchor_freshness, anchor_snapshot_health}

-- A JSON value of the answer, as Go holds it before it is written.
pub data Leaf : Type 0 where
  flag : Bool → Leaf
  text : String → Leaf
  count : Int64 → Leaf
  instant : Time → Leaf

abbrev pub Object : Type 0
Object = List (String × Leaf)

-- The answer: its plain members, and the member "types" if there is one.
pub record Body : Type 0 where
  pub members : Object
  pub types : Option (List (String × Object))

-- The members on the snapshot; the outer `none` is a source that is not the production one.
snapshot_members : Option (Option SnapshotHealth) → Object
snapshot_members none = []
snapshot_members (some none) = []
snapshot_members (some (some sh)) =
    ("snapshotId", text sh.snapshot_id)
    ∷ ("lotlSequence", count sh.lotl_sequence)
    ∷ ("checkedAt", instant sh.checked_at)
    ∷ ("upstreamStale", flag sh.upstream_stale)
    ∷ ("pendingBootstrap", flag sh.pending_bootstrap)
    ∷ []

-- A member that is written only where its test holds.
abbrev member_if : Bool → String → Leaf → Object
member_if true name leaf = (name, leaf) ∷ []
member_if false name leaf = []

type_members : TypeFreshness → Object
type_members f =
    ("fresh", flag f.fresh)
    ∷ (member_if (not (str_eq f.snapshot_id "")) "snapshotId" (text f.snapshot_id)
        ++ (member_if (not (is_zero f.fetched_at)) "fetchedAt" (instant f.fetched_at)
            ++ (member_if (not (is_zero f.valid_until)) "validUntil" (instant f.valid_until)
                ++ member_if f.stale "upstreamStale" (flag true))))

-- The loop over the types.
type_objects : List (String × TypeFreshness) → List (String × Object)
unfolding type_members
type_objects [] = []
type_objects ((t, f) ∷ rest) = (t, type_members f) ∷ type_objects rest

types_of : Option (List (String × TypeFreshness)) → Option (List (String × Object))
unfolding type_objects
types_of none = none
types_of (some fr) = some (type_objects fr)

-- `internalTrustStatus`, given the anchor source if it is the production one.
unfoldable pub trust_status : Option Valkey → Body
unfolding snapshot_members types_of
trust_status source = record {
  members =
      (
        "cacheReadable",
        flag (
            not (is_none (anchor_freshness source))
            || not (is_none (anchor_snapshot_health source))),
      )
      ∷ snapshot_members (anchor_snapshot_health source);
  types = types_of (anchor_freshness source);
}
