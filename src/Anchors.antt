-- ===== src/Anchors.antt =====
-- The trust anchors that the verifier reads from the shared cache: internal/anchors/valkey.go and
-- internal/anchors/getter.go.
pub mod Fetching
pub mod Freshness
pub mod Static
use eudi_verifier_core.Prelude.{
  ℕ, String, Bool, true, false, Option, none, some, List, [], ◌∷◌, ◌++◌, ◌||◌, ◌&&◌, not, Bytes,
  bytes, quote, ltb, Time, Duration, Int64, add_time, str_eq, text_append, if◌then◌else◌,
}
use eudi_verifier_core.Errors.{
  GoError, Result, ok, err, Sentinel, trust_cache_expired, trust_unknown_anchor_type,
  trustcache_expired,
}
use eudi_verifier_core.Libraries.{
  AnchorType, pid_provider, qeaa_provider, pub_eaa_provider, eaa_provider, wallet_provider,
  access_ca, wrprc_issuer, pid_provider_status, qeaa_provider_status, pub_eaa_provider_status,
  eaa_provider_status, named, Certificate,
}
use eudi_verifier_core.ValkeyStore.{Backend, Got, found, missing, broken}

-- The `Type*` constants of trustcache.
pub record WireNames : Type 0 where
  pub pid_provider : String
  pub qeaa_provider : String
  pub pub_eaa_provider : String
  pub eaa_provider : String
  pub wallet_provider : String
  pub access_ca : String
  pub wrprc_issuer : String
  pub pid_provider_status : String
  pub qeaa_provider_status : String
  pub pub_eaa_provider_status : String
  pub eaa_provider_status : String

-- One anchor of a cached entry, and the entry; the record of a type's own freshness; and the health
-- of the snapshot.
pub record CachedAnchor : Type 0 where
  pub cert_der : Bytes
  pub territory : String
  pub status : String
  pub valid_until : Time
  pub tl_sequence : ℕ
  pub use_cases : List String

pub record Entry : Type 0 where
  pub anchors : List CachedAnchor
  pub upstream_stale : Bool
  pub valid_until : Time

pub record FreshnessRecord : Type 0 where
  pub upstream_stale : Bool
  pub valid_until : Time
  pub snapshot_id : String
  pub fetched_at : Time

pub record SnapshotHealth : Type 0 where
  pub snapshot_id : String
  pub lotl_sequence : Int64
  pub checked_at : Time
  pub pending_bootstrap : Bool
  pub upstream_stale : Bool

-- `trust.Anchor`
pub record Anchor : Type 0 where
  pub cert : Certificate
  pub anchor_type : AnchorType
  pub country : String
  pub status : String
  pub valid_until : Time
  pub tl_sequence : ℕ
  pub use_cases : List String

-- `TypeFreshness`
pub record TypeFreshness : Type 0 where
  pub fresh : Bool
  pub valid_until : Time
  pub stale : Bool
  pub snapshot_id : String
  pub fetched_at : Time

-- `Valkey`, with the reader of trustcache, the certificate parser and the sentinels that it uses.
pub record Valkey : Type 0 where
  pub names : WireNames
  pub all_types : List String
  pub anchor_set : (wire country : String) → Result Entry
  pub freshness_of : (wire : String) → Result FreshnessRecord
  pub read_snapshot_health : Result (Option SnapshotHealth)
  pub normalize_territory : String → String
  pub parse_certificate : Bytes → Result Certificate
  pub sentinel : Sentinel → GoError
  pub grace : Duration
  pub now : Time

-- `RedisGetter.Get`: a missing key is no error.
unfoldable pub getter_get :
    {V : Type 0} → Backend V → (prefix key : String) → V → Result (Option Bytes)
getter_get b prefix key v = elim (b.get (text_append prefix key) v) [
  | missing ↦ ok none
  | broken e ↦ err e
  | found bs ↦ ok (some bs)
]

-- `wireType`
unfoldable pub wire_type : WireNames → AnchorType → Option String
wire_type n pid_provider = some n.pid_provider
wire_type n qeaa_provider = some n.qeaa_provider
wire_type n pub_eaa_provider = some n.pub_eaa_provider
wire_type n eaa_provider = some n.eaa_provider
wire_type n wallet_provider = some n.wallet_provider
wire_type n access_ca = some n.access_ca
wire_type n wrprc_issuer = some n.wrprc_issuer
wire_type n pid_provider_status = some n.pid_provider_status
wire_type n qeaa_provider_status = some n.qeaa_provider_status
wire_type n pub_eaa_provider_status = some n.pub_eaa_provider_status
wire_type n eaa_provider_status = some n.eaa_provider_status
wire_type n (named s) = none

-- The text of an anchor type that has no wire name.
type_text : AnchorType → String
type_text (named s) = s
type_text other = ""

-- `SnapshotHealth`
unfoldable pub snapshot_health : Valkey → Result (Option SnapshotHealth)
snapshot_health v = v.read_snapshot_health

module _ (v : Valkey) where
  is_fresh : Result FreshnessRecord → Bool
  is_fresh (err e) = false
  is_fresh (ok fr) = not fr.upstream_stale && ltb v.now fr.valid_until

  -- `typeFreshForVerification`
  unfoldable pub type_fresh_for_verification : String → Bool
  unfolding is_fresh
  type_fresh_for_verification wire = is_fresh (v.freshness_of wire)

  unfoldable pub anchor_of : AnchorType → CachedAnchor → Certificate → Anchor
  anchor_of t a cert = record {
    cert = cert;
    anchor_type = t;
    country = a.territory;
    status = a.status;
    valid_until = a.valid_until;
    tl_sequence = a.tl_sequence;
    use_cases = a.use_cases;
  }

  bad_certificate : String → GoError → GoError
  bad_certificate wire e = record e {
    message = bytes "anchors: bad certificate for " ++ (bytes wire ++ (bytes ": " ++ e.message));
  }

  -- The loop over the entry's anchors.
  unfoldable pub collect : AnchorType → String → List CachedAnchor → Result (List Anchor)
  unfolding bad_certificate anchor_of
  collect t wire [] = ok []
  collect t wire (a ∷ rest) = elim (v.parse_certificate a.cert_der) [
    | err e ↦ err (bad_certificate wire e)
    | ok cert ↦ elim (collect t wire rest) [
      | err e ↦ err e
      | ok anchors ↦ ok (anchor_of t a cert ∷ anchors)
    ]
  ]

  read_failed : String → String → GoError → GoError
  read_failed wire country e = record e {
    message =
        bytes "anchors: read "
        ++ (bytes wire
            ++ (bytes "/" ++ (bytes (v.normalize_territory country) ++ (bytes ": " ++ e.message))));
  }

  -- What the reader answered.
  from_entry : AnchorType → String → String → Result Entry → Result (List Anchor)
  unfolding type_fresh_for_verification read_failed collect
  from_entry t wire country (err e) =
      if e.is trustcache_expired
      then if type_fresh_for_verification wire then ok [] else err (v.sentinel trust_cache_expired)
      else err (read_failed wire country e)
  from_entry t wire country (ok entry) =
      if entry.upstream_stale || ltb entry.valid_until v.now
      then err (v.sentinel trust_cache_expired)
      else collect t wire entry.anchors

  -- `AnchorsFor`
  unfoldable pub anchors_for : AnchorType → (country : String) → Result (List Anchor)
  unfolding from_entry type_text
  anchors_for t country = elim (wire_type v.names t) [
    | none ↦
        let e = v.sentinel trust_unknown_anchor_type in
        err (record e {
          message = bytes "anchors: " ++ (e.message ++ (bytes ": " ++ quote (type_text t)));
        })
    | some wire ↦ from_entry t wire country (v.anchor_set wire country)
  ]

  unfoldable pub freshness_entry : Result FreshnessRecord → TypeFreshness
  freshness_entry (err e) = record {
    fresh = false;
    valid_until = 0;
    stale = false;
    snapshot_id = "";
    fetched_at = 0;
  }
  freshness_entry (ok fr) = record {
    fresh = not fr.upstream_stale && ltb v.now (add_time fr.valid_until v.grace);
    valid_until = fr.valid_until;
    stale = fr.upstream_stale;
    snapshot_id = fr.snapshot_id;
    fetched_at = fr.fetched_at;
  }

  unfoldable pub freshness_list : List String → List (String × TypeFreshness)
  unfolding freshness_entry
  freshness_list [] = []
  freshness_list (wire ∷ rest) = (wire, freshness_entry (v.freshness_of wire)) ∷ freshness_list rest

  -- `Freshness`, the map as an association list.
  unfoldable pub freshness : List (String × TypeFreshness)
  unfolding freshness_list
  freshness = freshness_list v.all_types

-- `fr[t].Fresh`: a type that the map does not have is not fresh.
unfoldable pub fresh_in : String → List (String × TypeFreshness) → Bool
fresh_in wire [] = false
fresh_in wire ((name, f) ∷ rest) =
    let later = fresh_in wire rest in if str_eq name wire then f.fresh else later
