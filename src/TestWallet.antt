-- ===== src/TestWallet.antt =====
-- The synthetic wallet of the service's tests, internal/testwallet: the faults that a test asks for
-- (faults.go).
pub mod Response
pub mod Coordinates
use eudi_verifier_core.Prelude.{
  String, Bool, true, false, Option, none, some, List, [], ◌∷◌, ◌++◌, Duration, GoMap, assign, pos,
  str_eq, if◌then◌else◌,
}
use eudi_verifier_core.Claims.{Claims}

-- `presentSpec`; the map of overrides is nil at first, and answers like an empty one then.
pub record PresentSpec : Type 0 where
  pub malformed : Bool
  pub unregistered_issuer : Bool
  pub tamper_digest : Bool
  pub revoked : Bool
  pub wrong_nonce : Bool
  pub stale_kb_age : Duration
  pub wrong_transcript : Bool
  pub omit_kb : Bool
  pub missing_claims : List String
  pub claims_override : GoMap Claims
  pub dcapi_origin : String
  pub validity : Duration
  pub wrong_state : Bool
  pub extra_credential_id : String
  pub duplicate_credential : Bool

-- `FaultOption`
abbrev pub FaultOption : Type 0
FaultOption = PresentSpec → PresentSpec

-- The zero value of a `presentSpec`.
abbrev pub honest : PresentSpec
honest = record {
  malformed = false;
  unregistered_issuer = false;
  tamper_digest = false;
  revoked = false;
  wrong_nonce = false;
  stale_kb_age = pos 0;
  wrong_transcript = false;
  omit_kb = false;
  missing_claims = [];
  claims_override = λ id. none;
  dcapi_origin = "";
  validity = pos 0;
  wrong_state = false;
  extra_credential_id = "";
  duplicate_credential = false;
}

apply_all : List FaultOption → PresentSpec → PresentSpec
apply_all [] spec = spec
apply_all (o ∷ opts) spec = apply_all opts (o spec)

-- `resolveSpec`
unfoldable pub resolve_spec : List FaultOption → PresentSpec
unfolding apply_all
resolve_spec opts = apply_all opts honest

with_wrong_state : FaultOption
with_wrong_state s = record s { wrong_state = true }

with_wrong_nonce : FaultOption
with_wrong_nonce s = record s { wrong_nonce = true }

with_revoked_credential : FaultOption
with_revoked_credential s = record s { revoked = true }

with_tampered_digest : FaultOption
with_tampered_digest s = record s { tamper_digest = true }

with_stale_kb_jwt : (age : Duration) → FaultOption
with_stale_kb_jwt age s = record s { stale_kb_age = age }

with_wrong_transcript : FaultOption
with_wrong_transcript s = record s { wrong_transcript = true }

with_unregistered_issuer : FaultOption
with_unregistered_issuer s = record s { unregistered_issuer = true }

with_malformed_credential : FaultOption
with_malformed_credential s = record s { malformed = true }

without_kb_jwt : FaultOption
without_kb_jwt s = record s { omit_kb = true }

with_missing_claim : (path : String) → FaultOption
with_missing_claim path s = record s { missing_claims = s.missing_claims ++ (path ∷ []) }

with_extra_credential : (query_id : String) → FaultOption
with_extra_credential query_id s = record s { extra_credential_id = query_id }

with_duplicate_credential : FaultOption
with_duplicate_credential s = record s { duplicate_credential = true }

with_dcapi_origin : (origin : String) → FaultOption
with_dcapi_origin origin s = record s { dcapi_origin = origin }

with_validity : (d : Duration) → FaultOption
with_validity d s = record s { validity = d }

with_claims : (query_cred_id : String) (claims : Claims) → FaultOption
with_claims id claims s = record s { claims_override = assign s.claims_override id claims }
