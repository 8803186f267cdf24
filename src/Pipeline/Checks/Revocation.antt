-- ===== src/Pipeline/Checks/Revocation.antt =====
-- Step 5: internal/pipeline/check_revocation.go.
pub mod Rulings
use eudi_verifier_core.Prelude.{
  String, Bool, true, false, Option, none, some, ◌++◌, ◌&&◌, not, Bytes, bytes, Duration, pos,
  sub_time, str_eq, if◌then◌else◌, each,
}
use eudi_verifier_core.Errors.{Result, ok, err}
use eudi_verifier_core.Policy.{revocation_fail_closed, short_lived_exemption}
use eudi_verifier_core.Libraries.{
  Libraries, Key, Status, revoked, suspended, unknown, coded, StatusRef, StatusInput, StatusReply,
  VerifiedCredential, VerifiedDocument,
}
use eudi_verifier_core.Pipeline.Names
use eudi_verifier_core.Pipeline.Report.{
  CheckResult, blank, passed, failure, skipped, set_policy_branch,
}
use eudi_verifier_core.Pipeline.Classify.{safe_detail}
use eudi_verifier_core.Pipeline.Trust.{resolve_status_signer_for}
use eudi_verifier_core.Pipeline.Context.{
  PipelineContext, Services, Check, Credential, doctype_or_vct,
}

sd_status : Option VerifiedCredential → Option StatusRef
sd_status none = none
sd_status (some sd) = sd.status

md_status : Option VerifiedDocument → Option StatusRef
md_status none = none
md_status (some md) = md.status

or_else : Option StatusRef → Option StatusRef → Option StatusRef
or_else (some ref) other = some ref
or_else none other = other

-- `statusRefOf`
unfoldable pub status_ref_of : Credential → Option StatusRef
unfolding sd_status md_status or_else
status_ref_of c = or_else (sd_status c.sd) (md_status c.md)

window_of : Option VerifiedCredential → Option VerifiedDocument → Duration
window_of (some sd) md = sub_time sd.expiry sd.not_before
window_of none (some md) = sub_time md.valid_until md.valid_from
window_of none none = pos 0

-- `validityWindow`
unfoldable pub validity_window : Credential → Duration
unfolding window_of
validity_window c = window_of c.sd c.md

unfoldable pub is_revoked : Status → Bool
is_revoked revoked = true
is_revoked suspended = true
is_revoked unknown = false
is_revoked (coded n) = false

unfoldable pub is_unknown : Status → Bool
is_unknown unknown = true
is_unknown revoked = false
is_unknown suspended = false
is_unknown (coded n) = false

is_suspended : Status → Bool
is_suspended suspended = true
is_suspended revoked = false
is_suspended unknown = false
is_suspended (coded n) = false

abbrev pub skipped_short_lived : String
skipped_short_lived = "skipped-short-lived"

abbrev pub skipped_fail_open : String
skipped_fail_open = "skipped-fail-open"

-- `MaxStale: 5 * time.Minute`
abbrev pub max_stale : Duration
max_stale = pos 300000000000

-- What one credential's status means for the loop: a failure, a skip, or neither.
pub data Ruling : Type 0 where
  fails : CheckResult → Ruling
  skips clear : Ruling

unfoldable pub unavailable : Bytes → StatusRef → CheckResult
unavailable detail ref = record (failure "err:revocation:unavailable" detail) {
  status_list_uri = ref.uri;
}

revoked_detail : Status → String → Bytes
unfolding is_suspended
revoked_detail status id =
    bytes "credential "
    ++ (bytes id ++ (if is_suspended status then bytes " suspended=true" else bytes " revoked"))

-- The `switch` over the checker's answer.
unfoldable pub ruling : Bool → StatusRef → String → StatusReply → Ruling
unfolding unavailable revoked_detail is_revoked is_unknown
ruling fail_closed ref id reply =
    if str_eq reply.outcome skipped_short_lived
    then skips
    else if str_eq reply.outcome skipped_fail_open
    then skips
    else elim reply.error [
      | some e ↦ fails (unavailable (safe_detail (some e)) ref)
      | none ↦
          if is_revoked reply.status
          then fails (failure "err:revocation:revoked" (revoked_detail reply.status id))
          else if is_unknown reply.status && fail_closed
          then fails (unavailable (bytes "status unknown") ref)
          else clear
    ]

-- The loop's variables: the stores, and whether a credential was skipped.
abbrev Loop : Type 0 → Type 0
Loop W = W × Bool

module _ {W : Type 0} (lib : Libraries) (pc : PipelineContext W) where
  token_key : Credential → Bytes → Result Key
  token_key cred token = elim (lib.parse_jws_header token) [
    | err e ↦ err e
    | ok header ↦ elim (lib.x5c_from_header header) [
      | err e ↦ err e
      | ok chain ↦ resolve_status_signer_for lib pc.cred_trust chain (doctype_or_vct cred)
    ]
  ]

  unfoldable pub status_input : StatusRef → Credential → StatusInput
  unfolding token_key
  status_input ref cred = record {
    ref = ref;
    resolver = token_key cred;
    allow_fail_open = not (revocation_fail_closed pc.policy);
    max_stale = max_stale;
    credential_validity = if short_lived_exemption pc.policy then validity_window cred else pos 0;
  }

module _ {W : Type 0} (lib : Libraries) (sv : Services W) (pc : PipelineContext W) where
  record_ref : StatusRef → W → W
  record_ref ref w = elim sv.record_ref [ some record_uri ↦ record_uri ref.uri w | none ↦ w ]

  unfoldable pub apply : Ruling → W → Bool → Credential → Option CheckResult × Loop W × Credential
  apply (fails r) w any cred = (some r, (w, any), cred)
  apply skips w any cred = (none, (w, true), cred)
  apply clear w any cred = (none, (w, any), cred)

  unfoldable pub check_ref :
      StatusRef → Loop W → Credential → Option CheckResult × Loop W × Credential
  unfolding apply record_ref
  check_ref ref (w, any) cred =
      let reply = lib.check_status (status_input lib pc ref cred) in
      apply (ruling (revocation_fail_closed pc.policy) ref cred.pres.query_cred_id reply)
        (record_ref ref w) any
        (record cred { status_result = reply.status; status_provenance = reply.outcome })

  unfoldable pub check_evaluated :
      Option StatusRef → Loop W → Credential → Option CheckResult × Loop W × Credential
  unfolding check_ref
  check_evaluated none s cred = (none, s, record cred { status_provenance = "no-status-ref" })
  check_evaluated (some ref) s cred = check_ref ref s cred

  -- One round of the loop.
  unfoldable pub check_status : Loop W → Credential → Option CheckResult × Loop W × Credential
  unfolding check_evaluated
  check_status s cred =
      if str_eq cred.deferred_step Names.device_binding
      then (none, (s.0, true), record cred { status_provenance = "not-evaluated-binding-pending" })
      else check_evaluated (status_ref_of cred) s cred

abbrev pub partially_skipped : CheckResult
partially_skipped = record blank { outcome = skipped; code = "revocation-partially-skipped" }

unfoldable pub verdict : Option CheckResult → Bool → CheckResult
verdict (some failed) any = failed
verdict none any = if any then partially_skipped else passed

unfoldable pub revocation : {W : Type 0} → Libraries → Services W → Check W
unfolding verdict check_status
revocation lib sv = record {
  name = Names.revocation;
  run = λ pc.
      let (failed, (w, any), creds) =
        each (check_status lib sv pc) (pc.world, false) pc.credentials in
      let branches =
        set_policy_branch "short_lived_exemption" (short_lived_exemption pc.policy) (
          set_policy_branch "revocation_fail_closed" (revocation_fail_closed pc.policy)
            pc.report) in
      (ok (verdict failed any), record pc { credentials = creds; world = w; report = branches });
}
