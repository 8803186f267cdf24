-- ===== src/Pipeline/Checks/DeviceBinding.antt =====
-- Step 6: internal/pipeline/check_device_binding.go.
pub mod Bound
use eudi_verifier_core.Prelude.{
  Bool, true, false, Option, none, some, ◌++◌, bytes, str_eq, if◌then◌else◌, each,
}
use eudi_verifier_core.Errors.{ok}
use eudi_verifier_core.Policy.{require_device_binding_sdjwt}
use eudi_verifier_core.Libraries.{Format, sd_jwt, mdoc, other}
use eudi_verifier_core.Pipeline.Names
use eudi_verifier_core.Pipeline.Report.{
  CheckResult, blank, pass, fail, skipped, passed, failure, set_policy_branch,
}
use eudi_verifier_core.Pipeline.Classify.{safe_detail}
use eudi_verifier_core.Pipeline.Context.{PipelineContext, Check, Credential}
use eudi_verifier_core.Pipeline.Checks.IssuerAuthenticity.{binding_required}

abbrev bound : Credential → Credential
bound cred = record cred { holder_bound = true; device_binding_check = pass }

module _ {W : Type 0} (pc : PipelineContext W) where
  unfoldable pub bind_as : Format → Bool → Credential → Option CheckResult × Bool × Credential
  bind_as mdoc any cred = (none, any, bound cred)
  bind_as sd_jwt any cred =
      if binding_required pc cred.pres.query_cred_id
      then (none, any, bound cred)
      else (none, true, record cred { device_binding_check = skipped })
  bind_as (other name) any cred = (none, any, cred)

  -- One round of the loop; its variable is whether a credential was skipped.
  unfoldable pub bind : Bool → Credential → Option CheckResult × Bool × Credential
  unfolding bind_as
  bind any cred =
      if str_eq cred.deferred_step Names.device_binding
      then (
        some (
            failure "err:credential:binding-failed" (
              bytes "credential "
              ++ (bytes cred.pres.query_cred_id ++ (bytes ": " ++ safe_detail cred.deferred_err)))),
        any,
        record cred { device_binding_check = fail },
      )
      else bind_as cred.pres.format any cred

unfoldable pub verdict : Option CheckResult → Bool → CheckResult
verdict (some failed) any = failed
verdict none any =
    if any
    then record blank { outcome = skipped; code = "device-binding-policy-skipped" }
    else passed

unfoldable pub device_binding : {W : Type 0} → Check W
unfolding verdict bind
device_binding = record {
  name = Names.device_binding;
  run = λ pc.
      let (failed, any, creds) = each (bind pc) false pc.credentials in
      let branch =
        set_policy_branch "require_device_binding_sdjwt" (require_device_binding_sdjwt pc.policy)
          pc.report in
      (ok (verdict failed any), record pc { credentials = creds; report = branch });
}
