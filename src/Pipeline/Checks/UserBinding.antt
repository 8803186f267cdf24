-- ===== src/Pipeline/Checks/UserBinding.antt =====
-- Step 7: internal/pipeline/check_user_binding.go.
pub mod Users
use eudi_verifier_core.Prelude.{Bool, true, false, List, [], ◌∷◌, ◌++◌, bytes, not, if◌then◌else◌}
use eudi_verifier_core.Errors.{ok}
use eudi_verifier_core.Pipeline.Names
use eudi_verifier_core.Pipeline.Report.{
  Outcome, unset, pass, fail, skipped, CheckResult, passed, failure,
}
use eudi_verifier_core.Pipeline.Context.{Check, Credential}
use eudi_verifier_core.Pipeline.Checks.Revocation.{is_revoked}

unfoldable pub is_pass : Outcome → Bool
is_pass pass = true
is_pass unset = false
is_pass fail = false
is_pass skipped = false

unfoldable pub check_users : List Credential → CheckResult
unfolding is_pass is_revoked
check_users [] = passed
check_users (cred ∷ rest) =
    if not (is_pass cred.device_binding_check)
    then failure "err:credential:binding-failed" (
        bytes "user binding requires device binding for credential "
        ++ bytes cred.pres.query_cred_id)
    else if is_revoked cred.status_result
    then failure "err:credential:binding-failed" (
        bytes "wallet solution revocation proxy failed for credential "
        ++ bytes cred.pres.query_cred_id)
    else check_users rest

unfoldable pub user_binding : {W : Type 0} → Check W
unfolding check_users
user_binding = record {
  name = Names.user_binding;
  run = λ pc. (ok (check_users pc.credentials), pc);
}
