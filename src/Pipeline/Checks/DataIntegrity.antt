-- ===== src/Pipeline/Checks/DataIntegrity.antt =====
-- Step 4: internal/pipeline/check_data_integrity.go.
pub mod Undeferred
use eudi_verifier_core.Prelude.{List, [], ◌∷◌, ◌++◌, bytes, str_eq, if◌then◌else◌}
use eudi_verifier_core.Errors.{ok}
use eudi_verifier_core.Pipeline.Names
use eudi_verifier_core.Pipeline.Report.{CheckResult, passed, failure}
use eudi_verifier_core.Pipeline.Classify.{safe_detail}
use eudi_verifier_core.Pipeline.Context.{Check, Credential}

unfoldable pub find_deferred : List Credential → CheckResult
find_deferred [] = passed
find_deferred (cred ∷ rest) =
    if str_eq cred.deferred_step Names.data_integrity
    then failure "err:credential:integrity" (
        bytes "credential "
        ++ (bytes cred.pres.query_cred_id ++ (bytes ": " ++ safe_detail cred.deferred_err)))
    else find_deferred rest

unfoldable pub data_integrity : {W : Type 0} → Check W
data_integrity = record {
  name = Names.data_integrity;
  run = λ pc. (ok (find_deferred pc.credentials), pc);
}
