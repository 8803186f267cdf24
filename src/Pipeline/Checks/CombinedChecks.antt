-- ===== src/Pipeline/Checks/CombinedChecks.antt =====
-- Step 9: internal/pipeline/check_combined.go.
pub mod Distinct
use eudi_verifier_core.Prelude.{
  Bool, Option, none, some, List, [], ◌∷◌, ◌++◌, ◌&&◌, not, bytes, bytes_equal, str_eq,
  if◌then◌else◌,
}
use eudi_verifier_core.Errors.{ok}
use eudi_verifier_core.Pipeline.Names
use eudi_verifier_core.Pipeline.Report.{CheckResult, passed, failure}
use eudi_verifier_core.Pipeline.Context.{Check, Credential}

-- Two credentials answer different queries with the same artifact.
unfoldable pub conflicts : Credential → Credential → Bool
conflicts a b =
    not (str_eq a.pres.query_cred_id b.pres.query_cred_id)
    && bytes_equal a.pres.payload b.pres.payload

-- The inner loop: the first credential behind `a` that conflicts with it.
unfoldable pub conflict_with : Credential → List Credential → Option Credential
unfolding conflicts
conflict_with a [] = none
conflict_with a (b ∷ rest) = if conflicts a b then some b else conflict_with a rest

-- The outer loop.
unfoldable pub first_conflict : List Credential → Option (Credential × Credential)
unfolding conflict_with
first_conflict [] = none
first_conflict (a ∷ rest) = elim (conflict_with a rest) [
  | some b ↦ some (a, b)
  | none ↦ first_conflict rest
]

unfoldable pub combined : Option (Credential × Credential) → CheckResult
combined none = record passed { detail = bytes "wscd-binding: not evaluated (no ARF mechanism)" }
combined (some (a, b)) = failure "err:presentation:combined-check" (
    bytes "identical credential presented for "
    ++ (bytes a.pres.query_cred_id ++ (bytes " and " ++ bytes b.pres.query_cred_id)))

unfoldable pub combined_checks : {W : Type 0} → Check W
unfolding combined first_conflict
combined_checks = record {
  name = Names.combined_checks;
  run = λ pc. (ok (combined (first_conflict pc.credentials)), pc);
}
