-- ===== src/Pipeline/Production.antt =====
-- The production engine: `pipeline.New(…).WithRecorder(…)` of app.go.
pub mod Rows
pub mod Ready
pub mod Statuses
pub mod Verified
use eudi_verifier_core.Prelude.{true, List, [], ◌∷◌}
use eudi_verifier_core.Libraries.{Libraries}
use eudi_verifier_core.Pipeline.Context.{Services, Check}
use eudi_verifier_core.Pipeline.Engine.{Engine}
use eudi_verifier_core.Pipeline.Checks.ResponseIntegrity.{response_integrity}
use eudi_verifier_core.Pipeline.Checks.Parse.{parse}
use eudi_verifier_core.Pipeline.Checks.IssuerAuthenticity.{issuer_authenticity}
use eudi_verifier_core.Pipeline.Checks.DataIntegrity.{data_integrity}
use eudi_verifier_core.Pipeline.Checks.Revocation.{revocation}
use eudi_verifier_core.Pipeline.Checks.DeviceBinding.{device_binding}
use eudi_verifier_core.Pipeline.Checks.UserBinding.{user_binding}
use eudi_verifier_core.Pipeline.Checks.QueryFulfilment.{query_fulfilment}
use eudi_verifier_core.Pipeline.Checks.CombinedChecks.{combined_checks}
use eudi_verifier_core.Pipeline.Checks.AssembleForward.{assemble_forward}

module _ {W : Type 0} (lib : Libraries) (sv : Services W) where
  unfoldable pub ten_checks : List (Check W)
  ten_checks =
      response_integrity lib
      ∷ parse lib
      ∷ issuer_authenticity lib
      ∷ data_integrity
      ∷ revocation lib sv
      ∷ device_binding
      ∷ user_binding
      ∷ query_fulfilment lib
      ∷ combined_checks
      ∷ assemble_forward sv
      ∷ []

  unfoldable pub production : Engine W
  unfolding ten_checks
  production = record { checks = ten_checks; recorded = true }
