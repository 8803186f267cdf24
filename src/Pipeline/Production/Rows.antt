-- ===== src/Pipeline/Production/Rows.antt =====
-- The rows of a production report.
use eudi_verifier_core.Prelude.{List, [], ◌∷◌, ◌≡◌, refl, arith, All}
use eudi_verifier_core.Libraries.{Libraries}
use eudi_verifier_core.Pipeline.Names
use eudi_verifier_core.Pipeline.Report.{Report, set_policy_branch, add_credential}
use eudi_verifier_core.Pipeline.Context.{Services, PipelineContext, Credential}
use eudi_verifier_core.Pipeline.Engine.{run}
use eudi_verifier_core.Pipeline.Engine.Rows.{Ran, LeavesRows, run-Ran}
use eudi_verifier_core.Pipeline.Finalize.{finalize}
use eudi_verifier_core.Pipeline.Checks.ResponseIntegrity.{response_integrity}
use eudi_verifier_core.Pipeline.Checks.Parse.{parse}
use eudi_verifier_core.Pipeline.Checks.IssuerAuthenticity.{issuer_authenticity}
use eudi_verifier_core.Pipeline.Checks.DataIntegrity.{data_integrity}
use eudi_verifier_core.Pipeline.Checks.Revocation.{revocation}
use eudi_verifier_core.Pipeline.Checks.DeviceBinding.{device_binding}
use eudi_verifier_core.Pipeline.Checks.UserBinding.{user_binding}
use eudi_verifier_core.Pipeline.Checks.QueryFulfilment.{query_fulfilment}
use eudi_verifier_core.Pipeline.Checks.CombinedChecks.{combined_checks}
use eudi_verifier_core.Pipeline.Checks.AssembleForward.{assemble_forward, add_summaries}
use eudi_verifier_core.Pipeline.Production.{ten_checks, production}

checks-add_summaries :
    (creds : List Credential) (rep : Report) → (add_summaries creds rep).checks ≡ rep.checks
unfolding add_summaries add_credential
checks-add_summaries [] rep = refl
checks-add_summaries (cred ∷ rest) rep = checks-add_summaries rest _

module _ {W : Type 0} (lib : Libraries) (sv : Services W) where
  response_integrity-LeavesRows : LeavesRows (response_integrity {W = W} lib)
  unfolding response_integrity
  response_integrity-LeavesRows pc = ground arith

  assemble_forward-LeavesRows : LeavesRows (assemble_forward sv)
  unfolding assemble_forward finalize
  assemble_forward-LeavesRows pc = checks-add_summaries pc.credentials pc.report

  inner-LeavesRows :
      LeavesRows (parse lib {W = W})
      × LeavesRows (issuer_authenticity {W = W} lib)
      × LeavesRows (data_integrity {W = W})
      × LeavesRows (revocation lib sv)
      × LeavesRows (device_binding {W = W})
      × LeavesRows (user_binding {W = W})
      × LeavesRows (query_fulfilment {W = W} lib)
      × LeavesRows (combined_checks {W = W})
  unfolding parse issuer_authenticity data_integrity revocation device_binding user_binding
      query_fulfilment combined_checks set_policy_branch
  inner-LeavesRows = (
    λ pc. refl,
    λ pc. refl,
    λ pc. refl,
    λ pc. refl,
    λ pc. refl,
    λ pc. refl,
    λ pc. refl,
    λ pc. refl,
  )

  ten-LeavesRows : All LeavesRows (ten_checks lib sv)
  unfolding ten_checks
  ten-LeavesRows =
      let (two, three, four, five, six, seven, eight, nine) = inner-LeavesRows in
      (
        response_integrity-LeavesRows,
        (
          two,
          (
            three,
            (four, (five, (six, (seven, (eight, (nine, (assemble_forward-LeavesRows, tt))))))),
          ),
        ),
      )

  -- Every production run from a fresh context ends in a report whose rows are the ten checks in
  -- their order, up to the first failure, each with a detail of at most 200 bytes: the outcome is
  -- "verified" with no fail code if all ten ran and none failed, and otherwise "failed" with the
  -- code of the last row, the only one that fails.
  pub production-Ran :
      (pc : PipelineContext W)
      → pc.report.checks ≡ []
      → let rep = (run (production lib sv) pc).0 in
        Ran Names.all_checks rep.checks rep.outcome rep.fail_code
  unfolding production response_integrity parse issuer_authenticity data_integrity revocation
      device_binding user_binding query_fulfilment combined_checks assemble_forward
  production-Ran pc fresh = run-Ran (production lib sv) pc ten-LeavesRows fresh
