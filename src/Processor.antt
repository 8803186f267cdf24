-- ===== src/Processor.antt =====
-- `pipelineProcessor.Process` of routes/processor_pipeline.go.
pub mod Answers
use eudi_verifier_core.Prelude.{
  String, Bool, Option, none, some, List, [], Bytes, bytes, str_eq, if◌then◌else◌,
}
use eudi_verifier_core.Errors.{GoError, Result, ok, err}
use eudi_verifier_core.Libraries.{Libraries, Session}
use eudi_verifier_core.Policy.{ClientPolicy, parse_policy}
use eudi_verifier_core.Pipeline.Report.{Report}
use eudi_verifier_core.Pipeline.Trust.{CredentialTrustMap, IssuerValidityModel}
use eudi_verifier_core.Pipeline.Context.{
  SessionRow, RunResult, Services, PipelineContext, new_context,
}
use eudi_verifier_core.Pipeline.Engine.{run}
use eudi_verifier_core.Pipeline.Finalize.{finalize}
use eudi_verifier_core.Pipeline.Production.{production}
use eudi_verifier_core.WalletErrors.{NewProblem, wallet_fail_problem}

-- What `Process` takes from the application, over the state `W` of its stores.
pub record App (W : Type 0) : Type 0 where
  pub libraries : Libraries
  pub services : Services W
  pub cred_trust : CredentialTrustMap
  pub issuer_validity : IssuerValidityModel
  pub get_row : String → W → Result SessionRow
  pub unmarshal_policy : Bytes → Result ClientPolicy
  pub marshal_report : Report → Result Bytes
  pub save_report : String → Bytes → W → Option GoError × W
  pub set_status : String → String → W → Option GoError × W
  pub save_response_code : String → String → W → Option GoError × W
  pub redirect_uri : Session → Result String
  pub new_problem : NewProblem

-- What `Process` returns, and the context as it leaves it.
abbrev pub Answer : Type 0 → Type 0
Answer W = Result String × PipelineContext W

module _ {W : Type 0} (app : App W) where
  with_world : PipelineContext W → W → PipelineContext W
  with_world pc w = record pc { world = w }

  -- The result that a failed run delivers: the report, and no credential.
  unfoldable pub failed_result : Report → PipelineContext W → RunResult
  failed_result rep pc = record {
    session_id = pc.session_id;
    outcome = "failed";
    report = rep;
    credentials = [];
  }

  refuse : Report → PipelineContext W → Answer W
  unfolding with_world failed_result
  refuse rep pc =
      let marked = with_world pc (app.set_status pc.session_id "failed" pc.world).1 in
      (
        err (wallet_fail_problem app.new_problem rep.fail_code),
        (finalize app.services marked (failed_result rep pc)).1,
      )

  redirect : PipelineContext W → Answer W
  redirect pc =
      (if str_eq pc.meta.flow "same_device" then app.redirect_uri pc.session else ok "", pc)

  indexed : PipelineContext W → Option GoError × W → Answer W
  unfolding redirect with_world
  indexed pc (some e, w) = (err e, with_world pc w)
  indexed pc (none, w) = redirect (with_world pc w)

  index : PipelineContext W → Answer W
  unfolding indexed
  index pc =
      if str_eq pc.response_code ""
      then redirect pc
      else indexed pc (app.save_response_code pc.response_code pc.session_id pc.world)

  accepted : PipelineContext W → Option GoError × W → Answer W
  unfolding index with_world
  accepted pc (some e, w) = (err e, with_world pc w)
  accepted pc (none, w) = index (with_world pc w)

  unfoldable decide : Report → PipelineContext W → Answer W
  unfolding refuse accepted
  decide rep pc =
      if str_eq rep.outcome "verified"
      then accepted pc (app.set_status pc.session_id "verified" pc.world)
      else refuse rep pc

  reported : Report → PipelineContext W → Option GoError × W → Answer W
  unfolding decide with_world
  reported rep pc (some e, w) = (err e, with_world pc w)
  reported rep pc (none, w) = decide rep (with_world pc w)

  -- The report is saved where it can be encoded.
  report : Report → PipelineContext W → Answer W
  unfolding reported decide
  report rep pc = elim (app.marshal_report rep) [
    | err e ↦ decide rep pc
    | ok raw ↦ reported rep pc (app.save_report pc.session_id raw pc.world)
  ]

  -- The context that the run starts from; the origin counts for the `dcapi` flow alone.
  unfoldable pub prepared :
      Session → Bytes → String → SessionRow → ClientPolicy → W → PipelineContext W
  prepared sess body origin meta policy w =
      new_context sess meta body policy (if str_eq meta.flow "dcapi" then origin else "")
        app.cred_trust app.issuer_validity w

  -- The run, and what follows it.
  unfoldable pub judge : PipelineContext W → Answer W
  unfolding report
  judge pc = let (rep, end, seen) = run (production app.libraries app.services) pc in report rep end

  -- `Process`; with no context where it ends before there is one.
  unfoldable pub process :
      Session → Bytes → (origin : String) → W → Result String × Option (PipelineContext W)
  unfolding judge prepared
  process sess body origin w = elim (app.get_row sess.id w) [
    | err e ↦ (err e, none)
    | ok meta ↦ elim (parse_policy app.unmarshal_policy meta.policy) [
      | err e ↦ (err (app.new_problem "err:pipeline:internal" none), none)
      | ok policy ↦
          let (answer, end) = judge (prepared sess body origin meta policy w) in (answer, some end)
    ]
  ]
