-- ===== src/Pipeline/Engine.antt =====
-- `Engine.Run` of internal/pipeline/pipeline.go.
pub mod Rows
pub mod Chain
use eudi_verifier_core.Prelude.{
  String, Bool, true, false, some, List, [], ◌∷◌, ◌++◌, str_eq, if◌then◌else◌,
}
use eudi_verifier_core.Errors.{Result, ok, err}
use eudi_verifier_core.Pipeline.Names.{spec_refs}
use eudi_verifier_core.Pipeline.Report.{
  Outcome, pass, fail, skipped, unset, CheckResult, blank, Report, add, failed, verified,
}
use eudi_verifier_core.Pipeline.Classify.{code_for_error, safe_detail}
use eudi_verifier_core.Pipeline.Context.{PipelineContext, Check}

abbrev pub is_fail : Outcome → Bool
is_fail fail = true
is_fail unset = false
is_fail pass = false
is_fail skipped = false

-- What the installed recorder is told.
pub data Observation : Type 0 where
  started : String → Observation
  done : String → Outcome → Observation
  latency : Observation

pub record Engine (W : Type 0) : Type 0 where
  pub checks : List (Check W)
  pub recorded : Bool

abbrev named : String → CheckResult → CheckResult
named name r = record r {
  check = name;
  spec_ref = if str_eq r.spec_ref "" then spec_refs name else r.spec_ref;
}

-- The row of a check's result; an error is a failure with a mapped code.
unfoldable pub row : String → Result CheckResult → CheckResult
row name (ok r) = named name r
row name (err e) =
    named name
      (record blank { outcome = fail; code = code_for_error e; detail = safe_detail (some e) })

unfoldable pub observed : Bool → List Observation → List Observation → List Observation
observed true now rest = now ++ rest
observed false now rest = rest

module _ {W : Type 0} where
  -- One round: the row of the check, and the context with that row added to its report.
  unfoldable pub round : Check W → PipelineContext W → CheckResult × PipelineContext W
  unfolding row add
  round c pc =
      let (r, ran) = c.run pc in
      let res = row c.name r in (res, record ran { report = add res ran.report })

  -- How the loop ends: `pc.Report.Failed(code)` or `Verified()`, then `Build()`.
  abbrev ends : Report → PipelineContext W → Report × PipelineContext W × List Observation
  ends rep pc = (rep, record pc { report = rep }, [])

  unfoldable pub run_checks :
      Bool → List (Check W) → PipelineContext W → Report × PipelineContext W × List Observation
  unfolding observed
  run_checks recorded [] pc = ends (verified pc.report) pc
  run_checks recorded (c ∷ cs) pc =
      let (res, added) = round c pc in
      let rest = run_checks recorded cs added in
      let (rep, end, seen) =
        if is_fail res.outcome then ends (failed res.code added.report) added else rest in
      (rep, end, observed recorded (started c.name ∷ done c.name res.outcome ∷ []) seen)

  unfoldable pub run : Engine W → PipelineContext W → Report × PipelineContext W × List Observation
  unfolding run_checks
  run e pc =
      let (rep, end, seen) = run_checks e.recorded e.checks pc in
      (rep, end, seen ++ observed e.recorded (latency ∷ []) [])
