-- ===== src/Pipeline/Engine/Rows.antt =====
-- The rows of a report: one for each check that ran, in order, up to the first failure.
use mathlib.Core.List.{append-nil, append_assoc}
use eudi_verifier_core.Prelude.{
  ◌≤◌, String, Bool, true, false, List, [], ◌∷◌, ◌++◌, ◌≡◌, ◌≢◌, ◌⊎◌, inl, inr, refl, sym, ap, ◌∙◌,
  arith, length, take, length-take-le, Bool-cases, All, map,
}
use eudi_verifier_core.Errors.{Result, ok, err}
use eudi_verifier_core.Pipeline.Report.{
  Outcome, fail, CheckResult, Report, add, failed, verified, detail_cap,
}
use eudi_verifier_core.Pipeline.Context.{PipelineContext, Check}
use eudi_verifier_core.Pipeline.Engine.{Engine, is_fail, row, round, run_checks, run}

-- `rows` is what a report holds after the checks of these names ran, with the outcome and the fail
-- code: each row carries its check's name and a detail of bounded length; a failing row is the
-- last, and its code is the fail code; with no failing row all checks ran.
abbrev pub Ran : List String → List CheckResult → String → String → Type 0
Ran [] [] outcome fail_code = (outcome ≡ "verified") × (fail_code ≡ "")
Ran [] (r ∷ rows) outcome fail_code = ⊥
Ran (name ∷ names) [] outcome fail_code = ⊥
Ran (name ∷ names) (r ∷ rows) outcome fail_code =
    (r.check ≡ name)
    × (length r.detail ≤ detail_cap)
    × (((r.outcome ≡ fail) × (rows ≡ []) × (outcome ≡ "failed") × (fail_code ≡ r.code))
        ⊎ ((r.outcome ≢ fail) × Ran names rows outcome fail_code))

abbrev pub name_of : {W : Type 0} → Check W → String
name_of c = c.name

-- A check that leaves the rows of the report to the engine.
abbrev pub LeavesRows : {W : Type 0} → Check W → Type 0
LeavesRows {W} c = (pc : PipelineContext W) → (c.run pc).1.report.checks ≡ pc.report.checks

check-row : (name : String) (r : Result CheckResult) → (row name r).check ≡ name
unfolding row
check-row name (ok r) = refl
check-row name (err e) = refl

is_fail-fail : (o : Outcome) → is_fail o ≡ true → o ≡ fail
is_fail-fail o h = ground arith

is_fail-ne : (o : Outcome) → is_fail o ≡ false → o ≢ fail
is_fail-ne o h e = ground arith

-- A report with the rows `base` and, behind them, those of the checks of these names.
abbrev RanAfter : List CheckResult → List String → Report → Type 0
RanAfter base names rep =
    (rows : List CheckResult) × (rep.checks ≡ base ++ rows)
    × Ran names rows rep.outcome rep.fail_code

-- The row that a round adds.
abbrev capped : CheckResult → CheckResult
capped r = record r { detail = take detail_cap r.detail }

module _ {W : Type 0} (recorded : Bool) where
  round-checks :
      (c : Check W) (pc : PipelineContext W)
      → LeavesRows c
      → (round c pc).1.report.checks ≡ pc.report.checks ++ capped (round c pc).0 ∷ []
  unfolding round add
  round-checks c pc h = ap (λ rows. rows ++ capped (row c.name (c.run pc).0) ∷ []) (h pc)

  check-round : (c : Check W) (pc : PipelineContext W) → (round c pc).0.check ≡ c.name
  unfolding round
  check-round c pc = check-row c.name (c.run pc).0

  pub run_checks-stop :
      (c : Check W) (cs : List (Check W)) (pc : PipelineContext W)
      → is_fail (round c pc).0.outcome ≡ true
      → (run_checks recorded (c ∷ cs) pc).0 ≡ failed (round c pc).0.code (round c pc).1.report
  unfolding run_checks
  run_checks-stop c cs pc e = rw e

  -- A check that does not fail hands its context to the checks behind it.
  pub run_checks-go :
      (c : Check W) (cs : List (Check W)) (pc : PipelineContext W)
      → is_fail (round c pc).0.outcome ≡ false
      → ((run_checks recorded (c ∷ cs) pc).0 ≡ (run_checks recorded cs (round c pc).1).0)
        × ((run_checks recorded (c ∷ cs) pc).1 ≡ (run_checks recorded cs (round c pc).1).1)
  unfolding run_checks
  run_checks-go c cs pc e = (rw e, rw e)

  run_checks-Ran :
      (checks : List (Check W)) (pc : PipelineContext W)
      → All LeavesRows checks
      → RanAfter pc.report.checks (map name_of checks) (run_checks recorded checks pc).0
  run_checks-Ran [] pc h = unfold run_checks verified in ([], sym (append-nil _), (refl, refl))
  run_checks-Ran (c ∷ cs) pc h =
      let res = (round c pc).0 in
      let added = (round c pc).1 in
      let grown = round-checks c pc h.0 in
      let short = length-take-le detail_cap res.detail in
      elim (Bool-cases (is_fail res.outcome)) [
        | inl e ↦ rw (run_checks-stop c cs pc e) (
            unfold failed in
            (
              capped res ∷ [],
              grown,
              (check-round c pc, short, inl (is_fail-fail _ e, refl, refl, refl)),
            ))
        | inr e ↦
            let (rows, more, ran) = run_checks-Ran cs added h.1 in
            rw ((run_checks-go c cs pc e).0) (
              capped res ∷ rows,
              more
                  ∙ ap (λ l. l ++ rows) grown
                  ∙ append_assoc pc.report.checks (capped res ∷ []) rows,
              (check-round c pc, short, inr (is_fail-ne _ e, ran)),
            )
      ]

-- Every run of checks that leave the rows to the engine ends in a report whose rows are those of the
-- checks in order, up to the first failure: its outcome is "verified" exactly if all ran without
-- one, and otherwise its fail code is the code of the last row.
pub run-Ran :
    {W : Type 0} (e : Engine W) (pc : PipelineContext W)
    → All LeavesRows e.checks
    → pc.report.checks ≡ []
    → Ran (map name_of e.checks) (run e pc).0.checks (run e pc).0.outcome (run e pc).0.fail_code
unfolding run
run-Ran e pc h fresh =
    let (rows, same, ran) = run_checks-Ran e.recorded e.checks pc h in
    rw (same ∙ ap (λ l. l ++ rows) fresh) ran
