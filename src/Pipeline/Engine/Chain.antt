-- ===== src/Pipeline/Engine/Chain.antt =====
-- What holds behind a run that ends verified, one check at a time.
use eudi_verifier_core.Prelude.{
  String, Bool, true, false, Option, none, some, List, [], ◌∷◌, ◌≡◌, refl, inl, inr, ◌∙◌, sym, ap,
  Bool-cases, eq_iff,
}
use eudi_verifier_core.Pipeline.Report.{Report, failed, CheckResult}
use eudi_verifier_core.Pipeline.Context.{PipelineContext, Check}
use eudi_verifier_core.Pipeline.Engine.{is_fail, round, run_checks}
use eudi_verifier_core.Pipeline.Engine.Rows.{run_checks-stop, run_checks-go}

-- A loop whose early results all fail returned none, if the check's verdict does not fail.
pub no_result :
    (o : Option CheckResult) (verdict : Option CheckResult → CheckResult)
    → ((r : CheckResult) → verdict (some r) ≡ r)
    → ((r : CheckResult) → o ≡ some r → is_fail r.outcome ≡ true)
    → is_fail (verdict o).outcome ≡ false
    → o ≡ none
no_result none verdict same fails e = refl
no_result (some r) verdict same fails e = cc (fails r refl, rw same at e)

pub not-verified : ◌≡◌ {A = String} "failed" "verified" → ⊥
not-verified e = cc ((eq_iff "failed" "verified").1 e)

module _ {W : Type 0} where
  -- Behind the check, if it does not fail.
  abbrev pub Ensures :
      (PipelineContext W → Type 0) → Check W → (PipelineContext W → Type 0) → Type 0
  Ensures P c Q =
      (pc : PipelineContext W) → P pc → is_fail (round c pc).0.outcome ≡ false → Q (round c pc).1

  -- The context behind the checks, one after the other.
  abbrev pub behind : List (Check W) → PipelineContext W → PipelineContext W
  behind [] pc = pc
  behind (c ∷ cs) pc = behind cs (round c pc).1

  -- The run of `checks` from `start` has come to the context `at`, where `Q` holds, and goes on
  -- with `rest` to a verified report.
  pub record Reached (recorded : Bool) (checks : List (Check W)) (start : PipelineContext W)
      (at : PipelineContext W) (Q : PipelineContext W → Type 0) (rest : List (Check W))
      : Type 0 where
    pub holds : Q at
    pub verified : (run_checks recorded rest at).0.outcome ≡ "verified"
    pub same_report : (run_checks recorded checks start).0 ≡ (run_checks recorded rest at).0
    pub same_context : (run_checks recorded checks start).1 ≡ (run_checks recorded rest at).1

module _ {W : Type 0} {recorded : Bool} {checks : List (Check W)} {start : PipelineContext W} where
  pub begin :
      (Q : PipelineContext W → Type 0)
      → Q start
      → (run_checks recorded checks start).0.outcome ≡ "verified"
      → Reached recorded checks start start Q checks
  begin Q q v = record { holds = q; verified = v; same_report = refl; same_context = refl }

  module _ {at : PipelineContext W} {P : PipelineContext W → Type 0} {c : Check W}
      {rest : List (Check W)} where
    -- The next check of a run that ends verified did not fail.
    pub quiet :
        Reached recorded checks start at P (c ∷ rest) → is_fail (round c at).0.outcome ≡ false
    unfolding failed
    quiet r = elim (Bool-cases (is_fail (round c at).0.outcome)) [
      | inr e ↦ e
      | inl e ↦ absurd (
          not-verified (
            sym (ap (λ (rep : Report). rep.outcome) (run_checks-stop recorded c rest at e))
            ∙ r.verified))
    ]

    pub next :
        (Q : PipelineContext W → Type 0)
        → Reached recorded checks start at P (c ∷ rest)
        → Ensures P c Q
        → Reached recorded checks start (round c at).1 Q rest
    next Q r ensures =
        let (report, context) = run_checks-go recorded c rest at (quiet r) in
        record {
          holds = ensures at r.holds (quiet r);
          verified = ap (λ (rep : Report). rep.outcome) (sym report) ∙ r.verified;
          same_report = r.same_report ∙ report;
          same_context = r.same_context ∙ context;
        }
