-- ===== src/Examples/Answers.antt =====
-- Answers of `Process`, and what the wallet is told of a refusal.
use eudi_verifier_core.Prelude.{
  ℕ, ◌≤◌, ◌<◌, String, true, Option, none, some, List, [], ◌∷◌, ◌≡◌, ◌≢◌, ◌⊎◌, ◌↔◌, inl, inr, refl,
  ap, sym, ◌∙◌, bytes, str_eq, if◌then◌else◌, Bool-cases,
}
use eudi_verifier_core.Errors.{ok, err, plain}
use eudi_verifier_core.Policy.{defaults, parse_policy}
use eudi_verifier_core.Libraries.{Libraries}
use eudi_verifier_core.Pipeline.Report.{Report, failed, new_builder}
use eudi_verifier_core.Pipeline.Context.{PipelineContext, Check, new_context}
use eudi_verifier_core.Pipeline.Engine.{run, round, is_fail}
use eudi_verifier_core.Pipeline.Engine.Rows.{run_checks-stop}
use eudi_verifier_core.Pipeline.Engine.Chain.{not-verified}
use eudi_verifier_core.Pipeline.Checks.ResponseIntegrity.{response_integrity}
use eudi_verifier_core.Pipeline.Trust.{default_credential_trust}
use eudi_verifier_core.Pipeline.Finalize.Zeroed.{IsWiped}
use eudi_verifier_core.Pipeline.Production.{production, ten_checks}
use eudi_verifier_core.WalletErrors.{
  NewProblem, wallet_fail_problem, WalletErrorBody, verification_outcome, desc_not_accepted,
}
use eudi_verifier_core.WalletErrors.Refusals.{IsRegistry, IsPinned, wallet_fail_problem-told}
use eudi_verifier_core.Processor.{App, judge, process, prepared}
use eudi_verifier_core.Processor.Answers.{Answered, process-Answered, judge-Refused}
use eudi_verifier_core.Reasons.Registry.{IsRated}
use eudi_verifier_core.Reasons.Ratings.{production-IsRated}
use eudi_verifier_core.Examples.Wallet.{lib, willing, session, session_row, untrusted, started}
use eudi_verifier_core.Examples.Runs.{honest_run}

-- Problems as a registry that knows three ratings makes them.
abbrev pub rating : String → ℕ
rating code = if str_eq code "err:trust:anchor-unavailable" then 503 else 410

abbrev pub status_of : String → Option ℕ → ℕ
status_of code none = rating code
status_of code (some status) = status

abbrev pub problems : NewProblem
problems code status = record (plain (bytes code)) {
  problem = some (record { code = code; status = status_of code status });
}

problems-IsRegistry : IsRegistry problems rating
problems-IsRegistry = record { rated = λ code. refl; pinned = λ code status. refl }

wallet_fail_problem-told_example :
    (((r : ℕ × WalletErrorBody) × (verification_outcome
            (wallet_fail_problem problems "err:credential:expired")
          ≡ some r))
      ↔ (IsPinned "err:credential:expired"
          ⊎ ((400 ≤ rating "err:credential:expired") × (rating "err:credential:expired" < 500))))
    × (IsPinned "err:credential:expired"
        → verification_outcome (wallet_fail_problem problems "err:credential:expired")
          ≡ some (400, record { error = "invalid_request"; error_description = desc_not_accepted }))
wallet_fail_problem-told_example =
    wallet_fail_problem-told problems rating problems-IsRegistry "err:credential:expired"

abbrev pub app : {W : Type 0} → Libraries → App W
app libraries = record {
  libraries = libraries;
  services = willing;
  cred_trust = default_credential_trust;
  issuer_validity = "shell";
  get_row = λ id w. ok session_row;
  unmarshal_policy = λ raw. ok defaults;
  marshal_report = λ rep. ok [];
  save_report = λ id raw w. (none, w);
  set_status = λ id status w. (none, w);
  save_response_code = λ code id w. (none, w);
  redirect_uri = λ s. ok "";
  new_problem = problems;
}

module _ {W : Type 0} (w : W) where
  prepared_start : prepared (app lib) session (bytes "body") "" session_row defaults w ≡ started w
  unfolding prepared new_context new_builder
  prepared_start = refl

  judge_ok :
      (pc : PipelineContext W)
      → (run (production lib willing) pc).0.outcome ≡ "verified"
      → (judge (app lib) pc).0 ≡ ok ""
  unfolding judge
  judge_ok pc h =
      let end = (run (production lib willing) pc).1 in
      elim (Bool-cases (str_eq end.response_code "")) [
        | inl e ↦ elim (Bool-cases (str_eq end.meta.flow "same_device")) [
          | inl f ↦ rw (h, e, f) refl
          | inr f ↦ rw (h, e, f) refl
        ]
        | inr e ↦ elim (Bool-cases (str_eq end.meta.flow "same_device")) [
          | inl f ↦ rw (h, e, f) refl
          | inr f ↦ rw (h, e, f) refl
        ]
      ]

  pub answered : (process (app lib) session (bytes "body") "" w).0 ≡ ok ""
  unfolding process parse_policy
  answered = rw prepared_start (judge_ok (started w) (honest_run w))

process-Answered_example : Answered (app lib) session (bytes "body") "" tt
process-Answered_example = process-Answered (app lib) session (bytes "body") "" tt "" (answered tt)

-- Libraries that cannot decrypt the response.
abbrev deaf : Libraries
deaf = record lib { process_response = λ s body. (s, err untrusted) }

deaf_fails : is_fail (round (response_integrity deaf) (started tt)).0.outcome ≡ true
unfolding round response_integrity
deaf_fails = refl

abbrev behind_first : List (Check Unit) → List (Check Unit)
behind_first [] = []
behind_first (c ∷ cs) = cs

deaf_run : (run (production deaf willing) (started tt)).0.outcome ≢ "verified"
unfolding run production ten_checks failed
deaf_run v = not-verified (
    sym (
      ap (λ (rep : Report). rep.outcome)
        (run_checks-stop true (response_integrity deaf) (behind_first (ten_checks deaf willing))
          (started tt) deaf_fails))
    ∙ v)

judge-Refused_example :
    let ended = run (production deaf willing) (started tt) in
    ((judge (app deaf) (started tt)).0 ≡ err (wallet_fail_problem problems ended.0.fail_code))
    × IsWiped (judge (app deaf) (started tt)).1
judge-Refused_example = judge-Refused (app deaf) (started tt) deaf_run (λ raw same. refl)

deaf_failed : (run (production deaf willing) (started tt)).0.outcome ≡ "failed"
unfolding run production ten_checks failed
deaf_failed =
    ap (λ (rep : Report). rep.outcome)
      (run_checks-stop true (response_integrity deaf) (behind_first (ten_checks deaf willing))
        (started tt) deaf_fails)

production-IsRated_example : IsRated (run (production deaf willing) (started tt)).0.fail_code
production-IsRated_example = production-IsRated deaf willing (started tt) deaf_failed
