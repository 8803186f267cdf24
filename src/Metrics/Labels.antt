-- ===== src/Metrics/Labels.antt =====
-- What a production run counts.
use eudi_verifier_core.Prelude.{
  String, true, none, List, [], ◌∷◌, ◌≡◌, inl, inr, refl, ap, str_eq, exists, Bool-cases, All,
  All-append,
}
use eudi_verifier_core.Libraries.{Libraries}
use eudi_verifier_core.Pipeline.Names
use eudi_verifier_core.Pipeline.Report.{Outcome, unset, pass, fail, skipped}
use eudi_verifier_core.Pipeline.Context.{Services, PipelineContext, Check}
use eudi_verifier_core.Pipeline.Engine.{
  Observation, started, done, latency, is_fail, round, row, run_checks, run, observed,
}
use eudi_verifier_core.Pipeline.Checks.ResponseIntegrity.{response_integrity}
use eudi_verifier_core.Pipeline.Checks.Parse.{parse}
use eudi_verifier_core.Pipeline.Checks.IssuerAuthenticity.{issuer_authenticity}
use eudi_verifier_core.Pipeline.Checks.DataIntegrity.{data_integrity}
use eudi_verifier_core.Pipeline.Checks.Revocation.{revocation}
use eudi_verifier_core.Pipeline.Checks.DeviceBinding.{device_binding}
use eudi_verifier_core.Pipeline.Checks.UserBinding.{user_binding}
use eudi_verifier_core.Pipeline.Checks.QueryFulfilment.{query_fulfilment}
use eudi_verifier_core.Pipeline.Checks.CombinedChecks.{combined_checks}
use eudi_verifier_core.Pipeline.Checks.AssembleForward.{assemble_forward}
use eudi_verifier_core.Pipeline.Production.{ten_checks, production}
use eudi_verifier_core.Reasons.Codes.{is_set}
use eudi_verifier_core.Reasons.Ratings.{Accounts, Accounted, ten-Accounts}
use eudi_verifier_core.Metrics.{new_recorder, outcome_text, validate, counted, counters}

-- The checks that ended, with their outcomes, whatever the recorder thinks of them.
unfoldable pub ended : List Observation → List (String × String)
ended [] = []
ended (started check ∷ rest) = ended rest
ended (done check outcome ∷ rest) = (check, outcome_text outcome) ∷ ended rest
ended (latency ∷ rest) = ended rest

-- An observation that the recorder accepts.
abbrev IsLabel : Observation → Type 0
IsLabel (started check) = Unit
IsLabel (done check outcome) = validate new_recorder check (outcome_text outcome) ≡ none
IsLabel latency = Unit

accepted :
    (check : String) (outcome : Outcome)
    → exists (λ name. str_eq name check) Names.all_checks ≡ true
    → is_set outcome ≡ true
    → validate new_recorder check (outcome_text outcome) ≡ none
unfolding validate new_recorder is_set
accepted check unset n h = absurd (cc h)
accepted check pass n h = rw n refl
accepted check fail n h = rw n refl
accepted check skipped n h = rw n refl

all_counted : (os : List Observation) → All IsLabel os → counters new_recorder os ≡ ended os
unfolding counters counted ended
all_counted [] h = refl
all_counted (started check ∷ os) h = all_counted os h.1
all_counted (done check outcome ∷ os) h =
    rw h.0 (ap (λ l. (check, outcome_text outcome) ∷ l) (all_counted os h.1))
all_counted (latency ∷ os) h = all_counted os h.1

-- A check of a known name that always judges.
abbrev Judges : {W : Type 0} → Check W → Type 0
Judges {W = W} c = (exists (λ name. str_eq name c.name) Names.all_checks ≡ true) × Accounts c

round-set :
    {W : Type 0} (c : Check W) (pc : PipelineContext W)
    → Accounted (c.run pc).0
    → is_set (round c pc).0.outcome ≡ true
unfolding round row
round-set c pc a = rw (a.row, row) a.accounted.judged

run_labels :
    {W : Type 0} (checks : List (Check W)) (pc : PipelineContext W)
    → All Judges checks
    → All IsLabel (run_checks true checks pc).2
unfolding run_checks observed
run_labels [] pc h = tt
run_labels (c ∷ cs) pc ((named, accounts), h) = elim (Bool-cases (is_fail (round c pc).0.outcome)) [
  | inl e ↦ rw (e, run_checks) (tt, (accepted c.name _ named (round-set c pc (accounts pc)), tt))
  | inr e ↦
      rw (e, run_checks)
        (tt, (accepted c.name _ named (round-set c pc (accounts pc)), run_labels cs _ h))
]

-- The check has one of the ten names.
abbrev IsNamed : {W : Type 0} → Check W → Type 0
IsNamed c = exists (λ name. str_eq name c.name) Names.all_checks ≡ true

ten-IsNamed : {W : Type 0} (lib : Libraries) (sv : Services W) → All IsNamed (ten_checks lib sv)
unfolding ten_checks response_integrity parse issuer_authenticity data_integrity revocation
    device_binding user_binding query_fulfilment combined_checks assemble_forward
ten-IsNamed lib sv =
    (refl, (refl, (refl, (refl, (refl, (refl, (refl, (refl, (refl, (refl, tt))))))))))

both :
    {W : Type 0} (checks : List (Check W))
    → All IsNamed checks
    → All Accounts checks
    → All Judges checks
both [] p q = tt
both (c ∷ cs) (p, ps) (q, qs) = ((p, q), both cs ps qs)

-- In every production run the recorder of `NewRecorder` accepts the name and the outcome of each
-- check that ends, and counts all of them in their order.
production-counters :
    {W : Type 0} (lib : Libraries) (sv : Services W) (pc : PipelineContext W)
    → counters new_recorder (run (production lib sv) pc).2 ≡ ended (run (production lib sv) pc).2
unfolding run production observed
production-counters lib sv pc = all_counted _ (
    All-append IsLabel (run_checks true (ten_checks lib sv) pc).2 (latency ∷ [])
      (run_labels (ten_checks lib sv) pc
        (both (ten_checks lib sv) (ten-IsNamed lib sv) (ten-Accounts lib sv)))
      (tt, tt))
