-- ===== src/Metrics.antt =====
-- The metric labels of a run: the recorder of internal/obs/metrics.go.
pub mod Gauges
pub mod Labels
use eudi_verifier_core.Prelude.{
  String, Bool, true, false, Option, none, some, List, [], ◌∷◌, ◌++◌, ◌||◌, not, bytes, quote,
  str_eq, exists, is_none, if◌then◌else◌,
}
use eudi_verifier_core.Errors.{GoError, plain}
use eudi_verifier_core.Pipeline.Names.{all_checks}
use eudi_verifier_core.Pipeline.Report.{Outcome, unset, pass, fail, skipped}
use eudi_verifier_core.Pipeline.Engine.{Observation, started, done, latency}

-- `Recorder`: the check names that it accepts.
pub record Recorder : Type 0 where
  pub check_names : List String

-- `NewRecorder`
unfoldable pub new_recorder : Recorder
new_recorder = record { check_names = all_checks }

-- `string(outcome)`
abbrev pub outcome_text : Outcome → String
outcome_text unset = ""
outcome_text pass = "pass"
outcome_text fail = "fail"
outcome_text skipped = "skipped"

-- `Recorder.validate`
unfoldable pub validate : Recorder → (check outcome : String) → Option GoError
validate r check outcome =
    if not (exists (λ name. str_eq name check) r.check_names)
    then some (plain (bytes "obs: " ++ (quote check ++ bytes " is not a pipeline check")))
    else if str_eq outcome "pass" || (str_eq outcome "fail" || str_eq outcome "skipped")
    then none
    else some (plain (bytes "obs: " ++ (quote outcome ++ bytes " is not an outcome")))

-- The labels of the counter that the end of one check increments, if it does.
counted : Recorder → Observation → List (String × String)
unfolding validate
counted r (started check) = []
counted r (done check outcome) =
    if is_none (validate r check (outcome_text outcome))
    then (check, outcome_text outcome) ∷ []
    else []
counted r latency = []

-- All increments of a run, in order.
unfoldable pub counters : Recorder → List Observation → List (String × String)
unfolding counted
counters r [] = []
counters r (o ∷ rest) = counted r o ++ counters r rest
