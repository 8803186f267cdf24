-- ===== src/Examples/Runs.antt =====
-- Runs of the ten checks and of `Finalize`.
use eudi_verifier_core.Prelude.{true, false, none, [], ◌∷◌, ◌≡◌, refl, All, ◌↔◌, bytes, List}
use eudi_verifier_core.Claims.{nil, entry, leaf, node, Claims}
use eudi_verifier_core.Claims.Names.{SameNames, flatten_names, flatten_names-value_free}
use eudi_verifier_core.Pipeline.Names
use eudi_verifier_core.Pipeline.Report.{pass}
use eudi_verifier_core.Pipeline.Context.{PipelineContext, ResultCredential, Services}
use eudi_verifier_core.Pipeline.Engine.{run, round, is_fail}
use eudi_verifier_core.Pipeline.Engine.Rows.{Ran}
use eudi_verifier_core.Pipeline.Engine.{run_checks}
use eudi_verifier_core.Pipeline.Engine.Rows.{run_checks-go}
use eudi_verifier_core.Pipeline.Report.{Report, verified}
use eudi_verifier_core.Pipeline.Context.{Check, new_credential}
use eudi_verifier_core.Prelude.{each}
use eudi_verifier_core.Pipeline.Trust.{
  resolve_issuer_for, resolve_by_types, issuance, use_case_for, use_case_allowed,
  path_validation_time, signing_time_used,
}
use eudi_verifier_core.Pipeline.Finalize.{finalize, keeps_session}
use eudi_verifier_core.Pipeline.Checks.ResponseIntegrity.{response_integrity}
use eudi_verifier_core.Pipeline.Checks.Parse.{parse}
use eudi_verifier_core.Pipeline.Checks.IssuerAuthenticity.{
  issuer_authenticity, vct_from_query, binding_required,
}
use eudi_verifier_core.Pipeline.Checks.DataIntegrity.{data_integrity, find_deferred}
use eudi_verifier_core.Pipeline.Checks.Revocation.{
  revocation, check_status, status_ref_of, ruling, is_revoked, is_unknown,
}
use eudi_verifier_core.Pipeline.Checks.DeviceBinding.{device_binding}
use eudi_verifier_core.Pipeline.Checks.UserBinding.{user_binding}
use eudi_verifier_core.Pipeline.Checks.QueryFulfilment.{query_fulfilment}
use eudi_verifier_core.Pipeline.Checks.CombinedChecks.{combined_checks, first_conflict}
use eudi_verifier_core.Pipeline.Checks.CombinedChecks.Distinct.{
  AllDiffer, first_conflict-AllDiffer_iff,
}
use eudi_verifier_core.Pipeline.Finalize.Zeroed.{IsWiped, HasNoValue, finalize-IsWiped}
use eudi_verifier_core.Pipeline.Finalize.Disposal.{Call, Disposed, logged, finalize-Disposed}
use eudi_verifier_core.Pipeline.Checks.Revocation.Rulings.{IsClean, revocation-pass}
use eudi_verifier_core.Pipeline.Checks.AssembleForward.{assemble_forward, assembled}
use eudi_verifier_core.Pipeline.Production.{production, ten_checks}
use eudi_verifier_core.Pipeline.Production.Rows.{production-Ran}
use eudi_verifier_core.Pipeline.Production.Verified.{StandsOn, production-verified}
use eudi_verifier_core.Examples.Wallet.{
  lib, pid, willing, started, opened, parsed_pid, verified_pid, current_pid, bound_pid,
}

-- The claims of another holder of a PID.
abbrev other_person : Claims
other_person =
    entry "address" (node (entry "locality" (leaf (bytes "Tartu")) nil))
      (entry "family_name" (leaf (bytes "Saar")) nil)

-- From any state of the stores.
module _ {W : Type 0} (w : W) where
  -- A check that takes one context to the next, whatever the report holds.
  abbrev pub Passes : Check W → (Report → PipelineContext W) → (Report → PipelineContext W) → Type 0
  Passes c f g =
      (rep : Report)
      → (is_fail (round c (f rep)).0.outcome ≡ false)
        × ((round c (f rep)).1 ≡ g (round c (f rep)).1.report)

  pub record EndsVerified (cs : List (Check W)) (f : Report → PipelineContext W) : Type 0 where
    pub ends : (rep : Report) → (run_checks true cs (f rep)).0.outcome ≡ "verified"

  onward :
      (c : Check W) (cs : List (Check W)) (f g : Report → PipelineContext W)
      → Passes c f g
      → EndsVerified cs g
      → EndsVerified (c ∷ cs) f
  onward c cs f g passes rest = record {
    ends = λ rep.
        rw (run_checks-go true c cs (f rep) (passes rep).0).0 (rw (passes rep).1 (rest.ends _));
  }

  integrity_passes :
      (is_fail (round (response_integrity lib) (started w)).0.outcome ≡ false)
      × ((round (response_integrity lib) (started w)).1
          ≡ opened w [] (round (response_integrity lib) (started w)).1.report)
  unfolding round response_integrity
  integrity_passes = (refl, refl)

  parse-Passes : Passes (parse lib) (opened w []) (opened w (parsed_pid ∷ []))
  unfolding round parse new_credential
  parse-Passes rep = (refl, refl)

  authenticity-Passes :
      Passes (issuer_authenticity lib) (opened w (parsed_pid ∷ [])) (opened w (verified_pid ∷ []))
  unfolding round issuer_authenticity each resolve_issuer_for resolve_by_types issuance
      vct_from_query use_case_for use_case_allowed path_validation_time signing_time_used
  authenticity-Passes rep = (refl, refl)

  integrity_kept :
      Passes data_integrity (opened w (verified_pid ∷ [])) (opened w (verified_pid ∷ []))
  unfolding round data_integrity find_deferred
  integrity_kept rep = (refl, refl)

  revocation-Passes :
      Passes (revocation lib willing) (opened w (verified_pid ∷ [])) (opened w (current_pid ∷ []))
  unfolding round revocation each check_status status_ref_of ruling is_revoked is_unknown
  revocation-Passes rep = (refl, refl)

  binding-Passes : Passes device_binding (opened w (current_pid ∷ [])) (opened w (bound_pid ∷ []))
  unfolding round device_binding each binding_required
  binding-Passes rep = (refl, refl)

  user-Passes : Passes user_binding (opened w (bound_pid ∷ [])) (opened w (bound_pid ∷ []))
  unfolding round user_binding
  user-Passes rep = (refl, refl)

  query-Passes :
      Passes (query_fulfilment lib) (opened w (bound_pid ∷ [])) (opened w (bound_pid ∷ []))
  unfolding round query_fulfilment
  query-Passes rep = (refl, refl)

  combined-Passes : Passes combined_checks (opened w (bound_pid ∷ [])) (opened w (bound_pid ∷ []))
  unfolding round combined_checks
  combined-Passes rep = (refl, refl)

  forward_passes :
      (rep : Report)
      → is_fail (round (assemble_forward willing) (opened w (bound_pid ∷ []) rep)).0.outcome ≡ false
  unfolding round assemble_forward finalize keeps_session
  forward_passes rep = refl

  forward_ends : EndsVerified (assemble_forward willing ∷ []) (opened w (bound_pid ∷ []))
  unfolding run_checks verified
  forward_ends = record {
    ends = λ rep.
        rw
          (run_checks-go true (assemble_forward willing) [] (opened w (bound_pid ∷ []) rep)
            (forward_passes rep)).0
          refl;
  }

  -- A run with services under which step 5 and step 10 pass.
  pub run_with :
      (sv : Services W)
      → Passes (revocation lib sv) (opened w (verified_pid ∷ [])) (opened w (current_pid ∷ []))
      → EndsVerified (assemble_forward sv ∷ []) (opened w (bound_pid ∷ []))
      → (run (production lib sv) (started w)).0.outcome ≡ "verified"
  unfolding run production ten_checks
  run_with sv revoked forwarded =
      (onward (response_integrity lib) _ (λ rep. started w) (opened w []) (λ rep. integrity_passes)
          (onward (parse lib) _ (opened w []) (opened w (parsed_pid ∷ [])) parse-Passes (
            onward (issuer_authenticity lib) _ _ (opened w (verified_pid ∷ [])) authenticity-Passes
              (onward data_integrity _ _ (opened w (verified_pid ∷ [])) integrity_kept (
                onward (revocation lib sv) _ _ (opened w (current_pid ∷ [])) revoked (
                  onward device_binding _ _ (opened w (bound_pid ∷ [])) binding-Passes (
                    onward user_binding _ _ (opened w (bound_pid ∷ [])) user-Passes (
                      onward (query_fulfilment lib) _ _ (opened w (bound_pid ∷ [])) query-Passes (
                        onward combined_checks _ _ (opened w (bound_pid ∷ [])) combined-Passes
                          forwarded))))))))).ends
        (started w).report

  pub honest_run : (run (production lib willing) (started w)).0.outcome ≡ "verified"
  honest_run = run_with willing revocation-Passes forward_ends

production-verified_example :
    (ready : PipelineContext Unit) × StandsOn lib willing (started tt) ready
production-verified_example = production-verified lib willing (started tt) refl (honest_run tt)

production-Ran_example :
    let rep = (run (production lib willing) (started tt)).0 in
    Ran Names.all_checks rep.checks rep.outcome rep.fail_code
production-Ran_example = production-Ran lib willing (started tt) refl

revocation_row :
    (round (revocation lib willing) (opened tt (verified_pid ∷ []) (started tt).report)).0.outcome
    ≡ pass
unfolding round revocation each check_status status_ref_of ruling is_revoked is_unknown
revocation_row = refl

revocation-pass_example :
    let pc = opened tt (verified_pid ∷ []) (started tt).report in
    All (IsClean lib pc) (round (revocation lib willing) pc).1.credentials
revocation-pass_example =
    revocation-pass lib willing (opened tt (verified_pid ∷ []) (started tt).report) revocation_row

finalize-IsWiped_example :
    let pc = opened tt (verified_pid ∷ []) (started tt).report in
    IsWiped (finalize willing pc (assembled pc)).1
    × All
        (λ (r : ResultCredential). HasNoValue r.claims)
        (finalize willing pc (assembled pc)).2.credentials
finalize-IsWiped_example =
    finalize-IsWiped willing (opened tt (verified_pid ∷ []) (started tt).report)
      (assembled (opened tt (verified_pid ∷ []) (started tt).report))

finalize-Disposed_example :
    let pc = opened {W = List Call × Unit {0}} ([], tt) (verified_pid ∷ []) (started tt).report in
    Disposed willing pc
      (assembled pc)
      (finalize (logged willing) pc (assembled pc)).0
      (finalize (logged willing) pc (assembled pc)).1.world.0
finalize-Disposed_example =
    let pc = opened {W = List Call × Unit {0}} ([], tt) (verified_pid ∷ []) (started tt).report in
    finalize-Disposed willing pc (assembled pc) refl

first_conflict-AllDiffer_iff_example :
    (first_conflict (verified_pid ∷ bound_pid ∷ []) ≡ none)
    ↔ AllDiffer (verified_pid ∷ bound_pid ∷ [])
first_conflict-AllDiffer_iff_example = first_conflict-AllDiffer_iff (verified_pid ∷ bound_pid ∷ [])

flatten_names-value_free_example : flatten_names pid.claims "" ≡ flatten_names other_person ""
unfolding SameNames
flatten_names-value_free_example =
    flatten_names-value_free pid.claims other_person "" ((refl, (refl, tt, tt), (refl, tt, tt)))
