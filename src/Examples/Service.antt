-- ===== src/Examples/Service.antt =====
-- A service that has started on servers without a state, and a response to it.
use eudi_verifier_core.Prelude.{
  true, false, [], ◌∷◌, ◌≡◌, inl, inr, refl, bytes, str_eq, Bool-cases,
}
use eudi_verifier_core.Errors.{ok}
use eudi_verifier_core.Policy.{defaults, parse_policy}
use eudi_verifier_core.Pipeline.Report.{Report, verified, new_builder}
use eudi_verifier_core.Pipeline.Trust.{parse_credential_trust}
use eudi_verifier_core.Pipeline.Context.{PipelineContext, new_context}
use eudi_verifier_core.Pipeline.Engine.{run, round, is_fail, run_checks}
use eudi_verifier_core.Pipeline.Engine.Rows.{run_checks-go}
use eudi_verifier_core.Pipeline.Checks.Revocation.{
  revocation, check_status, status_ref_of, ruling, is_revoked, is_unknown,
}
use eudi_verifier_core.Prelude.{each}
use eudi_verifier_core.Pipeline.Finalize.{finalize, keeps_session}
use eudi_verifier_core.Pipeline.Checks.AssembleForward.{assemble_forward}
use eudi_verifier_core.Pipeline.Production.{production}
use eudi_verifier_core.ValkeyStore.{found, save, load, consume_once, save_response_code}
use eudi_verifier_core.SessionDb
use eudi_verifier_core.SessionDb.{Pool, new_pg}
use eudi_verifier_core.Processor.{judge, process, prepared}
use eudi_verifier_core.Handoff.{new_queue, with_prefix, deliver}
use eudi_verifier_core.StatusCache.{record_ref}
use eudi_verifier_core.RespondTokens.{resolve}
use eudi_verifier_core.Wallet.{wallet_response}
use eudi_verifier_core.Wallet.Responses.{IsAccepted}
use eudi_verifier_core.App.{App}
use eudi_verifier_core.App.Init
use eudi_verifier_core.App.Init.{Outside, init, key_prefix}
use eudi_verifier_core.App.Init.Wired.{Steps, IsWired, init-IsWired}
use eudi_verifier_core.App.Serving.{services_of, processor_of, router_of}
use eudi_verifier_core.App.Serving.Delivered.{Delivery, wallet_response-Delivery}
use eudi_verifier_core.Examples.Wallet.{
  lib, session, session_row, started, opened, verified_pid, current_pid, bound_pid,
}
use eudi_verifier_core.Examples.Runs.{Passes, EndsVerified, run_with}
use eudi_verifier_core.Examples.Parts.{Memory, configuration, outside_of, running_of, handlers}

-- The run of its checks.
module _ {S : Type 0} (m : Memory S) (v : S) where
  revocation-Passes :
      Passes v
        (revocation lib (services_of handlers (running_of m)))
        (opened v (verified_pid ∷ []))
        (opened v (current_pid ∷ []))
  unfolding round revocation each check_status status_ref_of ruling is_revoked is_unknown
      services_of Init.assembled record_ref
  revocation-Passes rep = (refl, refl)

  forward_passes :
      (rep : Report)
      → is_fail
          (round
            (assemble_forward (services_of handlers (running_of m)))
            (opened v (bound_pid ∷ []) rep)).0.outcome
        ≡ false
  unfolding round assemble_forward finalize keeps_session services_of Init.assembled deliver
      new_queue with_prefix save
  forward_passes rep = refl

  forward_ends :
      EndsVerified v
        (assemble_forward (services_of handlers (running_of m)) ∷ [])
        (opened v (bound_pid ∷ []))
  unfolding run_checks verified
  forward_ends = record {
    ends = λ rep.
        rw
          (run_checks-go true (assemble_forward (services_of handlers (running_of m))) []
            (opened v (bound_pid ∷ []) rep) (forward_passes rep)).0
          refl;
  }

  verified_run :
      (run (production lib (services_of handlers (running_of m))) (started v)).0.outcome
      ≡ "verified"
  verified_run = run_with v (services_of handlers (running_of m)) revocation-Passes forward_ends

  prepared_start :
      prepared
        (processor_of handlers (running_of m))
        session
        (bytes "body")
        ""
        session_row
        defaults
        v
      ≡ started v
  unfolding prepared new_context new_builder processor_of Init.assembled
  prepared_start = refl

  judged :
      (pc : PipelineContext S)
      → (run (production lib (services_of handlers (running_of m))) pc).0.outcome ≡ "verified"
      → (judge (processor_of handlers (running_of m)) pc).0 ≡ ok ""
  unfolding judge processor_of Init.assembled new_pg SessionDb.set_status SessionDb.save_report
      SessionDb.call save_response_code
  judged pc h =
      let end = (run (production lib (services_of handlers (running_of m))) pc).1 in
      elim (Bool-cases (str_eq end.response_code "")) [
        | inl e ↦ elim (Bool-cases (str_eq end.meta.flow "same_device")) [
          | inl f ↦ rw (h, e, f) refl
          | inr f ↦ rw (h, e, f) refl
        ]
        | inr e ↦ elim (Bool-cases (str_eq end.meta.flow "same_device")) [
          | inl f ↦ rw (h, e, f) refl
          | inr f ↦ rw (h, e, f) refl
        ]
      ]

  pub answered :
      (process (processor_of handlers (running_of m)) session (bytes "body") "" v).0 ≡ ok ""
  unfolding process processor_of Init.assembled new_pg SessionDb.get SessionDb.call parse_policy
  answered = rw prepared_start (judged (started v) verified_run)

-- A server without a state.
abbrev pub W : Type 0
W = Unit {0}

abbrev memory : Memory W
memory = record {
  write = λ k value v. v;
  read = λ k v. found (bytes "s1");
  claim_key = λ k value v. (ok true, v);
  remove = λ ks v. v;
}

abbrev pub outside : Outside W W
outside = outside_of memory

abbrev pub running : App W W
running = running_of memory

pub starts : init outside configuration ≡ ok running
unfolding init parse_credential_trust
starts = refl

init-IsWired_example : Steps outside configuration running × IsWired outside configuration running
init-IsWired_example = init-IsWired outside configuration running starts

accepted_response :
    IsAccepted (wallet_response (router_of handlers running) "t" (bytes "body") "" tt).0
unfolding wallet_response router_of Init.assembled resolve consume_once load save
accepted_response = rw (answered memory tt) tt

wallet_response-Delivery_example :
    Delivery handlers running "t"
      (bytes "body")
      ""
      tt
      (with_prefix (key_prefix outside configuration) (new_queue configuration.handoff_ttl))
wallet_response-Delivery_example =
    wallet_response-Delivery outside configuration handlers running "t" (bytes "body") "" tt starts
      accepted_response
