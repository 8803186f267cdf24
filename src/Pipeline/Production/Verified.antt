-- ===== src/Pipeline/Production/Verified.antt =====
-- What a verified report of the production engine stands on.
use eudi_verifier_core.Prelude.{refl, true, none, List, [], ◌∷◌, ◌≡◌, All, ap, ◌∙◌}
use eudi_verifier_core.Libraries.{Libraries}
use eudi_verifier_core.Pipeline.Context.{Services, PipelineContext, Check}
use eudi_verifier_core.Pipeline.Engine.{round, run_checks, run}
use eudi_verifier_core.Pipeline.Engine.Rows.{run_checks-go}
use eudi_verifier_core.Pipeline.Engine.Chain.{Reached, behind, begin, quiet, next}
use eudi_verifier_core.Pipeline.Checks.ResponseIntegrity.{response_integrity}
use eudi_verifier_core.Pipeline.Checks.Parse.Parsed.{parse-IsParsed}
use eudi_verifier_core.Pipeline.Checks.IssuerAuthenticity.Evidence.{setting}
use eudi_verifier_core.Pipeline.Checks.IssuerAuthenticity.Attribution.{
  IsParsed, IsJudged, issuer_authenticity-IsJudged,
}
use eudi_verifier_core.Pipeline.Checks.DataIntegrity.Undeferred.{IsSound, data_integrity-IsSound}
use eudi_verifier_core.Pipeline.Checks.Revocation.Rulings.{revocation-IsSound}
use eudi_verifier_core.Pipeline.Checks.DeviceBinding.Bound.{IsBound, device_binding-IsBound}
use eudi_verifier_core.Pipeline.Checks.UserBinding.Users.{user_binding-IsAccepted}
use eudi_verifier_core.Pipeline.Checks.QueryFulfilment.{query_fulfilment}
use eudi_verifier_core.Pipeline.Checks.CombinedChecks.{combined_checks}
use eudi_verifier_core.Pipeline.Checks.AssembleForward.{assemble_forward}
use eudi_verifier_core.Pipeline.Checks.AssembleForward.Delivery.{
  forwarded, assemble_forward-delivered, world-assemble_forward,
}
use eudi_verifier_core.Pipeline.Checks.Parse.{parse}
use eudi_verifier_core.Pipeline.Checks.IssuerAuthenticity.{issuer_authenticity}
use eudi_verifier_core.Pipeline.Checks.DataIntegrity.{data_integrity}
use eudi_verifier_core.Pipeline.Checks.Revocation.{revocation}
use eudi_verifier_core.Pipeline.Checks.DeviceBinding.{device_binding}
use eudi_verifier_core.Pipeline.Checks.UserBinding.{user_binding}
use eudi_verifier_core.Pipeline.Production.{ten_checks, production}
use eudi_verifier_core.Pipeline.Production.Statuses.{
  IsKept, response_integrity-IsKept, IsRuled, IsPending, revocation-IsPending,
  device_binding-IsPending, accepted-IsRuled,
}
use eudi_verifier_core.Pipeline.Production.Ready.{
  IsReady, AllAccepted, Fulfilled, response_integrity-fresh, query_fulfilment-Fulfilled,
  combined_checks-IsReady,
}

module _ {W : Type 0} (lib : Libraries) where
  module _ (sv : Services W) where
    four_checks : List (Check W)
    four_checks = response_integrity lib ∷ parse lib ∷ issuer_authenticity lib ∷ data_integrity ∷ []

    -- The nine checks in front of step 10, in the order of the specification.
    abbrev pub nine_checks : List (Check W)
    nine_checks =
        response_integrity lib
        ∷ parse lib
        ∷ issuer_authenticity lib
        ∷ data_integrity
        ∷ revocation lib sv
        ∷ device_binding
        ∷ user_binding
        ∷ query_fulfilment lib
        ∷ combined_checks
        ∷ []

    -- The run of the engine from `start` ends verified; `ready` is the context that its first nine
    -- checks leave, and step 10 delivers from it.
    pub record StandsOn (start : PipelineContext W) (ready : PipelineContext W) : Type 0 where
      pub verified : (run (production lib sv) start).0.outcome ≡ "verified"
      pub behind_nine : ready ≡ behind nine_checks start
      pub kept : IsKept start ready
      pub checked : IsReady lib ready
      pub ruled : All (IsRuled lib start) ready.credentials
      pub delivered : (forwarded sv ready).0 ≡ none
      pub world_after : (run (production lib sv) start).1.world ≡ (forwarded sv ready).1.world

    module _ (start : PipelineContext W) (fresh : start.credentials ≡ [])
        (v : (run_checks true (ten_checks lib sv) start).0.outcome ≡ "verified") where
      first_four :
          Reached true
            (ten_checks lib sv)
            start
            (behind four_checks start)
            (λ pc. All (IsSound lib (setting pc)) pc.credentials)
            (revocation lib sv
              ∷ device_binding
              ∷ user_binding
              ∷ query_fulfilment lib
              ∷ combined_checks
              ∷ assemble_forward sv
              ∷ [])
      unfolding ten_checks round four_checks
      first_four =
          let r1 =
            next (λ pc. pc.credentials ≡ []) (begin (λ pc. pc.credentials ≡ []) fresh v)
              (response_integrity-fresh lib) in
          let r2 = next (λ pc. All IsParsed pc.credentials) r1 (parse-IsParsed lib) in
          let r3 =
            next (λ pc. All (IsJudged lib (setting pc)) pc.credentials) r2
              (issuer_authenticity-IsJudged lib) in
          next (λ pc. All (IsSound lib (setting pc)) pc.credentials) r3 (data_integrity-IsSound lib)

      -- Nine checks of a verified run establish what the tenth delivers.
      before_last :
          Reached true
            (ten_checks lib sv)
            start
            (behind nine_checks start)
            (IsReady lib)
            (assemble_forward sv ∷ [])
      unfolding round four_checks
      before_last =
          let r5 =
            next (λ pc. All (IsSound lib (setting pc)) pc.credentials) first_four
              (revocation-IsSound lib sv) in
          let r6 =
            next (λ pc. All (IsBound lib (setting pc)) pc.credentials) r5
              (device_binding-IsBound lib) in
          let r7 = next (AllAccepted lib) r6 (user_binding-IsAccepted lib) in
          let r8 = next (Fulfilled lib) r7 (query_fulfilment-Fulfilled lib) in
          next (IsReady lib) r8 (combined_checks-IsReady lib)

      four-IsKept : IsKept start (behind four_checks start)
      unfolding round four_checks parse issuer_authenticity data_integrity
      four-IsKept =
          let k = response_integrity-IsKept lib start in
          record {
            session_id = k.session_id;
            meta = k.meta;
            origin = k.origin;
            policy = k.policy;
            cred_trust = k.cred_trust;
            issuer_validity = k.issuer_validity;
          }

      nine-IsKept : IsKept start (behind nine_checks start)
      unfolding round four_checks revocation device_binding user_binding query_fulfilment
          combined_checks
      nine-IsKept =
          let k = four-IsKept in
          record {
            session_id = k.session_id;
            meta = k.meta;
            origin = k.origin;
            policy = k.policy;
            cred_trust = k.cred_trust;
            issuer_validity = k.issuer_validity;
          }

      ready-IsPending : All (IsPending lib start) (behind nine_checks start).credentials
      unfolding round four_checks user_binding query_fulfilment combined_checks
      ready-IsPending =
          device_binding-IsPending lib start
            (round (revocation lib sv) (behind four_checks start)).1
            (revocation-IsPending lib start (behind four_checks start) four-IsKept.policy
              four-IsKept.cred_trust sv (quiet first_four))

      end_world :
          (run_checks true (ten_checks lib sv) start).1.world
          ≡ (forwarded sv (behind nine_checks start)).1.world
      unfolding run_checks round
      end_world =
          let ready = behind nine_checks start in
          let row = quiet before_last in
          ap (λ (pc : PipelineContext W). pc.world)
            (before_last.same_context ∙ (run_checks-go true (assemble_forward sv) [] ready row).1)
          ∙ world-assemble_forward sv ready

  -- If the production engine, started on a context that holds no credential yet, reports
  -- "verified", then step 10 ran on the context `ready` that the first nine checks leave of the
  -- start, of which the client's policy, the trust map, the row, the origin and the session's id are
  -- unchanged, and in `ready`: no credential's failure was deferred; each was accepted by its format
  -- library for this session, under an issuer key that the trust map resolved; each is bound to its
  -- holder (an mdoc, or an SD-JWT of which a key binding was required); each names no status list,
  -- or the status checker was asked for its reference under the client's policy and answered that it
  -- is neither revoked nor suspended, nor unknown under a policy that fails closed, or that the check
  -- was skipped, and the recorded status, which is that answer, is neither revoked nor suspended; the
  -- query is satisfied; and any two credentials that answer different queries carry different
  -- artifacts. The delivery and the disposal of the session from `ready` returned no error, and the
  -- run ends in the state that they left.
  pub production-verified :
      (sv : Services W) (start : PipelineContext W)
      → start.credentials ≡ []
      → (run (production lib sv) start).0.outcome ≡ "verified"
      → (ready : PipelineContext W) × StandsOn sv start ready
  unfolding production run
  production-verified sv start fresh v =
      let r = before_last sv start fresh v in
      let ready = behind (nine_checks sv) start in
      (
        ready,
        record {
          verified = v;
          behind_nine = refl;
          kept = nine-IsKept sv start fresh v;
          checked = r.holds;
          ruled =
              accepted-IsRuled lib start (setting ready) ready.credentials r.holds.accepted
                (ready-IsPending sv start fresh v);
          delivered = assemble_forward-delivered sv ready (quiet r);
          world_after = end_world sv start fresh v;
        },
      )
