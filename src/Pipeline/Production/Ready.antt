-- ===== src/Pipeline/Production/Ready.antt =====
-- What the query, the combination and the user's binding add to a context before step 10.
use eudi_verifier_core.Prelude.{true, false, List, [], ◌≡◌, arith, All, map}
use eudi_verifier_core.Libraries.{Libraries}
use eudi_verifier_core.Pipeline.Context.{PipelineContext, Credential}
use eudi_verifier_core.Pipeline.Engine.{is_fail, round}
use eudi_verifier_core.Pipeline.Engine.Chain.{Ensures}
use eudi_verifier_core.Pipeline.Checks.ResponseIntegrity.{response_integrity}
use eudi_verifier_core.Pipeline.Checks.IssuerAuthenticity.Evidence.{setting}
use eudi_verifier_core.Pipeline.Checks.UserBinding.Users.{IsAccepted}
use eudi_verifier_core.Pipeline.Checks.QueryFulfilment.{candidate, fulfilment, query_fulfilment}
use eudi_verifier_core.Pipeline.Checks.CombinedChecks.{first_conflict, combined_checks, combined}
use eudi_verifier_core.Pipeline.Checks.CombinedChecks.Distinct.{
  AllDiffer, first_conflict-AllDiffer_iff,
}

combined-AllDiffer :
    (creds : List Credential)
    → is_fail (combined (first_conflict creds)).outcome ≡ false
    → AllDiffer creds
unfolding combined
combined-AllDiffer creds e = (first_conflict-AllDiffer_iff creds).0 (ground arith)

module _ {W : Type 0} (lib : Libraries) where
  -- The context before step 10 of a run that ends verified.
  pub record IsReady (pc : PipelineContext W) : Type 0 where
    pub accepted : All (IsAccepted lib (setting pc)) pc.credentials
    pub fulfilled : (lib.match pc.session.query (map candidate pc.credentials)).satisfied ≡ true
    pub distinct : AllDiffer pc.credentials

  abbrev pub AllAccepted : PipelineContext W → Type 0
  AllAccepted pc = All (IsAccepted lib (setting pc)) pc.credentials

  pub response_integrity-fresh :
      Ensures {W = W}
        (λ pc. pc.credentials ≡ [])
        (response_integrity lib)
        (λ pc. pc.credentials ≡ [])
  unfolding response_integrity round
  response_integrity-fresh pc h e = ground arith

  fulfilment-satisfied :
      (pc : PipelineContext W)
      → is_fail (fulfilment (lib.match pc.session.query (map candidate pc.credentials))).outcome
        ≡ false
      → (lib.match pc.session.query (map candidate pc.credentials)).satisfied ≡ true
  unfolding fulfilment
  fulfilment-satisfied pc e = ground arith

  abbrev pub Fulfilled : PipelineContext W → Type 0
  Fulfilled pc =
      AllAccepted pc
      × ((lib.match pc.session.query (map candidate pc.credentials)).satisfied ≡ true)

  pub query_fulfilment-Fulfilled : Ensures AllAccepted (query_fulfilment lib) Fulfilled
  unfolding query_fulfilment round
  query_fulfilment-Fulfilled pc h e = (h, fulfilment-satisfied pc e)

  pub combined_checks-IsReady : Ensures Fulfilled combined_checks IsReady
  unfolding combined_checks round
  combined_checks-IsReady pc h e = record {
    accepted = h.0;
    fulfilled = h.1;
    distinct = combined-AllDiffer pc.credentials e;
  }
