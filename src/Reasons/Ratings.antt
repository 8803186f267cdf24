-- ===== src/Reasons/Ratings.antt =====
-- The code of a failed run, and its rating.
use eudi_verifier_core.Prelude.{
  String, Bool, true, false, Option, none, some, List, [], ◌∷◌, ◌≡◌, inl, inr, refl, sym,
  Bool-cases, Option-cases, All, each, each-result,
}
use eudi_verifier_core.Errors.{GoError, Result, ok, err, Result-cases}
use eudi_verifier_core.Libraries.{
  Libraries, Flow, same_device, cross_device, dcapi, Session, Presentation,
}
use eudi_verifier_core.Pipeline.Report.{CheckResult, passed, failed, verified}
use eudi_verifier_core.Pipeline.Context.{Services, PipelineContext, Check, Credential}
use eudi_verifier_core.Pipeline.Engine.{is_fail, round, row, run_checks, run}
use eudi_verifier_core.Pipeline.Engine.Rows.{run_checks-stop, run_checks-go}
use eudi_verifier_core.Pipeline.Engine.Chain.{not-verified}
use eudi_verifier_core.Pipeline.Production.{ten_checks, production}
use eudi_verifier_core.Pipeline.Checks.ResponseIntegrity.{
  response_integrity, decrypt, dcapi_response, redirect_response, refused,
}
use eudi_verifier_core.Pipeline.Checks.Parse
use eudi_verifier_core.Pipeline.Checks.Parse.{parse, parse_all}
use eudi_verifier_core.Pipeline.Checks.IssuerAuthenticity
use eudi_verifier_core.Pipeline.Checks.IssuerAuthenticity.{issuer_authenticity, authenticate}
use eudi_verifier_core.Pipeline.Checks.DataIntegrity.{data_integrity}
use eudi_verifier_core.Pipeline.Checks.Revocation
use eudi_verifier_core.Pipeline.Checks.Revocation.{revocation, check_status}
use eudi_verifier_core.Pipeline.Checks.DeviceBinding
use eudi_verifier_core.Pipeline.Checks.DeviceBinding.{device_binding, bind}
use eudi_verifier_core.Pipeline.Checks.UserBinding.{user_binding}
use eudi_verifier_core.Pipeline.Checks.QueryFulfilment.{query_fulfilment}
use eudi_verifier_core.Pipeline.Checks.CombinedChecks.{combined_checks, first_conflict}
use eudi_verifier_core.Pipeline.Checks.AssembleForward.{assemble_forward}
use eudi_verifier_core.Reasons.Registry.{IsRated, known-IsRated}
use eudi_verifier_core.Reasons.Codes.{
  is_set, is_known, IsAccounted, fails_known, passes, classify_oid4vp-known, integral, users,
  matched, apart, forwarded,
}
use eudi_verifier_core.Reasons.Rows.{
  OneIs, goes_on, ends, one_result, bound, checked, parsed_all, authenticated,
}

-- Each result of a check is a row that is accounted for.
pub record Accounted (o : Result CheckResult) : Type 0 where
  pub r : CheckResult
  pub row : o ≡ ok r
  pub accounted : IsAccounted r

account : (r : CheckResult) → IsAccounted r → Accounted (ok r)
account r a = record { r = r; row = refl; accounted = a }

abbrev pub Accounts : {W : Type 0} → Check W → Type 0
Accounts {W = W} c = (pc : PipelineContext W) → Accounted (c.run pc).0

-- A loop of rounds that are accounted for.
looped :
    {S : Type 0} (f : S → Credential → Option CheckResult × S × Credential)
    → ((s : S) (c : Credential) → OneIs (f s c).0)
    → (s : S) (creds : List Credential) → OneIs (each f s creds).0
looped f step s creds = elim (Option-cases (each f s creds).0) [
  | inl e ↦ rw e goes_on
  | inr (r, e) ↦
      rw e (ends (each-result f IsAccounted (λ t c q h. one_result _ q (step t c) h) s creds r e))
]

parse_verdict :
    (lib : Libraries) (o : Option CheckResult) (creds : List Credential)
    → OneIs o
    → IsAccounted (Parse.verdict lib o creds)
unfolding Parse.verdict is_known is_set
parse_verdict lib none [] x = fails_known "err:presentation:invalid-response" _ refl
parse_verdict lib none (cred ∷ creds) x = passes _ refl refl
parse_verdict lib (some r) creds (ends a) = a

issuer_verdict : (o : Option CheckResult) → OneIs o → IsAccounted (IssuerAuthenticity.verdict o)
unfolding IssuerAuthenticity.verdict is_set
issuer_verdict none x = passes _ refl refl
issuer_verdict (some r) (ends a) = a

revocation_verdict :
    (o : Option CheckResult) (any : Bool) → OneIs o → IsAccounted (Revocation.verdict o any)
unfolding Revocation.verdict is_set
revocation_verdict none true x = passes _ refl refl
revocation_verdict none false x = passes _ refl refl
revocation_verdict (some r) any (ends a) = a

device_verdict :
    (o : Option CheckResult) (any : Bool) → OneIs o → IsAccounted (DeviceBinding.verdict o any)
unfolding DeviceBinding.verdict is_set
device_verdict none true x = passes _ refl refl
device_verdict none false x = passes _ refl refl
device_verdict (some r) any (ends a) = a

module _ {W : Type 0} (lib : Libraries) (sv : Services W) where
  refused-Accounted : (e : GoError) (pc : PipelineContext W) → Accounted (refused lib e pc).0
  unfolding refused
  refused-Accounted e pc = account _ (fails_known _ _ (classify_oid4vp-known e))

  redirect_response-Accounted :
      (sess : Session) (x : Result (List Presentation × String)) (pc : PipelineContext W)
      → Accounted (redirect_response lib sess x pc).0
  unfolding redirect_response is_set
  redirect_response-Accounted sess (err e) pc = refused-Accounted e (record pc { session = sess })
  redirect_response-Accounted sess (ok (pres, code)) pc = account _ (passes passed refl refl)

  dcapi_response-Accounted : (pc : PipelineContext W) → Accounted (dcapi_response lib pc).0
  unfolding dcapi_response is_set
  dcapi_response-Accounted pc =
      elim (Result-cases (lib.process_dcapi_response pc.session pc.origin pc.raw_body)) [
        | inr (e, h) ↦ rw (h, dcapi_response) (refused-Accounted e pc)
        | inl (pres, h) ↦ rw (h, dcapi_response) (account _ (passes passed refl refl))
      ]

  decrypt-Accounted : (f : Flow) (pc : PipelineContext W) → Accounted (decrypt lib f pc).0
  unfolding decrypt
  decrypt-Accounted dcapi pc = dcapi_response-Accounted pc
  decrypt-Accounted same_device pc = redirect_response-Accounted _ _ pc
  decrypt-Accounted cross_device pc = redirect_response-Accounted _ _ pc

  response_integrity-Accounts : Accounts (response_integrity {W = W} lib)
  unfolding response_integrity
  response_integrity-Accounts pc = decrypt-Accounted pc.session.flow pc

  pub ten-Accounts : All Accounts (ten_checks lib sv)
  unfolding ten_checks parse issuer_authenticity data_integrity revocation device_binding
      user_binding query_fulfilment combined_checks assemble_forward
  ten-Accounts = (
    response_integrity-Accounts,
    (
      (λ pc. account _ (parse_verdict lib _ _ (parsed_all lib pc.credentials pc.presentations))),
      (
        (λ pc. account _ (
            issuer_verdict _
              (looped (authenticate lib pc) (authenticated lib pc) tt pc.credentials))),
        (
          (λ pc. account _ (integral pc.credentials)),
          (
            (λ pc. account _ (
                revocation_verdict _ _ (
                  looped (check_status lib sv pc) (checked lib sv pc) (pc.world, false)
                    pc.credentials))),
            (
              (λ pc.
                  account _
                    (device_verdict _ _ (looped (bind pc) (bound pc) false pc.credentials))),
              (
                (λ pc. account _ (users pc.credentials)),
                (
                  (λ pc. account _ (matched _)),
                  (
                    (λ pc. account _ (apart (first_conflict pc.credentials))),
                    ((λ pc. account _ (forwarded _)), tt),
                  ),
                ),
              ),
            ),
          ),
        ),
      ),
    ),
  )

-- A check that is accounted for, in the engine's round.
rounded :
    {W : Type 0} (c : Check W) (pc : PipelineContext W)
    → Accounted (c.run pc).0
    → is_fail (round c pc).0.outcome ≡ true
    → is_known (round c pc).0.code ≡ true
unfolding round row
rounded c pc a h = rw (a.row, row) (a.accounted.accounts (rw (a.row, round, row) at h))

run_known :
    {W : Type 0} (recorded : Bool) (checks : List (Check W)) (pc : PipelineContext W)
    → All Accounts checks
    → (run_checks recorded checks pc).0.outcome ≡ "failed"
    → is_known (run_checks recorded checks pc).0.fail_code ≡ true
unfolding failed run_checks verified
run_known recorded [] pc a h = absurd (not-verified (sym h))
run_known recorded (c ∷ cs) pc a h = elim (Bool-cases (is_fail (round c pc).0.outcome)) [
  | inl e ↦ rw (run_checks-stop recorded c cs pc e) (rounded c pc (a.0 pc) e)
  | inr e ↦
      let (same, more) = run_checks-go recorded c cs pc e in
      rw same (run_known recorded cs (round c pc).1 a.1 (rw same at h))
]

-- Every production run whose report says "failed" has a fail code whose status is pinned, or whose
-- reason is among those that the service registers.
pub production-IsRated :
    {W : Type 0} (lib : Libraries) (sv : Services W) (pc : PipelineContext W)
    → (run (production lib sv) pc).0.outcome ≡ "failed"
    → IsRated (run (production lib sv) pc).0.fail_code
unfolding run production
production-IsRated lib sv pc h =
    known-IsRated _ (run_known true (ten_checks lib sv) pc (ten-Accounts lib sv) h)
