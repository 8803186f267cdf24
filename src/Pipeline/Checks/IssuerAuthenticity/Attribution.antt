-- ===== src/Pipeline/Checks/IssuerAuthenticity/Attribution.antt =====
-- Step 3 as a whole: after it passes, a credential has its evidence, or an error that is deferred to
-- step 4 or step 6.
use eudi_verifier_core.Prelude.{
  Option, none, some, ◌≡◌, refl, true, All, each-All_of, each-result, ◌⊎◌, inl, inr, arith, ◌∙◌,
}
use eudi_verifier_core.Errors.{GoError}
use eudi_verifier_core.Libraries.{Libraries}
use eudi_verifier_core.Pipeline.Names
use eudi_verifier_core.Pipeline.Classify.{classify_format_error}
use eudi_verifier_core.Pipeline.Report.{CheckResult}
use eudi_verifier_core.Pipeline.Engine.{is_fail, round}
use eudi_verifier_core.Pipeline.Engine.Chain.{Ensures, no_result}
use eudi_verifier_core.Pipeline.Context.{PipelineContext, Credential}
use eudi_verifier_core.Pipeline.Checks.IssuerAuthenticity.{
  verify_as, attribute, authenticate, verdict, issuer_authenticity,
}
use eudi_verifier_core.Pipeline.Checks.IssuerAuthenticity.Evidence.{setting, Setting, Evidence}
use eudi_verifier_core.Pipeline.Checks.IssuerAuthenticity.Verify.{
  IsKnown, verify_as-Kept, verify_as-Evidence,
}

-- The four steps that an error of a format library is attributed to.
pub classify_format_error-steps :
    (e : GoError)
    → let step = (classify_format_error e).0 in
      (step ≡ Names.parse)
      ⊎ (step ≡ Names.data_integrity)
      ⊎ (step ≡ Names.device_binding)
      ⊎ (step ≡ Names.issuer_authenticity)
unfolding classify_format_error
classify_format_error-steps e = ground arith

-- A credential that step 2 made.
abbrev pub IsParsed : Credential → Type 0
IsParsed c = (c.deferred_step ≡ "") × IsKnown c.pres.format

-- A credential behind step 3.
abbrev pub IsJudged : Libraries → Setting → Credential → Type 0
IsJudged lib s c =
    ((c.deferred_step ≡ "") × Evidence lib s c)
    ⊎ ((c.deferred_step ≡ Names.data_integrity) ⊎ (c.deferred_step ≡ Names.device_binding))

module _ {W : Type 0} (lib : Libraries) (pc : PipelineContext W) where
  attribute-IsJudged :
      (o : Option GoError) (c : Credential)
      → (o ≡ none → (c.deferred_step ≡ "") × Evidence lib (setting pc) c)
      → (attribute lib pc o c).0 ≡ none
      → IsJudged lib (setting pc) (attribute lib pc o c).2
  unfolding attribute
  attribute-IsJudged none c v h = inl (v refl)
  attribute-IsJudged (some e) c v h = elim (classify_format_error-steps e) [
    | inl is_parse ↦ cc (rw is_parse at h)
    | inr (inl is_data) ↦ rw is_data (inr (inl refl))
    | inr (inr (inl is_device)) ↦ rw is_device (inr (inr refl))
    | inr (inr (inr is_issuer)) ↦ cc (rw is_issuer at h)
  ]

  attribute-fails :
      (o : Option GoError) (c : Credential) (r : CheckResult)
      → (attribute lib pc o c).0 ≡ some r
      → is_fail r.outcome ≡ true
  unfolding attribute
  attribute-fails o c r h = ground arith

  verify_as-checked :
      (c : Credential)
      → IsParsed c
      → let (failed, verified) = verify_as lib pc c.pres.format c in
        failed ≡ none → (verified.deferred_step ≡ "") × Evidence lib (setting pc) verified
  verify_as-checked c p h =
      let (pres, x5c, iat, step, e) = verify_as-Kept lib pc c.pres.format c in
      (step ∙ p.0, rw (pres, x5c, iat) (verify_as-Evidence lib pc c.pres.format c p.1 h))

  -- A round of step 3 that does not fail leaves the credential with its evidence, or with an error
  -- that step 4 or step 6 reports.
  pub authenticate-IsJudged :
      (s : Unit {0}) (c : Credential)
      → IsParsed c
      → (authenticate lib pc s c).0 ≡ none
      → IsJudged lib (setting pc) (authenticate lib pc s c).2
  unfolding authenticate
  authenticate-IsJudged s c p h =
      let (failed, verified) = verify_as lib pc c.pres.format c in
      attribute-IsJudged failed verified (verify_as-checked c p) h

  authenticate-fails :
      (s : Unit {0}) (c : Credential) (r : CheckResult)
      → (authenticate lib pc s c).0 ≡ some r
      → is_fail r.outcome ≡ true
  unfolding authenticate
  authenticate-fails s c r h =
      let (failed, verified) = verify_as lib pc c.pres.format c in
      attribute-fails failed verified r h

pub issuer_authenticity-IsJudged :
    {W : Type 0} (lib : Libraries)
    → Ensures {W = W}
        (λ pc. All IsParsed pc.credentials)
        (issuer_authenticity lib)
        (λ pc. All (IsJudged lib (setting pc)) pc.credentials)
unfolding issuer_authenticity round verdict
issuer_authenticity-IsJudged lib pc h e =
    each-All_of (authenticate lib pc) IsParsed (IsJudged lib (setting pc))
      (authenticate-IsJudged lib pc) tt pc.credentials h
      (no_result _ verdict (λ r. refl)
        (each-result (authenticate lib pc) (λ r. is_fail r.outcome ≡ true)
          (authenticate-fails lib pc) tt pc.credentials)
        e)
