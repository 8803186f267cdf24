-- ===== src/Pipeline/Checks/Parse/Parsed.antt =====
-- Step 2 passes only presentations of the two formats, and starts each credential undeferred.
use eudi_verifier_core.Prelude.{
  none, some, List, [], ◌∷◌, ◌++◌, ◌≡◌, refl, ◌⊎◌, inl, inr, true, arith, All, All-append,
  Sum-cases,
}
use eudi_verifier_core.Libraries.{Libraries, Presentation, Format, sd_jwt, mdoc, other}
use eudi_verifier_core.Pipeline.Report.{CheckResult}
use eudi_verifier_core.Pipeline.Context.{Credential, new_credential}
use eudi_verifier_core.Pipeline.Engine.{is_fail, round}
use eudi_verifier_core.Pipeline.Engine.Chain.{Ensures}
use eudi_verifier_core.Pipeline.Checks.IssuerAuthenticity.Attribution.{IsParsed}
use eudi_verifier_core.Pipeline.Checks.IssuerAuthenticity.Verify.{IsKnown}
use eudi_verifier_core.Pipeline.Checks.Parse.{parse_as, parse_all, parse}

module _ (lib : Libraries) where
  parse_as-pres :
      (f : Format) (pres : Presentation) (c : Credential)
      → parse_as lib f pres ≡ inr c
      → IsKnown f × (c.pres ≡ pres) × (c.deferred_step ≡ "")
  unfolding parse_as new_credential
  parse_as-pres sd_jwt pres c h = ground arith
  parse_as-pres mdoc pres c h = ground arith
  parse_as-pres (other name) pres c h = cc

  parse_as-IsParsed :
      (pres : Presentation) (c : Credential) → parse_as lib pres.format pres ≡ inr c → IsParsed c
  parse_as-IsParsed pres c h =
      let (known, same, step) = parse_as-pres pres.format pres c h in (step, rw same known)

  parse_as-fails :
      (f : Format) (pres : Presentation) (r : CheckResult)
      → parse_as lib f pres ≡ inl r
      → is_fail r.outcome ≡ true
  unfolding parse_as
  parse_as-fails sd_jwt pres r h = ground arith
  parse_as-fails mdoc pres r h = ground arith
  parse_as-fails (other name) pres r h = ground arith

  -- Either all presentations parse, and so do the credentials made of them, or the result fails.
  parse_all-cases :
      (ps : List Presentation) (parsed : List Credential)
      → All IsParsed parsed
      → let (result, creds) = parse_all lib parsed ps in
        ((result ≡ none) × All IsParsed creds)
        ⊎ ((r : CheckResult) × (result ≡ some r) × (is_fail r.outcome ≡ true))
  unfolding parse_all
  parse_all-cases [] parsed p = inl (refl, p)
  parse_all-cases (pres ∷ ps) parsed p = elim (Sum-cases (parse_as lib pres.format pres)) [
    | inl (r, e) ↦ rw (e, parse_all) (inr (r, refl, parse_as-fails pres.format pres r e))
    | inr (c, e) ↦
        rw (e, parse_all)
          (parse_all-cases ps (parsed ++ c ∷ [])
            (All-append IsParsed parsed (c ∷ []) p (parse_as-IsParsed pres c e, tt)))
  ]

  pub parse-IsParsed :
      {W : Type 0}
      → Ensures {W = W} (λ pc. pc.credentials ≡ []) (parse lib) (λ pc. All IsParsed pc.credentials)
  unfolding parse round
  parse-IsParsed pc h e = elim (parse_all-cases pc.presentations pc.credentials (rw h tt)) [
    | inl (through, parsed) ↦ parsed
    | inr (r, same, fails) ↦ absurd (ground arith)
  ]
