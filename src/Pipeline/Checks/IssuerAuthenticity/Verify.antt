-- ===== src/Pipeline/Checks/IssuerAuthenticity/Verify.antt =====
-- The verification of one credential gives its evidence, and changes no more than it records.
use eudi_verifier_core.Prelude.{
  String, true, none, some, List, [], ◌∷◌, ◌≡◌, refl, inl, inr, arith, Time,
}
use eudi_verifier_core.Errors.{Result, ok, err, Result-cases}
use eudi_verifier_core.Libraries.{
  Libraries, Format, sd_jwt, mdoc, other, MdocRun, returns, asks, Key, ResolvedIssuer, Certificate,
  VerifiedDocument, VerifiedCredential,
}
use eudi_verifier_core.Pipeline.Trust.{resolve_issuer_for, signing_time_used, path_validation_time}
use eudi_verifier_core.Pipeline.Context.{PipelineContext, Credential}
use eudi_verifier_core.Pipeline.Checks.IssuerAuthenticity.{
  vct_from_query, claimed_iat, binding_required, same_signing_time, sd_jwt_input, verify_keyed,
  verify_sd_jwt, run_mdoc, one_document, verify_mdoc, verify_as, doctype_from_query,
  session_transcript,
}
use eudi_verifier_core.Pipeline.Checks.IssuerAuthenticity.Evidence.{
  setting, EvidenceAs, SdJwtEvidence, MdocEvidence, accepts, untrusted, trusted,
}

-- The fields that verification leaves alone.
abbrev pub Kept : Credential → Credential → Type 0
Kept c d =
    (d.pres ≡ c.pres)
    × (d.x5c ≡ c.x5c)
    × (d.iat ≡ c.iat)
    × (d.deferred_step ≡ c.deferred_step)
    × (d.deferred_err ≡ c.deferred_err)

-- A format that the pipeline can verify.
abbrev pub IsKnown : Format → Type 0
IsKnown sd_jwt = Unit
IsKnown mdoc = Unit
IsKnown (other name) = ⊥

module _ {W : Type 0} (lib : Libraries) (pc : PipelineContext W) where
  -- What `issuerTrust.ResolveIssuerKey` resolves a chain to.
  abbrev answer : String → List Certificate → Time → Result (Key × ResolvedIssuer)
  answer doctype chain signed =
      resolve_issuer_for lib pc.cred_trust chain doctype
        (path_validation_time pc.issuer_validity signed lib.now)

  verify_sd_jwt-Kept : (c : Credential) → Kept c (verify_sd_jwt lib pc c).1
  unfolding verify_sd_jwt
  verify_sd_jwt-Kept c = ground arith

  run_mdoc-Kept :
      (doctype : String) (run : MdocRun) (c : Credential) → Kept c (run_mdoc lib pc doctype run c).1
  unfolding run_mdoc
  run_mdoc-Kept doctype (returns r) c = (refl, refl, refl, refl, refl)
  run_mdoc-Kept doctype (asks chain signed next) c =
      elim (Result-cases (answer doctype chain signed)) [
        | inl (found, e) ↦
            rw (e, run_mdoc)
              (run_mdoc-Kept doctype (next (ok found.0))
                (record c { issuer_key = some found.0; issuer = found.1 }))
        | inr (x, e) ↦ rw (e, run_mdoc) (run_mdoc-Kept doctype (next (err x)) c)
      ]

  run_mdoc-Evidence :
      (doctype : String) (docs : List VerifiedDocument) (run : MdocRun) (c : Credential)
      → (run_mdoc lib pc doctype run c).0 ≡ ok docs
      → MdocEvidence lib (setting pc) doctype docs run
  unfolding run_mdoc
  run_mdoc-Evidence doctype docs (returns r) c h = accepts r h
  run_mdoc-Evidence doctype docs (asks chain signed next) c h =
      elim (Result-cases (answer doctype chain signed)) [
        | inl (found, e) ↦ trusted chain signed next found.0 found.1 e (
            run_mdoc-Evidence doctype docs (next (ok found.0))
              (record c { issuer_key = some found.0; issuer = found.1 }) (rw (e, run_mdoc) at h))
        | inr (x, e) ↦
            untrusted chain signed next x e
              (run_mdoc-Evidence doctype docs (next (err x)) c (rw (e, run_mdoc) at h))
      ]

  one_document-Kept :
      (r : Result (List VerifiedDocument)) (c d : Credential)
      → Kept c d
      → Kept c (one_document lib pc r d).1
  unfolding one_document
  one_document-Kept (err e) c d k = k
  one_document-Kept (ok []) c d k = k
  one_document-Kept (ok (doc ∷ [])) c d k = k
  one_document-Kept (ok (doc ∷ more ∷ docs)) c d k = k

  one_document-ok :
      (r : Result (List VerifiedDocument)) (d : Credential)
      → (one_document lib pc r d).0 ≡ none
      → (doc : VerifiedDocument) × (r ≡ ok (doc ∷ [])) × ((one_document lib pc r d).1.md ≡ some doc)
  unfolding one_document
  one_document-ok (err e) d h = cc
  one_document-ok (ok []) d h = cc
  one_document-ok (ok (doc ∷ [])) d h = (doc, refl, refl)
  one_document-ok (ok (doc ∷ more ∷ docs)) d h = cc

  verify_mdoc-Kept : (c : Credential) → Kept c (verify_mdoc lib pc c).1
  unfolding verify_mdoc
  verify_mdoc-Kept c = one_document-Kept _ c _ (run_mdoc-Kept _ _ c)

  pub verify_as-Kept : (f : Format) (c : Credential) → Kept c (verify_as lib pc f c).1
  unfolding verify_as
  verify_as-Kept sd_jwt c = verify_sd_jwt-Kept c
  verify_as-Kept mdoc c = verify_mdoc-Kept c
  verify_as-Kept (other name) c = (refl, refl, refl, refl, refl)

  same_signing_time-ok :
      (iat : Time) (vc : VerifiedCredential) (c : Credential)
      → (same_signing_time lib pc iat vc c).0 ≡ none
      → ((same_signing_time lib pc iat vc c).1.sd ≡ some vc)
        × (signing_time_used pc.issuer_validity iat ≡ true → vc.issued_at ≡ iat)
  unfolding same_signing_time
  same_signing_time-ok iat vc c h = ground arith

  verify_sd_jwt-ok :
      (c : Credential) (found : Key × ResolvedIssuer)
      → answer (vct_from_query pc.session.query c.pres.query_cred_id) c.x5c (claimed_iat c.iat)
        ≡ ok found
      → verify_sd_jwt lib pc c ≡ verify_keyed lib pc (claimed_iat c.iat) found c
  unfolding verify_sd_jwt
  verify_sd_jwt-ok c found e = rw (e, verify_sd_jwt)

  -- An SD-JWT that verifies without error has its evidence.
  verify_keyed-Evidence :
      (found : Key × ResolvedIssuer) (c : Credential)
      → answer (vct_from_query pc.session.query c.pres.query_cred_id) c.x5c (claimed_iat c.iat)
        ≡ ok found
      → (verify_keyed lib pc (claimed_iat c.iat) found c).0 ≡ none
      → (vc : VerifiedCredential) × ((verify_keyed lib pc (claimed_iat c.iat) found c).1.sd
          ≡ some vc)
        × SdJwtEvidence lib (setting pc) c.pres c.x5c c.iat vc
  unfolding binding_required verify_keyed
  verify_keyed-Evidence (key, issuer) c chained h =
      elim (Result-cases (lib.verify_sd_jwt (sd_jwt_input pc key c.pres))) [
        | inr (x, e) ↦ absurd (unfold verify_keyed same_signing_time in ground arith)
        | inl (vc, e) ↦
            let keyed : Credential = record c { issuer_key = some key; issuer = issuer } in
            let (stored, timely) =
              same_signing_time-ok (claimed_iat c.iat) vc keyed (rw (e, verify_keyed) at h) in
            (
              vc,
              rw (e, verify_keyed) stored,
              record {
                key = key;
                issuer = issuer;
                chained = chained;
                accepted = e;
                timely = timely;
              },
            )
      ]

  verify_sd_jwt-Evidence :
      (c : Credential)
      → (verify_sd_jwt lib pc c).0 ≡ none
      → (vc : VerifiedCredential) × ((verify_sd_jwt lib pc c).1.sd ≡ some vc)
        × SdJwtEvidence lib (setting pc) c.pres c.x5c c.iat vc
  verify_sd_jwt-Evidence c h =
      elim (Result-cases
        (answer (vct_from_query pc.session.query c.pres.query_cred_id) c.x5c (claimed_iat c.iat))) [
          | inr (x, e) ↦ absurd (unfold verify_sd_jwt in ground arith)
          | inl (found, e) ↦
              let step = verify_sd_jwt-ok c found e in
              let (vc, stored, evidence) = verify_keyed-Evidence found c e (rw step at h) in
              (vc, rw step stored, evidence)
        ]

  pub verify_mdoc-Evidence :
      (c : Credential)
      → (verify_mdoc lib pc c).0 ≡ none
      → EvidenceAs lib (setting pc) mdoc c.pres c.x5c c.iat c.sd (verify_mdoc lib pc c).1.md
  unfolding verify_mdoc
  verify_mdoc-Evidence c h =
      let doctype = doctype_from_query pc.session.query c.pres.query_cred_id in
      let run = lib.verify_mdoc c.pres.payload (session_transcript pc.origin c.pres) in
      let (r, asked) = run_mdoc lib pc doctype run c in
      let (doc, same, stored) = one_document-ok r asked h in
      (doc, stored, run_mdoc-Evidence doctype (doc ∷ []) run c same)

  -- A credential of either format that verifies without error has its evidence.
  pub verify_as-Evidence :
      (f : Format) (c : Credential)
      → IsKnown f
      → (verify_as lib pc f c).0 ≡ none
      → EvidenceAs lib
          (setting pc)
          f
          c.pres
          c.x5c
          c.iat
          (verify_as lib pc f c).1.sd
          (verify_as lib pc f c).1.md
  unfolding verify_as
  verify_as-Evidence sd_jwt c k h = verify_sd_jwt-Evidence c h
  verify_as-Evidence mdoc c k h = verify_mdoc-Evidence c h
  verify_as-Evidence (other name) c k h = absurd k
