-- ===== src/Pipeline/Checks/IssuerAuthenticity.antt =====
-- Step 3: internal/pipeline/check_issuer_authenticity.go.
pub mod Evidence
pub mod Verify
pub mod Attribution
use eudi_verifier_core.Prelude.{
  String, Bool, true, Option, none, some, List, [], ◌∷◌, ◌++◌, ◌&&◌, ◌||◌, not, bytes, Time,
  text_append, str_eq, ◌==◌, if◌then◌else◌, each, decimal, length,
}
use eudi_verifier_core.Errors.{GoError, Sentinel, Result, ok, err, wrap}
use eudi_verifier_core.Policy.{require_device_binding_sdjwt}
use eudi_verifier_core.Libraries.{
  Libraries, Presentation, CredentialQuery, QueryMeta, Format, sd_jwt, mdoc, other,
  VerifiedCredential, VerifiedDocument, Key, ResolvedIssuer, SdJwtInput, SessionTranscript,
  dcapi_handover, handover, MdocRun, returns, asks,
}
use eudi_verifier_core.Pipeline.Names
use eudi_verifier_core.Pipeline.Report.{CheckResult, passed, failure}
use eudi_verifier_core.Pipeline.Classify.{classify_format_error, safe_detail}
use eudi_verifier_core.Pipeline.Trust.{resolve_issuer_for, path_validation_time, signing_time_used}
use eudi_verifier_core.Pipeline.Context.{PipelineContext, Check, Credential}

-- The first query of this id that lists a `vct`.
first_vct : Option QueryMeta → Option String
first_vct none = none
first_vct (some m) = elim m.vct_values [ [] ↦ none | vct ∷ rest ↦ some vct ]

unfoldable pub vct_from_query : List CredentialQuery → String → String
unfolding first_vct
vct_from_query [] id = ""
vct_from_query (q ∷ qs) id =
    let rest = vct_from_query qs id in
    if str_eq q.id id then elim (first_vct q.meta) [ some vct ↦ vct | none ↦ rest ] else rest

unfoldable pub doctype_from_query : List CredentialQuery → String → String
doctype_from_query [] id = ""
doctype_from_query (q ∷ qs) id =
    let rest = doctype_from_query qs id in
    if str_eq q.id id then elim q.meta [ some m ↦ m.doctype_value | none ↦ rest ] else rest

unfoldable pub query_requires_binding : List CredentialQuery → String → Bool
query_requires_binding [] id = true
query_requires_binding (q ∷ qs) id =
    let rest = query_requires_binding qs id in
    if str_eq q.id id then q.holder_binding_required else rest

unfoldable pub expected_kb_audience : String → Presentation → String
expected_kb_audience origin pres =
    if not (str_eq origin "") then text_append "origin:" origin else pres.client_id

-- The transcript that a device signature covers.
unfoldable pub session_transcript : String → Presentation → SessionTranscript
session_transcript origin pres =
    if not (str_eq origin "")
    then dcapi_handover origin pres.nonce pres.jwk_thumbprint
    else handover pres.client_id pres.nonce pres.jwk_thumbprint pres.response_uri

-- `if cred.IAT != nil { claimedIAT = *cred.IAT }`
unfoldable pub claimed_iat : Option Time → Time
claimed_iat none = 0
claimed_iat (some t) = t

module _ {W : Type 0} where
  -- Whether a key binding is required of the SD-JWT that answers a query.
  unfoldable pub binding_required : PipelineContext W → String → Bool
  unfolding query_requires_binding
  binding_required pc id =
      require_device_binding_sdjwt pc.policy && query_requires_binding pc.session.query id

  abbrev pub sd_jwt_input : PipelineContext W → Key → Presentation → SdJwtInput
  sd_jwt_input pc key pres = record {
    presentation = pres.payload;
    issuer_key = key;
    expected_aud = expected_kb_audience pc.origin pres;
    expected_nonce = pres.nonce;
    require_kb = binding_required pc pres.query_cred_id;
  }

module _ {W : Type 0} (lib : Libraries) (pc : PipelineContext W) where
  -- The second half of `verifySDJWT`, after the library has verified the credential.
  same_signing_time : Time → VerifiedCredential → Credential → Option GoError × Credential
  same_signing_time iat vc cred =
      if signing_time_used pc.issuer_validity iat && not (vc.issued_at == iat)
      then (
        some (
            wrap (lib.sentinel Sentinel.sdjwt_malformed)
              (bytes "signing time differs between the presented and the verified credential")),
        cred,
      )
      else (none, record cred { sd = some vc })

  -- The library call, under a resolved key.
  verify_keyed : Time → Key × ResolvedIssuer → Credential → Option GoError × Credential
  unfolding same_signing_time
  verify_keyed iat (key, issuer) cred =
      let keyed = record cred { issuer_key = some key; issuer = issuer } in
      elim (lib.verify_sd_jwt (sd_jwt_input pc key cred.pres)) [
        | err e ↦ (some e, keyed)
        | ok vc ↦ same_signing_time iat vc keyed
      ]

  unfoldable pub verify_sd_jwt : Credential → Option GoError × Credential
  unfolding verify_keyed
  verify_sd_jwt cred =
      let iat = claimed_iat cred.iat in
      let vct = vct_from_query pc.session.query cred.pres.query_cred_id in
      let at = path_validation_time pc.issuer_validity iat lib.now in
      elim (resolve_issuer_for lib pc.cred_trust cred.x5c vct at) [
        | err e ↦ (some e, cred)
        | ok found ↦ verify_keyed iat found cred
      ]

  -- The library's run, with `issuerTrust.ResolveIssuerKey` as its callback.
  unfoldable pub run_mdoc :
      String → MdocRun → Credential → Result (List VerifiedDocument) × Credential
  run_mdoc doctype (returns r) cred = (r, cred)
  run_mdoc doctype (asks chain signed next) cred =
      let at = path_validation_time pc.issuer_validity signed lib.now in
      elim (resolve_issuer_for lib pc.cred_trust chain doctype at) [
        | err e ↦ run_mdoc doctype (next (err e)) cred
        | ok (key, issuer) ↦
            run_mdoc doctype (next (ok key))
              (record cred { issuer_key = some key; issuer = issuer })
      ]

  one_document : Result (List VerifiedDocument) → Credential → Option GoError × Credential
  one_document (err e) cred = (some e, cred)
  one_document (ok (doc ∷ [])) cred = (none, record cred { md = some doc })
  one_document (ok docs) cred = (
    some (
        wrap (lib.sentinel Sentinel.mdoc_malformed)
          (bytes "expected 1 document, got " ++ decimal (length docs))),
    cred,
  )

  unfoldable pub verify_mdoc : Credential → Option GoError × Credential
  unfolding run_mdoc one_document
  verify_mdoc cred =
      let doctype = doctype_from_query pc.session.query cred.pres.query_cred_id in
      let run = lib.verify_mdoc cred.pres.payload (session_transcript pc.origin cred.pres) in
      let (r, asked) = run_mdoc doctype run cred in one_document r asked

  unfoldable pub verify_as : Format → Credential → Option GoError × Credential
  unfolding verify_sd_jwt verify_mdoc
  verify_as sd_jwt cred = verify_sd_jwt cred
  verify_as mdoc cred = verify_mdoc cred
  verify_as (other name) cred = (none, cred)

  -- An error is this step's failure, or is deferred to the step that owns it.
  unfoldable pub attribute :
      Option GoError → Credential → Option CheckResult × Unit {0} × Credential
  attribute none cred = (none, tt, cred)
  attribute (some e) cred =
      let (step, code) = classify_format_error e in
      if str_eq step Names.issuer_authenticity || str_eq step Names.parse
      then (some (failure code (safe_detail (some e))), tt, cred)
      else (none, tt, record cred { deferred_step = step; deferred_err = some e })

  -- One round of the loop.
  unfoldable pub authenticate : Unit {0} → Credential → Option CheckResult × Unit {0} × Credential
  unfolding verify_as attribute
  authenticate _ cred =
      let (failed, verified) = verify_as cred.pres.format cred in attribute failed verified

unfoldable pub verdict : Option CheckResult → CheckResult
verdict (some failed) = failed
verdict none = passed

unfoldable pub issuer_authenticity : {W : Type 0} → Libraries → Check W
unfolding verdict authenticate
issuer_authenticity lib = record {
  name = Names.issuer_authenticity;
  run = λ pc.
      let (failed, done, creds) = each (authenticate lib pc) tt pc.credentials in
      (ok (verdict failed), record pc { credentials = creds });
}
