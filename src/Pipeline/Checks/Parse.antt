-- ===== src/Pipeline/Checks/Parse.antt =====
-- Step 2: internal/pipeline/check_parse.go.
pub mod Parsed
use eudi_verifier_core.Prelude.{
  String, Option, none, some, List, [], ◌∷◌, ◌++◌, ◌⊎◌, inl, inr, bytes, quote,
}
use eudi_verifier_core.Errors.{GoError, ok, err, plain}
use eudi_verifier_core.Libraries.{Libraries, Presentation, Format, sd_jwt, mdoc, other}
use eudi_verifier_core.Pipeline.Names
use eudi_verifier_core.Pipeline.Report.{CheckResult, passed, failure}
use eudi_verifier_core.Pipeline.Classify.{safe_detail}
use eudi_verifier_core.Pipeline.Context.{Check, Credential, new_credential}

unfoldable pub fail_parse : String → GoError → CheckResult
fail_parse query_cred_id e =
    failure "err:credential:parse"
      (bytes "credential " ++ (bytes query_cred_id ++ (bytes ": " ++ safe_detail (some e))))

module _ (lib : Libraries) where
  unfoldable pub parse_as : Format → Presentation → CheckResult ⊎ Credential
  unfolding fail_parse
  parse_as sd_jwt pres = elim (lib.peek pres.payload) [
    | err e ↦ inl (fail_parse pres.query_cred_id e)
    | ok peek ↦ inr (record (new_credential lib pres) { x5c = peek.x5c; iat = peek.iat })
  ]
  parse_as mdoc pres = elim (lib.decode_device_response pres.payload) [
    | some e ↦ inl (fail_parse pres.query_cred_id e)
    | none ↦ inr (new_credential lib pres)
  ]
  parse_as (other name) pres =
      inl (fail_parse pres.query_cred_id (plain (bytes "unsupported format " ++ quote name)))

  -- The loop over the presentations; `parsed` is `pc.Credentials`.
  unfoldable pub parse_all :
      List Credential → List Presentation → Option CheckResult × List Credential
  unfolding parse_as
  parse_all parsed [] = (none, parsed)
  parse_all parsed (pres ∷ rest) = elim (parse_as pres.format pres) [
    | inl failed ↦ (some failed, parsed)
    | inr cred ↦ parse_all (parsed ++ cred ∷ []) rest
  ]

  unfoldable pub verdict : Option CheckResult → List Credential → CheckResult
  verdict (some failed) parsed = failed
  verdict none [] = failure "err:presentation:invalid-response" (bytes "empty vp_token")
  verdict none (cred ∷ rest) = passed

  unfoldable pub parse : {W : Type 0} → Check W
  unfolding parse_all verdict
  parse = record {
    name = Names.parse;
    run = λ pc.
        let (failed, parsed) = parse_all pc.credentials pc.presentations in
        (ok (verdict failed parsed), record pc { credentials = parsed });
  }
