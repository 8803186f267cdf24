-- ===== src/Pipeline/Checks/AssembleForward.antt =====
-- Step 10: internal/pipeline/check_assemble_forward.go.
pub mod Delivery
use eudi_verifier_core.Prelude.{ℕ, Option, none, some, List, [], ◌∷◌, ◌++◌, map}
use eudi_verifier_core.Errors.{GoError, ok}
use eudi_verifier_core.Libraries.{VerifiedCredential}
use eudi_verifier_core.Pipeline.Names
use eudi_verifier_core.Pipeline.Report.{
  CheckResult, passed, failure, CredentialSummary, Report, add_credential,
}
use eudi_verifier_core.Pipeline.Classify.{safe_detail}
use eudi_verifier_core.Pipeline.Context.{
  PipelineContext, Services, Check, Credential, ResultCredential, RunResult, claims, doctype_or_vct,
}
use eudi_verifier_core.Pipeline.Finalize.{finalize}

decoys_of : Option VerifiedCredential → ℕ
decoys_of none = 0
decoys_of (some sd) = sd.decoy_digests

unfoldable pub result_credential : Credential → ResultCredential
result_credential cred = record {
  query_credential_id = cred.pres.query_cred_id;
  format = cred.pres.format;
  doctype_or_vct = doctype_or_vct cred;
  claims = claims cred;
}

unfoldable pub summary : Credential → CredentialSummary
unfolding decoys_of
summary cred = record {
  query_cred_id = cred.pres.query_cred_id;
  format = cred.pres.format;
  doctype_or_vct = doctype_or_vct cred;
  issuer_country = cred.issuer.anchor_country;
  claim_names = [];
  status_provenance = cred.status_provenance;
  decoy_digests = decoys_of cred.sd;
}

unfoldable pub add_summaries : List Credential → Report → Report
unfolding summary
add_summaries [] rep = rep
add_summaries (cred ∷ rest) rep =
    add_summaries rest (add_credential (summary cred) (claims cred) rep)

abbrev pub last_row : CheckResult
last_row = record passed {
  check = Names.assemble_forward;
  spec_ref = Names.spec_refs Names.assemble_forward;
}

-- The report that is delivered: the builder's, with this check's own row.
unfoldable pub delivered_report : Report → Report
delivered_report rep = record rep { checks = rep.checks ++ last_row ∷ []; outcome = "verified" }

unfoldable pub assembled : {W : Type 0} → PipelineContext W → RunResult
unfolding result_credential delivered_report add_summaries
assembled pc = record {
  session_id = pc.session_id;
  outcome = "verified";
  report = delivered_report (add_summaries pc.credentials pc.report);
  credentials = map result_credential pc.credentials;
}

unfoldable pub verdict : Option GoError → CheckResult
verdict none = last_row
verdict (some e) = failure "err:session:handoff-failed" (safe_detail (some e))

unfoldable pub assemble_forward : {W : Type 0} → Services W → Check W
unfolding verdict assembled add_summaries
assemble_forward sv = record {
  name = Names.assemble_forward;
  run = λ pc.
      let summarised = record pc { report = add_summaries pc.credentials pc.report } in
      let (failed, end, res) = finalize sv summarised (assembled pc) in (ok (verdict failed), end);
}
