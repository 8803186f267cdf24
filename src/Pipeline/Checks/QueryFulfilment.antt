-- ===== src/Pipeline/Checks/QueryFulfilment.antt =====
-- Step 8: internal/pipeline/check_query_fulfilment.go.
use eudi_verifier_core.Prelude.{List, [], ◌∷◌, ◌++◌, map, Bytes, bytes, if◌then◌else◌}
use eudi_verifier_core.Errors.{ok}
use eudi_verifier_core.Libraries.{Libraries, Candidate, Unmet, MatchResult}
use eudi_verifier_core.Pipeline.Names
use eudi_verifier_core.Pipeline.Report.{CheckResult, passed, failure}
use eudi_verifier_core.Pipeline.Context.{Check, Credential, claims, doctype_or_vct}

unfoldable pub candidate : Credential → Candidate
candidate cred = record {
  query_cred_id = cred.pres.query_cred_id;
  format = cred.pres.format;
  doctype_or_vct = doctype_or_vct cred;
  claims = claims cred;
  holder_bound = cred.holder_bound;
}

-- `fmt.Sprintf("[%s %s %v]", …)` of each unmet requirement, in turn.
unmet_detail : List Unmet → Bytes
unmet_detail [] = []
unmet_detail (u ∷ rest) =
    (bytes "["
      ++ (bytes u.credential_id
          ++ (bytes " " ++ (u.reason ++ (bytes " " ++ (u.paths ++ bytes "]"))))))
    ++ unmet_detail rest

unfoldable pub fulfilment : MatchResult → CheckResult
unfolding unmet_detail
fulfilment res =
    if res.satisfied
    then passed
    else failure "err:presentation:query-unfulfilled" (unmet_detail res.unmet)

unfoldable pub query_fulfilment : {W : Type 0} → Libraries → Check W
unfolding fulfilment
query_fulfilment lib = record {
  name = Names.query_fulfilment;
  run = λ pc. (ok (fulfilment (lib.match pc.session.query (map candidate pc.credentials))), pc);
}
