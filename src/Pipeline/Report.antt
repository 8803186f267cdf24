-- ===== src/Pipeline/Report.antt =====
-- internal/pipeline/report.go and `CheckResult` of internal/pipeline/pipeline.go.
use eudi_verifier_core.Prelude.{
  ℕ, String, Bool, List, [], ◌∷◌, ◌++◌, Bytes, take, str_eq, if◌then◌else◌,
}
use eudi_verifier_core.Claims.{Claims}
use eudi_verifier_core.Claims.Names.{flatten_names}
use eudi_verifier_core.Libraries.{Format}

-- `Outcome`; `unset` is its zero value, the empty string.
pub data Outcome : Type 0 where
  unset pass fail skipped : Outcome

pub record CheckResult : Type 0 where
  pub check : String
  pub outcome : Outcome
  pub code : String
  pub spec_ref : String
  pub detail : Bytes
  pub status_list_uri : String

-- `CheckResult{}`
abbrev pub blank : CheckResult
blank = record {
  check = "";
  outcome = unset;
  code = "";
  spec_ref = "";
  detail = [];
  status_list_uri = "";
}

-- `CheckResult{Outcome: OutcomePass}`
abbrev pub passed : CheckResult
passed = record blank { outcome = pass }

-- `CheckResult{Outcome: OutcomeFail, Code: code, Detail: detail}`
abbrev pub failure : String → Bytes → CheckResult
failure code detail = record blank { outcome = fail; code = code; detail = detail }

pub record CredentialSummary : Type 0 where
  pub query_cred_id : String
  pub format : Format
  pub doctype_or_vct : String
  pub issuer_country : String
  pub claim_names : List String
  pub status_provenance : String
  pub decoy_digests : ℕ

pub record Report : Type 0 where
  pub session_id : String
  pub outcome : String
  pub fail_code : String
  pub checks : List CheckResult
  pub credentials : List CredentialSummary
  pub policy : List (String × Bool)

-- The longest detail that a report keeps.
abbrev pub detail_cap : ℕ
detail_cap = 200

-- `NewBuilder`
unfoldable pub new_builder : String → Report
new_builder session_id = record {
  session_id = session_id;
  outcome = "failed";
  fail_code = "";
  checks = [];
  credentials = [];
  policy = [];
}

-- `Builder.Add`
unfoldable pub add : CheckResult → Report → Report
add res r = record r {
  checks = r.checks ++ record res { detail = take detail_cap res.detail } ∷ [];
}

-- `Builder.AddCredential`
unfoldable pub add_credential : CredentialSummary → Claims → Report → Report
add_credential sum claims r = record r {
  credentials = r.credentials ++ record sum { claim_names = flatten_names claims "" } ∷ [];
}

-- `m[name] = active`
set_entry : String → Bool → List (String × Bool) → List (String × Bool)
set_entry name active [] = (name, active) ∷ []
set_entry name active ((k, b) ∷ m) =
    if str_eq k name then (name, active) ∷ m else (k, b) ∷ set_entry name active m

-- `Builder.SetPolicyBranch`
unfoldable pub set_policy_branch : String → Bool → Report → Report
unfolding set_entry
set_policy_branch name active r = record r { policy = set_entry name active r.policy }

-- `Builder.Failed`
unfoldable pub failed : String → Report → Report
failed code r = record r { outcome = "failed"; fail_code = code }

-- `Builder.Verified`
unfoldable pub verified : Report → Report
verified r = record r { outcome = "verified"; fail_code = "" }
