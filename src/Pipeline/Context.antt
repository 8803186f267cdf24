-- ===== src/Pipeline/Context.antt =====
-- The state of one verification run: `Credential`, `Result` and `ResultCredential` of
-- internal/pipeline/credential.go, `PipelineContext`, `Check` and the service interfaces of
-- internal/pipeline/pipeline.go, and the session row of internal/sessiondb/repo.go.
use eudi_verifier_core.Prelude.{String, Bool, Option, none, some, List, [], ◌∷◌, Bytes, Time}
use eudi_verifier_core.Errors.{GoError, Result}
use eudi_verifier_core.Claims.{Claims, nil, entry, node}
use eudi_verifier_core.Libraries.{
  Libraries, Session, Presentation, Format, Certificate, Key, ResolvedIssuer, StatusRef, Status,
  VerifiedCredential, VerifiedDocument,
}
use eudi_verifier_core.Policy.{ClientPolicy}
use eudi_verifier_core.Pipeline.Report.{Outcome, unset, CheckResult, Report, new_builder}
use eudi_verifier_core.Pipeline.Trust.{CredentialTrustMap, IssuerValidityModel}

-- A Go pointer or interface that may be nil is an `Option`.
pub record Credential : Type 0 where
  pub pres : Presentation
  pub x5c : List Certificate
  pub iat : Option Time
  pub sd : Option VerifiedCredential
  pub md : Option VerifiedDocument
  pub issuer_key : Option Key
  pub issuer : ResolvedIssuer
  pub deferred_step : String
  pub deferred_err : Option GoError
  pub status_ref : Option StatusRef
  pub status_result : Status
  pub status_provenance : String
  pub holder_bound : Bool
  pub device_binding_check : Outcome

-- `&Credential{Pres: pres}`
unfoldable pub new_credential : Libraries → Presentation → Credential
new_credential lib pres = record {
  pres = pres;
  x5c = [];
  iat = none;
  sd = none;
  md = none;
  issuer_key = none;
  issuer = record { anchor_country = ""; use_cases = [] };
  deferred_step = "";
  deferred_err = none;
  status_ref = none;
  status_result = lib.zero_status;
  status_provenance = "";
  holder_bound = Bool.false;
  device_binding_check = unset;
}

-- The copy of `Namespaces` that `Claims` makes.
unfoldable pub namespace_claims : List (String × Claims) → Claims
namespace_claims [] = nil
namespace_claims ((ns, elems) ∷ rest) = entry ns (node elems) (namespace_claims rest)

unfoldable pub format_claims : Option VerifiedCredential → Option VerifiedDocument → Claims
format_claims (some sd) md = sd.claims
format_claims none (some md) = namespace_claims md.namespaces
format_claims none none = nil

-- `Credential.Claims`
unfoldable pub claims : Credential → Claims
unfolding format_claims namespace_claims
claims c = format_claims c.sd c.md

format_type : Option VerifiedCredential → Option VerifiedDocument → String
format_type (some sd) md = sd.vct
format_type none (some md) = md.doc_type
format_type none none = ""

-- `Credential.DoctypeOrVCT`
unfoldable pub doctype_or_vct : Credential → String
unfolding format_type
doctype_or_vct c = format_type c.sd c.md

pub record ResultCredential : Type 0 where
  pub query_credential_id : String
  pub format : Format
  pub doctype_or_vct : String
  pub claims : Claims

-- `Result`, the payload that is forwarded.
pub record RunResult : Type 0 where
  pub session_id : String
  pub outcome : String
  pub report : Report
  pub credentials : List ResultCredential

-- `sessiondb.Session`
pub record SessionRow : Type 0 where
  pub id : String
  pub client_id : String
  pub correlation_id : String
  pub flow : String
  pub status : String
  pub policy : Bytes
  pub webhook_url : String
  pub redirect_uri : String
  pub expires_at : Time

-- The stateful services of a run, over the state `W` of the stores behind them: `ResultSink`,
-- `Cleaner` and `StatusRefRecorder`, which may be nil and whose error is dropped.
pub record Services (W : Type 0) : Type 0 where
  pub deliver : SessionRow → RunResult → W → Option GoError × W
  pub save : Session → W → Option GoError × W
  pub delete_session : String → W → Option GoError × W
  pub record_ref : Option (String → W → W)

-- `PipelineContext`; the libraries and services that it carries are parameters of the checks.
pub record PipelineContext (W : Type 0) : Type 0 where
  pub session_id : String
  pub session : Session
  pub meta : SessionRow
  pub raw_body : Bytes
  pub policy : ClientPolicy
  pub origin : String
  pub cred_trust : CredentialTrustMap
  pub issuer_validity : IssuerValidityModel
  pub presentations : List Presentation
  pub response_code : String
  pub credentials : List Credential
  pub report : Report
  pub world : W

-- `NewContext`, with the wiring that its caller sets.
unfoldable pub new_context :
    {W : Type 0} (sess : Session) (meta : SessionRow) (raw_body : Bytes) (policy : ClientPolicy)
    (origin : String) (cred_trust : CredentialTrustMap) (issuer_validity : IssuerValidityModel)
    → W
    → PipelineContext W
unfolding new_builder
new_context sess meta raw_body policy origin cred_trust issuer_validity world = record {
  session_id = sess.id;
  session = sess;
  meta = meta;
  raw_body = raw_body;
  policy = policy;
  origin = origin;
  cred_trust = cred_trust;
  issuer_validity = issuer_validity;
  presentations = [];
  response_code = "";
  credentials = [];
  report = new_builder sess.id;
  world = world;
}

-- `Check`: the name, and the run that may change the context.
pub record Check (W : Type 0) : Type 0 where
  pub name : String
  pub run : PipelineContext W → Result CheckResult × PipelineContext W
