-- ===== src/Examples/Wallet.antt =====
-- A same-device session that asks for one PID in SD-JWT form, libraries that accept it, and its
-- stores.
use eudi_verifier_core.Prelude.{true, false, none, some, List, [], ◌∷◌, bytes}
use eudi_verifier_core.Errors.{GoError, Result, ok, err, plain}
use eudi_verifier_core.Claims.{nil, entry, leaf, node}
use eudi_verifier_core.Libraries.{
  Libraries, AnchorType, pid_provider, Session, same_device, sd_jwt, coded, Key, ResolvedIssuer,
  Presentation, VerifiedCredential, returns, StatusReply,
}
use eudi_verifier_core.Policy.{defaults}
use eudi_verifier_core.Pipeline.Trust.{default_credential_trust}
use eudi_verifier_core.Pipeline.Context.{SessionRow, Services, PipelineContext, Credential}
use eudi_verifier_core.Pipeline.Report.{Report, unset, pass}

abbrev pub issuer : ResolvedIssuer
issuer = record { anchor_country = "EE"; use_cases = [] }

abbrev pub key : Key
key = 4 ∷ 2 ∷ []

abbrev pub stale : GoError
stale = record (plain (bytes "stale")) { is = λ s. true }

abbrev pub untrusted : GoError
untrusted = plain (bytes "untrusted")

-- PID providers and their anchors are known; every other anchor type has a stale cache.
abbrev pub resolve : AnchorType → Result (Key × ResolvedIssuer)
resolve pid_provider = ok (key, issuer)
resolve _ = err stale

abbrev pub pid : VerifiedCredential
pid = record {
  vct = "urn:eudi:pid:1";
  claims =
      entry "address" (node (entry "locality" (leaf (bytes "Tallinn")) nil))
        (entry "family_name" (leaf (bytes "Tamm")) nil);
  status = some (record { uri = "https://status.example/1"; index = 7 });
  issued_at = 100;
  not_before = 100;
  expiry = 900;
  decoy_digests = 1;
}

abbrev pub presented : Presentation
presented = record {
  query_cred_id = "pid";
  format = sd_jwt;
  payload = bytes "eyJ";
  nonce = "n";
  client_id = "x509_hash:abc";
  jwk_thumbprint = [];
  response_uri = "https://verifier.example/respond";
}

abbrev pub in_force : StatusReply
in_force = record { status = coded 0; outcome = "checked"; error = none }

abbrev pub code_minted : Session → Session
code_minted s = record s { response_code = "c1" }

abbrev pub lib : Libraries
lib = record {
  sentinel = λ s. plain (bytes "sentinel");
  process_response = λ s body. (code_minted s, ok (presented ∷ [], "c1"));
  process_dcapi_response = λ s origin body. ok (presented ∷ []);
  peek = λ payload. ok (record { x5c = (1 ∷ []) ∷ []; iat = some 100 });
  decode_device_response = λ payload. none;
  verify_sd_jwt = λ input. ok pid;
  verify_mdoc = λ payload transcript. returns (ok []);
  resolve_issuer_key = λ chain t at. resolve t;
  now = 500;
  status_type = λ t. none;
  check_status = λ input. in_force;
  zero_status = coded 0;
  parse_jws_header = λ token. err untrusted;
  x5c_from_header = λ header. err untrusted;
  match = λ queries candidates. record { satisfied = true; unmet = [] };
}

abbrev pub session : Session
session = record {
  id = "s1";
  flow = same_device;
  query =
      record {
        id = "pid";
        meta = some (record { vct_values = "urn:eudi:pid:1" ∷ []; doctype_value = "" });
        holder_binding_required = true;
      }
      ∷ [];
  expires_at = 2_000_000_000;
  consumed = true;
  response_code = "";
  return_uri = "https://rp.example/return";
  secrets = [];
}

abbrev pub session_row : SessionRow
session_row = record {
  id = "s1";
  client_id = "client";
  correlation_id = "";
  flow = "same_device";
  status = "pending";
  policy = [];
  webhook_url = "";
  redirect_uri = "";
  expires_at = 1000;
}

-- Every call of these services succeeds.
abbrev pub willing : {W : Type 0} → Services W
willing = record {
  deliver = λ meta res w. (none, w);
  save = λ s w. (none, w);
  delete_session = λ id w. (none, w);
  record_ref = none;
}

-- The context of a run in which `creds` are the credentials so far, before and behind step 1.
abbrev pub started : {W : Type 0} → W → PipelineContext W
started w = record {
  session_id = "s1";
  session = session;
  meta = session_row;
  raw_body = bytes "body";
  policy = defaults;
  origin = "";
  cred_trust = default_credential_trust;
  issuer_validity = "shell";
  presentations = [];
  response_code = "";
  credentials = [];
  report = record {
    session_id = "s1";
    outcome = "failed";
    fail_code = "";
    checks = [];
    credentials = [];
    policy = [];
  };
  world = w;
}

abbrev pub opened : {W : Type 0} → W → List Credential → Report → PipelineContext W
opened w creds rep = record (started w) {
  session = code_minted session;
  presentations = presented ∷ [];
  response_code = "c1";
  credentials = creds;
  report = rep;
}

-- The credential as the steps leave it.
abbrev pub parsed_pid : Credential
parsed_pid = record {
  pres = presented;
  x5c = (1 ∷ []) ∷ [];
  iat = some 100;
  sd = none;
  md = none;
  issuer_key = none;
  issuer = record { anchor_country = ""; use_cases = [] };
  deferred_step = "";
  deferred_err = none;
  status_ref = none;
  status_result = coded 0;
  status_provenance = "";
  holder_bound = false;
  device_binding_check = unset;
}

abbrev pub verified_pid : Credential
verified_pid = record parsed_pid { issuer_key = some key; issuer = issuer; sd = some pid }

abbrev pub current_pid : Credential
current_pid = record verified_pid { status_provenance = "checked" }

abbrev pub bound_pid : Credential
bound_pid = record current_pid { holder_bound = true; device_binding_check = pass }
