-- ===== src/Examples/Internal.antt =====
-- Requests to the cluster-internal API.
use eudi_verifier_core.Prelude.{
  false, none, some, [], ◌∷◌, ◌++◌, ◌≡◌, inr, refl, bytes, pos, seconds, bytes_equal, str_eq,
  if◌then◌else◌,
}
use eudi_verifier_core.Errors.{ok, plain}
use eudi_verifier_core.Libraries.{Flow}
use eudi_verifier_core.Policy.{defaults}
use eudi_verifier_core.SessionCreator.{
  CreateInput, Creator, Created, effective_ttl, response_url, create, signed_dcapi_required,
}
use eudi_verifier_core.InternalApi.{
  CreateRequest, Decoders, flow_of, decode_policy, input_of, build_create_input, presented,
  authorized, check_origins, check_redirect, origins_ok, valid_web_origin,
}
use eudi_verifier_core.InternalApi.Handlers.{
  Internal, Fault, problem, created_session, CreateResponse, create_request, delete_request,
  create_session, serve, gated, handle, response_of,
}
use eudi_verifier_core.InternalApi.Handlers.Serving.{Served, serve-closed, serve-Served}
use eudi_verifier_core.Examples.Wallet.{session}
use eudi_verifier_core.Examples.Creating.{creator}

-- A check that asks for the name of the client.
abbrev decoders : Decoders
decoders = record {
  parse_query = λ raw. ok session.query;
  validate_query = λ query. none;
  parse_url = λ raw. ok (record {
    scheme = "https";
    host = "rp.example";
    path = "";
    raw_query = "";
    fragment = "";
    has_user = false;
  });
  validate_registration = λ r. if str_eq r.client_name "" then some (plain []) else none;
  unmarshal_policy = λ raw. ok defaults;
}

abbrev wanted : CreateRequest
wanted = record {
  client_id = "client";
  correlation_id = "c1";
  flow = "dcapi";
  dcql_query = bytes "{}";
  policy = [];
  webhook_url = "";
  redirect_uri = "";
  registration = record {
    client_name = "Shop";
    client_id = "client";
    registry_uri = "https://registrar.example";
    intended_use_id = "use";
  };
  wrprc = [];
  expected_origins = "https://rp.example" ∷ [];
  ttl_seconds = pos 100;
}

abbrev input : CreateInput
input = record {
  client_id = "client";
  correlation_id = "c1";
  flow = Flow.dcapi;
  query = session.query;
  policy = defaults;
  webhook_url = "";
  redirect_uri = "";
  registration = wanted.registration;
  wrprc = [];
  expected_origins = "https://rp.example" ∷ [];
  ttl = pos 100000000000;
}

-- A creator of sessions of at most five minutes.
abbrev patient : Creator Unit
patient = record creator { ttl = pos 300_000_000_000 }

abbrev lasting : Created
lasting = record {
  session_id = "s1";
  request_uri = "https://verifier.example/wallet/s1/request.jwt";
  response_uri = "https://verifier.example/wallet/t/response";
  invocation = record { link = []; dcapi_member = bytes "signed" };
  expires_at = 100_000_001_000;
}

created : (create patient input (ok "t") 1000 tt).0 ≡ ok lasting
unfolding create signed_dcapi_required effective_ttl response_url
created = refl

abbrev internal : Internal Unit
internal = record {
  creator = creator;
  decoders = decoders;
  unmarshal_request = λ body. ok wanted;
  delete_session = λ id w. (none, w);
  get_report = λ id w. ok [];
  sha256 = λ m. m;
  token = bytes "k";
  source = none;
}

serve-closed_example : (f : Fault) × (serve internal [] (delete_request "s1") tt ≡ (problem f, tt))
serve-closed_example =
    serve-closed internal [] (delete_request "s1") tt (λ same. same) (inr (λ e. absurd (cc e)))

abbrev answer : CreateResponse
answer = record {
  session_id = "s1";
  expires_at = 1300;
  request_uri = "https://verifier.example/wallet/s1/request.jwt";
  response_uri = "https://verifier.example/wallet/t/response";
  link = [];
  dcapi_request = some (bytes "signed");
}

served :
    (serve internal (bytes "Bearer k") (create_request [] (ok "t") 1000) tt).0
    ≡ created_session answer
unfolding serve gated handle create_session response_of build_create_input create check_origins
    check_redirect decode_policy input_of flow_of origins_ok valid_web_origin seconds authorized
    presented bytes_equal effective_ttl signed_dcapi_required response_url
served = refl

serve-Served_example :
    (bytes "Bearer k" ≡ bytes "Bearer " ++ bytes "k") × Served internal [] "t" 1000 tt answer
serve-Served_example =
    serve-Served internal (bytes "Bearer k") [] "t" 1000 tt answer (λ same. same) served
