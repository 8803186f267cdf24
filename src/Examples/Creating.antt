-- ===== src/Examples/Creating.antt =====
-- A browser session of a client that decided for unsigned requests.
use eudi_verifier_core.Prelude.{false, none, some, [], ◌∷◌, ◌≡◌, refl, pos, bytes}
use eudi_verifier_core.Errors.{ok}
use eudi_verifier_core.Libraries.{dcapi}
use eudi_verifier_core.Policy.{defaults}
use eudi_verifier_core.SessionCreator.{
  CreateInput, Invocation, Created, Creator, create, signed_dcapi_required, effective_ttl,
  response_url,
}
use eudi_verifier_core.Examples.Wallet.{session}

abbrev signed_invocation : Invocation
signed_invocation = record { link = []; dcapi_member = bytes "signed" }

abbrev pub creator : Creator Unit
creator = record {
  new_session = λ spec. ok (session, signed_invocation);
  dcapi_unsigned_request = λ sess. ok (bytes "unsigned");
  save = λ sess w. (none, w);
  put = λ token id ttl w. (none, w);
  create_row = λ row w. (none, w);
  marshal_policy = λ p. ok [];
  base_url = "https://verifier.example";
  ttl = pos 300;
  dcapi_mode = "both";
}

abbrev asked : CreateInput
asked = record {
  client_id = "client";
  correlation_id = "";
  flow = dcapi;
  query = session.query;
  policy = record defaults { require_signed_dcapi_p = some false };
  webhook_url = "";
  redirect_uri = "";
  registration = record {
    client_name = "";
    client_id = "";
    registry_uri = "";
    intended_use_id = "";
  };
  wrprc = [];
  expected_origins = "https://rp.example" ∷ [];
  ttl = pos 100;
}

abbrev issued : Created
issued = record {
  session_id = "s1";
  request_uri = "https://verifier.example/wallet/s1/request.jwt";
  response_uri = "https://verifier.example/wallet/t/response";
  invocation = record { link = []; dcapi_member = bytes "unsigned" };
  expires_at = 1100;
}

created : (create creator asked (ok "t") 1000 tt).0 ≡ ok issued
unfolding create signed_dcapi_required effective_ttl response_url
created = refl
