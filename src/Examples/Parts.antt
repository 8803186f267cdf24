-- ===== src/Examples/Parts.antt =====
-- The parts of a service over servers that never fail, whatever their state is.
use eudi_verifier_core.Prelude.{String, Bool, List, Bytes, none, [], ◌∷◌, bytes, pos}
use eudi_verifier_core.Errors.{Result, ok, err, plain}
use eudi_verifier_core.Policy.{defaults}
use eudi_verifier_core.Pipeline.Trust.{default_credential_trust}
use eudi_verifier_core.ValkeyStore.{Backend, Got}
use eudi_verifier_core.SessionDb.{Pool}
use eudi_verifier_core.KeySet.{other}
use eudi_verifier_core.Config.{Configuration}
use eudi_verifier_core.App.{App, KeyProvider, ProtocolEngine}
use eudi_verifier_core.App.Init
use eudi_verifier_core.App.Init.{Outside, init, key_prefix}
use eudi_verifier_core.App.Serving.{Handlers}
use eudi_verifier_core.Examples.Caches.{valkey}
use eudi_verifier_core.Examples.Stores.{unconsumed}
use eudi_verifier_core.Examples.Wallet.{lib, session, session_row}
use eudi_verifier_core.Examples.Answers.{problems}

-- The commands of a server that never fails, over its state.
pub record Memory (S : Type 0) : Type 0 where
  pub write : String → Bytes → S → S
  pub read : String → S → Got
  pub claim_key : String → Bytes → S → Result Bool × S
  pub remove : List String → S → S

abbrev pub server : {S : Type 0} → Memory S → Backend S
server m = record {
  set = λ k value ttl v. (none, m.write k value v);
  get = m.read;
  set_nx = λ k value ttl v. m.claim_key k value v;
  del = λ ks v. (none, m.remove ks v);
  marshal = λ s. ok (bytes s.id);
  unmarshal = λ json. ok unconsumed;
  sentinel = λ s. plain [];
  resp_code_key = λ code. code;
}

abbrev pub pool : {S : Type 0} → Pool S
pool = record {
  query_row = λ statement args w. (ok [], w);
  pg_error = λ e. none;
  unmarshal_envelope = λ raw. ok (record { result = "success"; code = ""; payload = [] });
  from_result_code = λ code. plain [];
  marshal_row = λ row. ok [];
  marshal_fields = λ fields. ok [];
  marshal_report = λ id report. ok [];
  unmarshal_id = λ raw. ok "s1";
  unmarshal_session = λ raw. ok session_row;
  unmarshal_report = λ raw. ok [];
}

abbrev pub configuration : Configuration (Unit {0})
configuration = record {
  base = tt;
  postgres_dsn = "postgres://db";
  valkey_url = "redis://cache";
  valkey_password = "mounted";
  valkey_key_prefix = b'd' ∷ [];
  public_base_url = "https://verifier.example";
  request_signing_key_file = "sign.pem";
  handoff_enc_key_file = "enc.pem";
  webhook_signing_key_file = "hook.pem";
  wrpac_chain_file = "chain.pem";
  client_dns_name = "verifier.example";
  universal_link_base = "https://wallet.example";
  response_encryption = record { curve = "P-256"; alg = "ECDH-ES"; enc_values = "A128GCM" ∷ [] };
  vp_formats = record {
    sd_jwt_alg_values = "ES256" ∷ [];
    kb_jwt_alg_values = "ES256" ∷ [];
    mdoc_issuer_auth_alg_values = [];
    mdoc_device_auth_alg_values = [];
  };
  session_ttl = pos 300_000_000_000;
  response_code_ttl = pos 300_000_000_000;
  handoff_ttl = pos 21_600_000_000_000;
  max_response_body_bytes = pos 1_048_576;
  anchor_grace = pos 0;
  credential_trust_json = "";
  dcapi_request_mode = "signed";
  issuer_validity_model = "shell";
  internal_api_token = "";
}

abbrev pub key_provider : KeyProvider
key_provider = record { public = λ kid. ok other }

abbrev pub engine : ProtocolEngine
engine = record {
  new_session = λ spec. ok (session, record { link = []; dcapi_member = [] });
  dcapi_unsigned_request = λ sess. ok [];
}

abbrev pub outside_of : {S : Type 0} → Memory S → Outside (Unit {0}) S
outside_of m = record {
  setup = λ base policy. none;
  default_redaction = record { drop_keys = "session" ∷ []; mask_keys = [] };
  parse_url = λ url. ok (record { password = "in-url"; rest = [] });
  new_client = λ opts. server m;
  new_pool = λ dsn. ok pool;
  ping = λ pool w. none;
  new_keys = λ files. ok key_provider;
  key_handoff_enc = "handoff-enc";
  key_webhook_signing = "webhook-signing";
  read_file = λ name. ok [];
  parse_cert_chain = λ pem. ok ((1 ∷ []) ∷ []);
  load_wrpac = λ chain. ok (1 ∷ []);
  new_engine = λ config. ok engine;
  unmarshal_trust = λ raw. err (plain []);
  string_of = λ t. "d:";
  text_of = λ bs. "s1";
  status_list_key = λ uri. uri;
  ref_recorder =
      λ opts. record { zadd = λ key score member w. (none, w); refs_key = "refs"; prefix = "" };
  wire = λ opts key. record {
    exec = λ commands w. (none, w);
    encrypt = λ plain. ok plain;
    marshal_result = λ res. ok [];
    marshal_envelope = λ e. ok [];
    payload_key = λ id. id;
    queue_key = "queue";
  };
  anchor_reader = λ getter grace w. valkey;
}

abbrev pub running_of : {S : Type 0} → Memory S → App (Unit {0}) S
running_of m =
    Init.assembled (outside_of m) configuration (record { password = "mounted"; rest = [] }) pool
      key_provider (1 ∷ []) engine default_credential_trust other

abbrev pub handlers : {S : Type 0} → Handlers S
handlers = record {
  libraries = lib;
  clock = λ i w. 20;
  unmarshal_policy = λ raw. ok defaults;
  marshal_report = λ rep. ok [];
  redirect_uri = λ s. ok "";
  new_problem = problems;
  sentinel = λ s. plain [];
  request_object_jwt = λ sess. ok [];
  error_response = λ e. (500, []);
}
