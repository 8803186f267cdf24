-- ===== src/App/Init.antt =====
-- `init` of app.go: how the service is put together at its start.
pub mod Wired
use eudi_verifier_core.Prelude.{
  ℕ, String, Option, none, some, List, [], ◌∷◌, ◌++◌, Bytes, bytes, Time, Duration, sub_time,
  str_eq, text_append, if◌then◌else◌,
}
use eudi_verifier_core.Errors.{GoError, Result, ok, err}
use eudi_verifier_core.Libraries.{Libraries, Certificate}
use eudi_verifier_core.Pipeline.Trust.{CredentialTrustMap, parse_credential_trust}
use eudi_verifier_core.Pipeline.Context.{Services}
use eudi_verifier_core.Pipeline.Production.{production}
use eudi_verifier_core.ValkeyStore.{
  Backend, Store, new_store, with_response_code_ttl, with_key_prefix,
}
use eudi_verifier_core.SessionDb.{Pool, new_pg}
use eudi_verifier_core.RespondTokens.{Tokens}
use eudi_verifier_core.RespondTokens
use eudi_verifier_core.Handoff.{Wire, Queue, new_queue}
use eudi_verifier_core.Handoff
use eudi_verifier_core.StatusCache.{Cache, RefRecorder}
use eudi_verifier_core.StatusCache
use eudi_verifier_core.Anchors.{Valkey, TypeFreshness, getter_get, freshness}
use eudi_verifier_core.Keyspace
use eudi_verifier_core.Keyspace.{Text}
use eudi_verifier_core.KeySet.{PublicKey}
use eudi_verifier_core.Config.{Configuration}
use eudi_verifier_core.Metrics.Gauges.{Registry, Gauges, register_anchor_staleness_gauges}
use eudi_verifier_core.App.{
  RedactionPolicy, redaction_policy, Options, KeyProvider, EngineConfig, ProtocolEngine, ResultSink,
  handoff_queue, AnchorSource, from_valkey, App, key_request_signing, request_uri,
}
use eudi_verifier_core.App.Notes.{effective_dcapi_mode_note, effective_issuer_validity_note}

-- What `init` calls: the platform, the clients and their parsers, the keys, the certificates, the
-- protocol engine, and the readers of the shared contracts.
pub record Outside (B W : Type 0) : Type 0 where
  pub setup : B → RedactionPolicy → Option GoError
  pub default_redaction : RedactionPolicy
  pub parse_url : String → Result Options
  pub new_client : Options → Backend W
  pub new_pool : (dsn : String) → Result (Pool W)
  pub ping : Pool W → W → Option GoError
  pub new_keys : List (String × String) → Result KeyProvider
  pub key_handoff_enc : String
  pub key_webhook_signing : String
  pub read_file : String → Result Bytes
  pub parse_cert_chain : Bytes → Result (List Certificate)
  pub load_wrpac : List Bytes → Result Bytes
  pub new_engine : EngineConfig → Result ProtocolEngine
  pub unmarshal_trust : Bytes → Result CredentialTrustMap
  -- the text of code points, and of the bytes that a client reads
  pub string_of : Text → String
  pub text_of : Bytes → String
  pub status_list_key : String → String
  pub ref_recorder : Options → RefRecorder W
  pub wire : Options → PublicKey → Wire W
  pub anchor_reader : (String → W → Result (Option Bytes)) → Duration → W → Valkey

infixl 5 ◌>>=◌
abbrev pub ◌>>=◌ : {A C : Type 0} → Result A → (A → Result C) → Result C
ok a >>= f = f a
err e >>= f = err e

-- An error with a text in front of it.
abbrev pub within : {A : Type 0} → Bytes → Result A → Result A
within text (ok a) = ok a
within text (err e) = err (record e { message = text ++ e.message })

abbrev pub without_error : Option GoError → Result (Unit {0})
without_error none = ok tt
without_error (some e) = err e

-- A mounted password wins over the one in the URL.
unfoldable pub with_password : String → Options → Options
with_password password opts =
    if str_eq password "" then opts else record opts { password = password }

module _ {B W : Type 0} (o : Outside B W) (c : Configuration B) where
  -- The prefix of every key.
  unfoldable pub key_prefix : String
  key_prefix = o.string_of (Keyspace.new c.valkey_key_prefix)

  unfoldable pub key_files : List (String × String)
  key_files =
      (key_request_signing, c.request_signing_key_file)
      ∷ (o.key_handoff_enc, c.handoff_enc_key_file)
      ∷ (o.key_webhook_signing, c.webhook_signing_key_file)
      ∷ []

  unfoldable pub engine_config : KeyProvider → List Certificate → EngineConfig
  engine_config keys certs = record {
    keys = keys;
    signing_key_id = key_request_signing;
    wrpac_chain = certs;
    client_dns_name = c.client_dns_name;
    request_uri_base = c.public_base_url;
    request_uri_func = λ id. request_uri c.public_base_url id;
    universal_link_base = c.universal_link_base;
    session_ttl = c.session_ttl;
    max_response_body = c.max_response_body_bytes;
    response_encryption = c.response_encryption;
    vp_formats = c.vp_formats;
  }

  -- The application of these parts.
  unfoldable pub assembled :
      Options
      → Pool W
      → KeyProvider
      → (wrpac : Bytes) → ProtocolEngine
      → CredentialTrustMap
      → (handoff_pub : PublicKey) → App B W
  unfolding key_prefix
  assembled opts pool keys wrpac engine trust handoff_pub = record {
    config = c;
    options = opts;
    valkey = o.new_client opts;
    sessions =
        with_key_prefix key_prefix
          (with_response_code_ttl c.response_code_ttl (new_store c.session_ttl));
    cors_headers = "Content-Type" ∷ [];
    db_ping = o.ping pool;
    session_db = new_pg pool;
    keys = keys;
    wrpac = wrpac;
    engine = engine;
    respond_tokens =
        RespondTokens.with_prefix key_prefix (record { prefix = ""; text = o.text_of });
    creator = none;
    cred_trust = trust;
    status_cache =
        StatusCache.with_key_prefix key_prefix
          (record { prefix = ""; status_list_key = o.status_list_key });
    status_refs = record (o.ref_recorder opts) { prefix = key_prefix };
    pipeline = production;
    result_sink =
        handoff_queue (o.wire opts handoff_pub)
          (Handoff.with_prefix key_prefix (new_queue c.handoff_ttl));
    anchor_source =
        from_valkey (o.anchor_reader (getter_get (o.new_client opts) key_prefix) c.anchor_grace);
    status_fetcher_override = none;
    test_anchors = [];
    test_status_fetcher = none;
    log =
        text_append "browser presentation requests: "
          (effective_dcapi_mode_note c.dcapi_request_mode)
        ∷ text_append "issuer certificate validity: "
            (effective_issuer_validity_note c.issuer_validity_model)
        ∷ [];
  }

  -- `init`: the first error ends it.
  unfoldable pub init : Result (App B W)
  unfolding with_password key_files engine_config assembled
  init = do
    done ← without_error (o.setup c.base (redaction_policy o.default_redaction))
    parsed ← o.parse_url c.valkey_url
    let opts = with_password c.valkey_password parsed
    pool ← o.new_pool c.postgres_dsn
    keys ← o.new_keys key_files
    pem ← within (bytes "wrpac chain: ") (o.read_file c.wrpac_chain_file)
    certs ← within (bytes "wrpac chain: ") (o.parse_cert_chain pem)
    wrpac ← within (bytes "wrpac: ") (o.load_wrpac certs)
    engine ← o.new_engine (engine_config keys certs)
    trust ←
        within (bytes "credential trust map: ")
          (parse_credential_trust o.unmarshal_trust (bytes c.credential_trust_json))
    handoff_pub ← within (bytes "handoff key: ") (keys.public o.key_handoff_enc)
    ok (assembled opts pool keys wrpac engine trust handoff_pub)

-- What a scrape of a gauge reads: -1 for a type that the cache does not name, else the time until
-- the end of its validity.
pub data Staleness : Type 0 where
  unknown : Staleness
  until : Duration → Staleness

staleness_in : (now : Time) → String → List (String × TypeFreshness) → Staleness
staleness_in now typ [] = unknown
staleness_in now typ ((name, f) ∷ rest) =
    let later = staleness_in now typ rest in
    if str_eq name typ then until (sub_time f.valid_until now) else later

-- The function that `init` registers for the gauges, at the cache of a state and the time of a call.
unfoldable pub seconds_until_expiry : Valkey → (now : Time) → String → Staleness
unfolding staleness_in
seconds_until_expiry v now typ = staleness_in now typ (freshness v)

-- The gauges that `init` registers, over the reader that it has just built: a gauge is read in a
-- state and at a time.
unfoldable pub register_gauges :
    {R W : Type 0}
    → Registry R
    → (types : List String) → (W → Valkey)
    → Gauges R (W → Time → Staleness)
    → Gauges R (W → Time → Staleness)
unfolding seconds_until_expiry
register_gauges reg types reader g =
    register_anchor_staleness_gauges reg types
      (λ typ w now. seconds_until_expiry (reader w) now typ) g
