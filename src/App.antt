-- ===== src/App.antt =====
-- The application container: app.go and redaction.go.
pub mod Init
pub mod Notes
pub mod Creating
pub mod Serving
pub mod Launch
use eudi_verifier_core.Prelude.{
  String, Option, none, some, List, [], ◌∷◌, ◌++◌, Bytes, bytes, Time, Duration, Int64, text_append,
}
use eudi_verifier_core.Errors.{GoError, Result, ok, err, plain}
use eudi_verifier_core.Libraries.{Libraries, Certificate, Session}
use eudi_verifier_core.Policy.{ClientPolicy}
use eudi_verifier_core.Pipeline.Trust.{CredentialTrustMap}
use eudi_verifier_core.Pipeline.Context.{Services, SessionRow, RunResult}
use eudi_verifier_core.Pipeline.Engine.{Engine}
use eudi_verifier_core.ValkeyStore.{Backend, Store, save}
use eudi_verifier_core.SessionCreator.{RequestSpec, Invocation, RowInput, Creator}
use eudi_verifier_core.SessionDb.{Pool, MetadataStore}
use eudi_verifier_core.RespondTokens.{Tokens, put}
use eudi_verifier_core.Handoff.{Wire, Queue}
use eudi_verifier_core.StatusCache.{Cache, RefRecorder}
use eudi_verifier_core.Anchors.{Valkey, Anchor}
use eudi_verifier_core.Anchors.Static.{Static, new_static, expire}
use eudi_verifier_core.KeySet.{PublicKey}
use eudi_verifier_core.Readiness.{Dependencies}
use eudi_verifier_core.Config.{Configuration, ResponseEncryption, VpFormats}

-- The kit's policy of keys that no log line keeps.
pub record RedactionPolicy : Type 0 where
  pub drop_keys : List String
  pub mask_keys : List String

-- `RedactionPolicy()`, from the fleet's default.
unfoldable pub redaction_policy : RedactionPolicy → RedactionPolicy
redaction_policy p = record p {
  drop_keys =
      p.drop_keys
      ++ ("claim" ∷ "disclosure" ∷ "salt" ∷ "vp_token" ∷ "kb_jwt" ∷ "device_signature"
          ∷ "deviceauth" ∷ "portrait" ∷ "biometric" ∷ "document_number" ∷ "documentnumber" ∷ []);
}

-- `redis.Options`: the password, and the rest.
pub record Options : Type 0 where
  pub password : String
  pub rest : Bytes

-- `crypto.KeyProvider`
pub record KeyProvider : Type 0 where
  pub public : String → Result PublicKey

-- `oid4vp.Config`; the policy and the clock are always the same.
pub record EngineConfig : Type 0 where
  pub keys : KeyProvider
  pub signing_key_id : String
  pub wrpac_chain : List Certificate
  pub client_dns_name : String
  pub request_uri_base : String
  pub request_uri_func : String → String
  pub universal_link_base : String
  pub session_ttl : Duration
  pub max_response_body : Int64
  pub response_encryption : ResponseEncryption
  pub vp_formats : VpFormats

-- `oid4vp.Engine`, by what the creator calls of it.
pub record ProtocolEngine : Type 0 where
  pub new_session : RequestSpec → Result (Session × Invocation)
  pub dcapi_unsigned_request : Session → Result Bytes

-- Where results go: the handoff queue, or what a test installs.
pub data ResultSink (W : Type 0) : Type 0 where
  handoff_queue : Wire W → Queue → ResultSink W
  other_sink : (SessionRow → RunResult → W → Option GoError × W) → ResultSink W

-- Where anchors come from: the cache, read in the state of a call, or a fixed list.
pub data AnchorSource (W : Type 0) : Type 0 where
  from_valkey : (W → Valkey) → AnchorSource W
  from_list : Static → AnchorSource W

-- `App`; `creator` is the one that was built, if there is one.
pub record App (B W : Type 0) : Type 0 where
  pub config : Configuration B
  pub options : Options
  pub valkey : Backend W
  pub sessions : Store
  pub cors_headers : List String
  pub db_ping : W → Option GoError
  pub session_db : MetadataStore W
  pub keys : KeyProvider
  pub wrpac : Bytes
  pub engine : ProtocolEngine
  pub respond_tokens : Tokens
  pub creator : Option (Creator W)
  pub cred_trust : CredentialTrustMap
  pub status_cache : Cache
  pub status_refs : RefRecorder W
  -- the engine, for the libraries and the services that the context of a run carries
  pub pipeline : Libraries → Services W → Engine W
  pub result_sink : ResultSink W
  pub anchor_source : AnchorSource W
  pub status_fetcher_override : Option (String → Result Bytes)
  pub test_anchors : List Anchor
  pub test_status_fetcher : Option (String → Result Bytes)
  pub log : List String

-- The key ids of app.go that are its own; those of handoffwire are parameters.
abbrev pub key_request_signing : String
key_request_signing = "request-signing"

-- The URL at which a wallet fetches the request object of a session, as `RequestURIFunc` makes it.
unfoldable pub request_uri : (public_base_url session_id : String) → String
request_uri base id = text_append base (text_append "/wallet/" (text_append id "/request.jwt"))

production_source : {W : Type 0} → AnchorSource W → W → Option Valkey
production_source (from_valkey v) w = some (v w)
production_source (from_list s) w = none

fetched : Option (String → Result Bytes) → String → Result Bytes
fetched none rawurl =
    err (plain (bytes "statuscache: prod status-list fetch requires an azugo request context"))
fetched (some outbound) rawurl = outbound rawurl

expired_source : {W : Type 0} → AnchorSource W → AnchorSource W
expired_source (from_valkey v) = from_valkey v
expired_source (from_list s) = from_list (expire s)

module _ {W : Type 0} where
  row_error : Result SessionRow × W → Option GoError × W
  row_error (err e, w) = (some e, w)
  row_error (ok row, w) = (none, w)

  -- `sessions.NewCreator` with `WithDCAPIMode`, on an application's parts; `clock` is what the store's
  -- `time.Until` reads in a state, and `marshal_policy` the JSON encoder.
  unfoldable pub creator_of :
      {B : Type 0}
      → (clock : W → Time) → (marshal_policy : ClientPolicy → Result Bytes) → App B W
      → Creator W
  unfolding row_error
  creator_of clock marshal_policy a = record {
    new_session = a.engine.new_session;
    dcapi_unsigned_request = a.engine.dcapi_unsigned_request;
    save = λ sess w. save a.valkey a.sessions sess (clock w) w;
    put = λ token id ttl w. put a.valkey a.respond_tokens token id ttl w;
    create_row = λ row w. row_error (a.session_db.create_session row w);
    marshal_policy = marshal_policy;
    base_url = a.config.public_base_url;
    ttl = a.config.session_ttl;
    dcapi_mode = a.config.dcapi_request_mode;
  }

  module _ {B : Type 0} (clock : W → Time) (marshal_policy : ClientPolicy → Result Bytes) where
    given_creator : App B W → Option (Creator W) → Creator W × App B W
    unfolding creator_of
    given_creator a (some c) = (c, a)
    given_creator a none =
        let c = creator_of clock marshal_policy a in (c, record a { creator = some c })

    -- `SessionCreator`: the creator, which is built if there is none yet, and the application.
    unfoldable pub session_creator : App B W → Creator W × App B W
    unfolding given_creator
    session_creator a = given_creator a a.creator

  module _ {B : Type 0} where
    -- `SetSessionDB`
    unfoldable pub set_session_db : MetadataStore W → App B W → App B W
    set_session_db s a = record a { session_db = s; creator = none }

    -- `SetResultSink`
    unfoldable pub set_result_sink : ResultSink W → App B W → App B W
    set_result_sink s a = record a { result_sink = s }

    -- `SetDBPingForTest`
    unfoldable pub set_db_ping_for_test : (W → Option GoError) → App B W → App B W
    set_db_ping_for_test f a = record a { db_ping = f }

    -- `SeedTestTrust`
    unfoldable pub seed_test_trust : List Anchor → (String → Result Bytes) → App B W → App B W
    seed_test_trust anchors fetcher a = record a {
      test_anchors = anchors;
      test_status_fetcher = some fetcher;
      anchor_source = from_list (new_static anchors);
      status_fetcher_override = some fetcher;
    }

    -- `ExpireTestAnchors`
    unfoldable pub expire_test_anchors : App B W → App B W
    unfolding expired_source
    expire_test_anchors a = record a { anchor_source = expired_source a.anchor_source }

    -- The anchor source as `AnchorFreshness` and `AnchorSnapshotHealth` take it.
    unfoldable pub cache_of : App B W → W → Option Valkey
    unfolding production_source
    cache_of a w = production_source a.anchor_source w

    -- What readiness asks of the application; `ping_valkey` is the client's.
    unfoldable pub dependencies_of : (ping_valkey : W → Option GoError) → App B W → W → Dependencies
    unfolding cache_of
    dependencies_of ping_valkey a w = record {
      ping_db = a.db_ping w;
      ping_valkey = ping_valkey w;
      source = cache_of a w;
    }

    -- `statusFetch.Get`; `outbound` is the kit's client of the request's context, if it has one.
    unfoldable pub status_fetch :
        App B W → (outbound : Option (String → Result Bytes)) → String → Result Bytes
    unfolding fetched
    status_fetch a outbound rawurl = elim a.status_fetcher_override [
      | some get ↦ get rawurl
      | none ↦ fetched outbound rawurl
    ]
