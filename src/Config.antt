-- ===== src/Config.antt =====
-- The service's configuration: config.go.
pub mod Validated
use eudi_verifier_core.Prelude.{
  ℕ, String, Bool, Option, none, some, List, [], ◌∷◌, ◌++◌, Duration, pos, negsuc, Int64, str_eq,
  if◌then◌else◌,
}
use eudi_verifier_core.Errors.{GoError, Result, ok, err}

-- `oid4vp.ResponseEncryption` and `oid4vp.VPFormats`, by the members that the defaults name.
pub record ResponseEncryption : Type 0 where
  pub curve : String
  pub alg : String
  pub enc_values : List String

pub record VpFormats : Type 0 where
  pub sd_jwt_alg_values : List String
  pub kb_jwt_alg_values : List String
  pub mdoc_issuer_auth_alg_values : List Int64
  pub mdoc_device_auth_alg_values : List Int64

-- `Configuration`, over the base configuration `B` of the kit.
pub record Configuration (B : Type 0) : Type 0 where
  pub base : B
  pub postgres_dsn : String
  pub valkey_url : String
  pub valkey_password : String
  -- its code points
  pub valkey_key_prefix : List ℕ
  pub public_base_url : String
  pub request_signing_key_file : String
  pub handoff_enc_key_file : String
  pub webhook_signing_key_file : String
  pub wrpac_chain_file : String
  pub client_dns_name : String
  pub universal_link_base : String
  pub response_encryption : ResponseEncryption
  pub vp_formats : VpFormats
  pub session_ttl : Duration
  pub response_code_ttl : Duration
  pub handoff_ttl : Duration
  pub max_response_body_bytes : Int64
  pub anchor_grace : Duration
  pub credential_trust_json : String
  pub dcapi_request_mode : String
  pub issuer_validity_model : String
  pub internal_api_token : String

-- A value that viper holds.
pub data Setting : Type 0 where
  span : Duration → Setting
  number : Int64 → Setting
  text : String → Setting
  encryption : ResponseEncryption → Setting
  formats : VpFormats → Setting

-- viper, over its state `S`, and `LoadRemoteSecret` of the framework's configuration.
pub record Viper (S : Type 0) : Type 0 where
  pub set_default : (key : String) → Setting → S → S
  pub bind_env : (key name : String) → S → S
  pub load_remote_secret : (name : String) → Result String
  -- `BaseConfiguration.Bind`
  pub bind_base : S → S

-- The defaults of `Bind`, in its order.
abbrev pub default_settings : List (String × Setting)
default_settings =
    ("session_ttl", span (pos 300_000_000_000))
    ∷ ("response_code_ttl", span (pos 300_000_000_000))
    ∷ ("handoff_ttl", span (pos 21_600_000_000_000))
    ∷ ("max_response_body_bytes", number (pos 1_048_576))
    ∷ ("anchor_grace", number (pos 0))
    ∷ ("dcapi_request_mode", text "signed")
    ∷ ("issuer_validity_model", text "chain")
    ∷ (
      "response_encryption",
      encryption (record { curve = "P-256"; alg = "ECDH-ES"; enc_values = "A128GCM" ∷ [] }),
    )
    ∷ (
      "vp_formats",
      formats (record {
        sd_jwt_alg_values = "ES256" ∷ [];
        kb_jwt_alg_values = "ES256" ∷ [];
        mdoc_issuer_auth_alg_values = negsuc 6 ∷ [];
        mdoc_device_auth_alg_values = negsuc 6 ∷ [];
      }),
    )
    ∷ []

-- The secrets of `Bind`, and the environment variables that it binds, in its order.
abbrev pub secrets : List (String × String)
secrets =
    ("postgres_dsn", "POSTGRES_DSN")
    ∷ ("internal_api_token", "INTERNAL_API_TOKEN")
    ∷ ("valkey_password", "VALKEY_PASSWORD")
    ∷ []

abbrev pub environment : List (String × String)
environment =
    ("postgres_dsn", "POSTGRES_DSN")
    ∷ ("valkey_url", "VALKEY_URL")
    ∷ ("valkey_password", "VALKEY_PASSWORD")
    ∷ ("valkey_key_prefix", "VALKEY_KEY_PREFIX")
    ∷ ("public_base_url", "PUBLIC_BASE_URL")
    ∷ ("request_signing_key_file", "REQUEST_SIGNING_KEY_FILE")
    ∷ ("handoff_enc_key_file", "HANDOFF_ENC_KEY_FILE")
    ∷ ("webhook_signing_key_file", "WEBHOOK_SIGNING_KEY_FILE")
    ∷ ("wrpac_chain_file", "WRPAC_CHAIN_FILE")
    ∷ ("client_dns_name", "CLIENT_DNS_NAME")
    ∷ ("universal_link_base", "UNIVERSAL_LINK_BASE")
    ∷ ("response_encryption.curve", "RESPONSE_ENCRYPTION_CURVE")
    ∷ ("response_encryption.alg", "RESPONSE_ENCRYPTION_ALG")
    ∷ ("response_encryption.encvalues", "RESPONSE_ENCRYPTION_ENCVALUES")
    ∷ ("session_ttl", "SESSION_TTL")
    ∷ ("response_code_ttl", "RESPONSE_CODE_TTL")
    ∷ ("handoff_ttl", "HANDOFF_TTL")
    ∷ ("max_response_body_bytes", "MAX_RESPONSE_BODY_BYTES")
    ∷ ("anchor_grace", "ANCHOR_GRACE")
    ∷ ("dcapi_request_mode", "DCAPI_REQUEST_MODE")
    ∷ ("issuer_validity_model", "ISSUER_VALIDITY_MODEL")
    ∷ ("credential_trust_json", "CREDENTIAL_TRUST_JSON")
    ∷ ("internal_api_token", "INTERNAL_API_TOKEN")
    ∷ []

module _ {S : Type 0} (v : Viper S) where
  -- `loadSecret`
  unfoldable pub load_secret : (key name : String) → S → S
  load_secret key name s = elim (v.load_remote_secret name) [
    | err e ↦ s
    | ok secret ↦ if str_eq secret "" then s else v.set_default key (text secret) s
  ]

  unfoldable pub set_defaults : List (String × Setting) → S → S
  set_defaults [] s = s
  set_defaults ((key, value) ∷ rest) s = set_defaults rest (v.set_default key value s)

  unfoldable pub load_secrets : List (String × String) → S → S
  load_secrets [] s = s
  load_secrets ((key, name) ∷ rest) s = load_secrets rest (load_secret key name s)

  unfoldable pub bind_all : List (String × String) → S → S
  bind_all [] s = s
  bind_all ((key, name) ∷ rest) s = bind_all rest (v.bind_env key name s)

  -- `Bind`
  unfoldable pub bind : S → S
  bind s =
      bind_all environment (load_secrets secrets (set_defaults default_settings (v.bind_base s)))

-- A rule of a field's `validate` tag; a number that it names is in the field's own unit.
pub data Rule : Type 0 where
  required url fqdn : Rule
  gt gte lte : Int64 → Rule
  oneof : List String → Rule

-- The fields of `Configuration` that have a tag, with their values and rules.
abbrev pub tagged : {B : Type 0} → Configuration B → List (Setting × List Rule)
tagged c =
    (text c.postgres_dsn, required ∷ [])
    ∷ (text c.valkey_url, required ∷ [])
    ∷ (text c.public_base_url, required ∷ url ∷ [])
    ∷ (text c.request_signing_key_file, required ∷ [])
    ∷ (text c.handoff_enc_key_file, required ∷ [])
    ∷ (text c.webhook_signing_key_file, required ∷ [])
    ∷ (text c.wrpac_chain_file, required ∷ [])
    ∷ (text c.client_dns_name, required ∷ fqdn ∷ [])
    ∷ (text c.universal_link_base, required ∷ url ∷ [])
    ∷ (span c.session_ttl, required ∷ gt (pos 0) ∷ [])
    ∷ (span c.response_code_ttl, required ∷ gt (pos 0) ∷ [])
    ∷ (span c.handoff_ttl, required ∷ gt (pos 0) ∷ lte (pos 86_400_000_000_000) ∷ [])
    ∷ (number c.max_response_body_bytes, required ∷ gt (pos 0) ∷ [])
    ∷ (span c.anchor_grace, gte (pos 0) ∷ [])
    ∷ (text c.dcapi_request_mode, required ∷ oneof ("signed" ∷ "unsigned" ∷ "both" ∷ []) ∷ [])
    ∷ (text c.issuer_validity_model, required ∷ oneof ("chain" ∷ "shell" ∷ []) ∷ [])
    ∷ []

-- The validator: `BaseConfiguration.Validate`, and `Struct` of a struct with these tags.
pub record Validator (B : Type 0) : Type 0 where
  pub validate_base : B → Option GoError
  pub struct_fields : List (Setting × List Rule) → Option GoError

-- `Validate`
unfoldable pub validate : {B : Type 0} → Validator B → Configuration B → Option GoError
validate v c = elim (v.validate_base c.base) [ some e ↦ some e | none ↦ v.struct_fields (tagged c) ]
