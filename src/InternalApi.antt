-- ===== src/InternalApi.antt =====
-- The cluster-internal session API: routes/internal.go.
pub mod Inputs
pub mod Accepting
pub mod Lifetime
pub mod Bearer
pub mod Handlers
use eudi_verifier_core.Prelude.{
  ℕ, String, Bool, true, false, Option, none, some, List, [], ◌∷◌, ◌++◌, ◌||◌, ◌&&◌, not, Bytes,
  bytes, bytes_equal, Int64, Duration, pos, negsuc, seconds, Time, str_eq, ◌==◌, is_none, exists,
  if◌then◌else◌,
}
use eudi_verifier_core.Errors.{GoError, Result, ok, err}
use eudi_verifier_core.Libraries.{Flow, same_device, cross_device, dcapi, CredentialQuery}
use eudi_verifier_core.Policy.{ClientPolicy, defaults}
use eudi_verifier_core.SessionCreator.{CreateInput, Registration}

-- `strings.CutPrefix`
abbrev pub cut_prefix : Bytes → Bytes → Option Bytes
cut_prefix [] s = some s
cut_prefix (p ∷ ps) [] = none
cut_prefix (p ∷ ps) (c ∷ s) = let rest = cut_prefix ps s in if p == c then rest else none

-- The token of the header; a header without the scheme presents the empty one.
unfoldable pub presented : Bytes → Bytes
presented header = elim (cut_prefix (bytes "Bearer ") header) [ some token ↦ token | none ↦ [] ]

-- `internalBearerAuth`: whether the request reaches its handler.
unfoldable pub authorized : (sha256 : Bytes → Bytes) (configured_hash header : Bytes) → Bool
unfolding presented
authorized sha256 configured_hash header = bytes_equal (sha256 (presented header)) configured_hash

-- `internalCreateRequest`
pub record CreateRequest : Type 0 where
  pub client_id : String
  pub correlation_id : String
  pub flow : String
  pub dcql_query : Bytes
  pub policy : Bytes
  pub webhook_url : String
  pub redirect_uri : String
  pub registration : Registration
  pub wrprc : Bytes
  pub expected_origins : List String
  pub ttl_seconds : Int64

-- `url.URL`
pub record Url : Type 0 where
  pub scheme : String
  pub host : String
  pub path : String
  pub raw_query : String
  pub fragment : String
  pub has_user : Bool

-- The decoders and validators that the request goes through.
pub record Decoders : Type 0 where
  pub parse_query : Bytes → Result (List CredentialQuery)
  pub validate_query : List CredentialQuery → Option GoError
  pub parse_url : String → Result Url
  pub validate_registration : Registration → Option GoError
  pub unmarshal_policy : Bytes → Result ClientPolicy

-- `azugo.ParamRequiredError` and `azugo.ParamInvalidError`
pub data ParamError : Type 0 where
  required : (name : String) → ParamError
  invalid : (name tag : String) → ParamError

pub data Checked (A : Type 0) : Type 0 where
  refused : ParamError → Checked A
  taken : A → Checked A

infixl 5 ◌>>=◌
abbrev pub ◌>>=◌ : {A B : Type 0} → Checked A → (A → Checked B) → Checked B
refused e >>= f = refused e
taken a >>= f = f a

-- Goes on if the test holds.
abbrev pub holds_or : Bool → ParamError → Checked Unit
holds_or true e = taken tt
holds_or false e = refused e

abbrev pub value_or : {A : Type 0} → Result A → ParamError → Checked A
value_or (ok a) e = taken a
value_or (err x) e = refused e

-- `internalFlows`
unfoldable pub flow_of : String → ParamError → Checked Flow
flow_of name e =
    if str_eq name "same_device"
    then taken same_device
    else if str_eq name "cross_device"
    then taken cross_device
    else if str_eq name "dcapi"
    then taken dcapi
    else refused e

abbrev is_empty : {A : Type 0} → List A → Bool
is_empty [] = true
is_empty (x ∷ xs) = false

is_negative : Int64 → Bool
is_negative (pos n) = false
is_negative (negsuc n) = true

-- The input for a request that passed.
unfoldable pub input_of : CreateRequest → Flow → List CredentialQuery → ClientPolicy → CreateInput
input_of req flow query policy = record {
  client_id = req.client_id;
  correlation_id = req.correlation_id;
  flow = flow;
  query = query;
  policy = policy;
  webhook_url = req.webhook_url;
  redirect_uri = req.redirect_uri;
  registration = req.registration;
  wrprc = req.wrprc;
  expected_origins = req.expected_origins;
  ttl = seconds req.ttl_seconds;
}

module _ (d : Decoders) where
  https_url : Result Url → Bool
  https_url (err e) = false
  https_url (ok u) = not (not (str_eq u.scheme "https") || str_eq u.host "")

  -- `validHTTPSURL`, true for a nil error
  unfoldable pub valid_https_url : String → Bool
  unfolding https_url
  valid_https_url raw = if str_eq raw "" then false else https_url (d.parse_url raw)

  web_origin : Result Url → Bool
  web_origin (err e) = false
  web_origin (ok u) = not (
      not (str_eq u.scheme "https")
      || (str_eq u.host ""
          || (not (str_eq u.path "")
              || (not (str_eq u.raw_query "") || (not (str_eq u.fragment "") || u.has_user)))))

  -- `validWebOrigin`, true for a nil error
  unfoldable pub valid_web_origin : String → Bool
  unfolding web_origin
  valid_web_origin raw = web_origin (d.parse_url raw)

  -- The loop over the origins.
  unfoldable pub origins_ok : List String → Bool
  origins_ok [] = true
  origins_ok (o ∷ rest) = if not (valid_web_origin o) then false else origins_ok rest

  -- The origins of the browser's flow, and of the others.
  unfoldable pub check_origins : Flow → List String → Checked Unit
  check_origins dcapi origins = do
    _ ← holds_or (not (is_empty origins)) (required "expected_origins")
    holds_or (origins_ok origins) (invalid "expected_origins" "origin")
  check_origins same_device origins =
      holds_or (is_empty origins) (invalid "expected_origins" "dcapi_only")
  check_origins cross_device origins =
      holds_or (is_empty origins) (invalid "expected_origins" "dcapi_only")

  -- The same-device return target.
  unfoldable pub check_redirect : Flow → String → Checked Unit
  check_redirect same_device uri = do
    _ ← holds_or (not (str_eq uri "")) (required "redirect_uri")
    holds_or (valid_https_url uri) (invalid "redirect_uri" "https_url")
  check_redirect cross_device uri = taken tt
  check_redirect dcapi uri = taken tt

  unfoldable pub decode_policy : Bytes → Checked ClientPolicy
  decode_policy [] = taken defaults
  decode_policy (b ∷ raw) = value_or (d.unmarshal_policy (b ∷ raw)) (invalid "policy" "json")

  -- `buildCreateInput`
  unfoldable pub build_create_input : CreateRequest → Checked CreateInput
  unfolding check_origins check_redirect decode_policy is_negative input_of flow_of
  build_create_input req = do
    _ ← holds_or (not (str_eq req.client_id "")) (required "client_id")
    _ ← holds_or (not (str_eq req.correlation_id "")) (required "correlation_id")
    flow ← flow_of req.flow (invalid "flow" "oneof=same_device cross_device dcapi")
    _ ← holds_or (not (is_empty req.dcql_query)) (required "dcql_query")
    query ← value_or (d.parse_query req.dcql_query) (invalid "dcql_query" "dcql")
    _ ← holds_or (is_none (d.validate_query query)) (invalid "dcql_query" "dcql")
    _ ← check_origins flow req.expected_origins
    _ ← check_redirect flow req.redirect_uri
    _ ←
        holds_or (is_none (d.validate_registration req.registration))
          (invalid "registration" "rprc19a")
    policy ← decode_policy req.policy
    _ ← holds_or (not (is_negative req.ttl_seconds)) (invalid "ttl_seconds" "gte=0")
    taken (input_of req flow query policy)
