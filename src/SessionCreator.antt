-- ===== src/SessionCreator.antt =====
-- Session creation: internal/sessions/creator.go.
pub mod Asking
pub mod Creation
use eudi_verifier_core.Prelude.{
  String, Bool, true, false, Option, none, some, List, [], ◌∷◌, ◌++◌, ◌&&◌, not, Bytes, bytes, Time,
  Duration, pos, shorter, add_time, str_eq, text_append, if◌then◌else◌,
}
use eudi_verifier_core.Errors.{GoError, Result, ok, err}
use eudi_verifier_core.Libraries.{Flow, same_device, cross_device, dcapi, Session, CredentialQuery}
use eudi_verifier_core.Policy.{ClientPolicy, require_signed_dcapi}

-- `rpcert.RegistrationRef`
pub record Registration : Type 0 where
  pub client_name : String
  pub client_id : String
  pub registry_uri : String
  pub intended_use_id : String

-- `CreateInput`
pub record CreateInput : Type 0 where
  pub client_id : String
  pub correlation_id : String
  pub flow : Flow
  pub query : List CredentialQuery
  pub policy : ClientPolicy
  pub webhook_url : String
  pub redirect_uri : String
  pub registration : Registration
  pub wrprc : Bytes
  pub expected_origins : List String
  pub ttl : Duration

-- `oid4vp.RequestSpec`
pub record RequestSpec : Type 0 where
  pub query : List CredentialQuery
  pub flow : Flow
  pub response_uri : String
  pub return_uri : String
  pub registration : Registration
  pub wrprc : Bytes
  pub expected_origins : List String

-- `oid4vp.WalletInvocation`; its `DCAPI` member, and the rest of it.
pub record Invocation : Type 0 where
  pub link : Bytes
  pub dcapi_member : Bytes

-- `sessiondb.CreateInput`
pub record RowInput : Type 0 where
  pub id : String
  pub client_id : String
  pub correlation_id : String
  pub flow : String
  pub policy : Bytes
  pub webhook_url : String
  pub redirect_uri : String
  pub expires_at : Time

pub record Created : Type 0 where
  pub session_id : String
  pub request_uri : String
  pub response_uri : String
  pub invocation : Invocation
  pub expires_at : Time

-- `Creator`, with the engine and the three stores that it is wired to, over their state `W`.
pub record Creator (W : Type 0) : Type 0 where
  pub new_session : RequestSpec → Result (Session × Invocation)
  pub dcapi_unsigned_request : Session → Result Bytes
  pub save : Session → W → Option GoError × W
  pub put : (token session_id : String) → Duration → W → Option GoError × W
  pub create_row : RowInput → W → Option GoError × W
  pub marshal_policy : ClientPolicy → Result Bytes
  pub base_url : String
  pub ttl : Duration
  pub dcapi_mode : String

abbrev pub prefixed : Bytes → GoError → GoError
prefixed text e = record e { message = text ++ e.message }

-- `EffectiveDCAPIMode`
unfoldable pub effective_dcapi_mode : String → String
effective_dcapi_mode mode = if str_eq mode "" then "signed" else mode

-- `signedDCAPIRequired`
unfoldable pub signed_dcapi_required : String → ClientPolicy → Bool
signed_dcapi_required mode p =
    if str_eq mode "unsigned"
    then false
    else if str_eq mode "both"
    then require_signed_dcapi p
    else true

unfoldable pub is_blank : Registration → Bool
is_blank r =
    str_eq r.client_name ""
    && (str_eq r.client_id "" && (str_eq r.registry_uri "" && str_eq r.intended_use_id ""))

-- The registration that a request embeds.
unfoldable pub registration_of : CreateInput → Registration
unfolding is_blank
registration_of input =
    if is_blank input.registration
    then record {
      client_name = "Test Client";
      client_id = input.client_id;
      registry_uri = "https://registrar.test";
      intended_use_id = "test-intended-use";
    }
    else input.registration

-- The caller may shorten the configured lifetime.
unfoldable pub effective_ttl : Duration → Duration → Duration
effective_ttl configured asked =
    if shorter (pos 0) asked && shorter asked configured then asked else configured

return_uri_of : Flow → String → String
return_uri_of same_device uri = uri
return_uri_of cross_device uri = ""
return_uri_of dcapi uri = ""

response_uri_of : Flow → String → String
response_uri_of same_device uri = uri
response_uri_of cross_device uri = uri
response_uri_of dcapi uri = ""

abbrev pub flow_name : Flow → String
flow_name same_device = "same_device"
flow_name cross_device = "cross_device"
flow_name dcapi = "dcapi"

is_dcapi : Flow → Bool
is_dcapi dcapi = true
is_dcapi same_device = false
is_dcapi cross_device = false

unfoldable pub response_url : String → String → String
response_url base_url token =
    text_append base_url (text_append "/wallet/" (text_append token "/response"))

-- What is asked of the engine.
unfoldable pub request_spec : CreateInput → String → RequestSpec
unfolding registration_of return_uri_of response_uri_of
request_spec input url = record {
  query = input.query;
  flow = input.flow;
  response_uri = response_uri_of input.flow url;
  return_uri = return_uri_of input.flow input.redirect_uri;
  registration = registration_of input;
  wrprc = input.wrprc;
  expected_origins = input.expected_origins;
}

module _ {W : Type 0} (c : Creator W) where
  -- The invocation, with the unsigned member where the deployment and the client allow it.
  unfoldable pub invocation_of : CreateInput → Session → Invocation → Result Invocation
  unfolding signed_dcapi_required is_dcapi
  invocation_of input sess inv =
      if is_dcapi input.flow && not (signed_dcapi_required c.dcapi_mode input.policy)
      then elim (c.dcapi_unsigned_request sess) [
        | err e ↦ err (prefixed (bytes "sessions: unsigned dcapi request: ") e)
        | ok member ↦ ok (record inv { dcapi_member = member })
      ]
      else ok inv

  -- Step by step from here: an error of one write is the answer, and what was written stays.
  recorded : Created → Option GoError × W → Result Created × W
  recorded created (some e, w) = (err (prefixed (bytes "sessions: metadata: ") e), w)
  recorded created (none, w) = (ok created, w)

  row_input : CreateInput → String → Bytes → Time → RowInput
  row_input input id policy expires_at = record {
    id = id;
    client_id = input.client_id;
    correlation_id = input.correlation_id;
    flow = flow_name input.flow;
    policy = policy;
    webhook_url = input.webhook_url;
    redirect_uri = input.redirect_uri;
    expires_at = expires_at;
  }

  routed : CreateInput → Created → Option GoError × W → Result Created × W
  unfolding recorded row_input
  routed input created (some e, w) = (err (prefixed (bytes "sessions: respond token: ") e), w)
  routed input created (none, w) = elim (c.marshal_policy input.policy) [
    | err e ↦ (err e, w)
    | ok policy ↦
        recorded created
          (c.create_row (row_input input created.session_id policy created.expires_at) w)
  ]

  saved : CreateInput → String → Duration → Created → Option GoError × W → Result Created × W
  unfolding routed
  saved input token ttl created (some e, w) =
      (err (prefixed (bytes "sessions: save session: ") e), w)
  saved input token ttl created (none, w) =
      routed input created (c.put token created.session_id ttl w)

  unfoldable pub created_of : CreateInput → String → (now : Time) → Session → Invocation → Created
  unfolding effective_ttl response_url
  created_of input token now sess inv = record {
    session_id = sess.id;
    request_uri =
        text_append c.base_url (text_append "/wallet/" (text_append sess.id "/request.jwt"));
    response_uri = response_url c.base_url token;
    invocation = inv;
    expires_at = add_time now (effective_ttl c.ttl input.ttl);
  }

  minted : CreateInput → String → Time → Session × Invocation → W → Result Created × W
  unfolding invocation_of saved created_of
  minted input token now (sess, inv) w = elim (invocation_of input sess inv) [
    | err e ↦ (err e, w)
    | ok chosen ↦
        saved input token (effective_ttl c.ttl input.ttl) (created_of input token now sess chosen)
          (c.save sess w)
  ]

  -- `Create`, given the routing token that was drawn and the time.
  unfoldable pub create : CreateInput → Result String → (now : Time) → W → Result Created × W
  unfolding minted request_spec
  create input (err e) now w = (err (prefixed (bytes "sessions: respond token: ") e), w)
  create input (ok token) now w =
      elim (c.new_session (request_spec input (response_url c.base_url token))) [
        | err e ↦ (err (prefixed (bytes "sessions: engine: ") e), w)
        | ok found ↦ minted input token now found w
      ]
