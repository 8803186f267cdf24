-- ===== src/Routes.antt =====
-- The routes of the service: routes/router.go and routes/health.go, with `bindWallet` of
-- routes/wallet.go and `bindInternal` of routes/internal.go.
pub mod Guarded
use eudi_verifier_core.Prelude.{
  String, Option, none, some, List, [], ◌∷◌, ◌++◌, Bytes, is_none, str_eq, not, bytes,
  if◌then◌else◌,
}

pub data Method : Type 0 where
  get post delete : Method

-- The handlers that the routes name.
pub data Handler : Type 0 where
  healthz readyz jwks : Handler
  request_object wallet_response : Handler
  internal_create_session internal_delete_session internal_session_report : Handler
  internal_trust_status : Handler

-- A route as it is given to the router: the group that it is registered on, and the hash that the
-- group's gate compares with, if it has a gate.
pub record Route : Type 0 where
  pub method : Method
  pub group : String
  pub gate : Option Bytes
  pub path : String
  pub handler : Handler

-- What `Init` changes of the application: its routes, in the order of their registration, and the
-- processor of wallet responses, a value of a type `P`.
pub record Served (P : Type 0) : Type 0 where
  pub routes : List Route
  pub processor : Option P

-- A route on the application itself, and one on the gated group.
abbrev pub plain : Method → String → Handler → Route
plain method path handler = record {
  method = method;
  group = "";
  gate = none;
  path = path;
  handler = handler;
}

abbrev pub gated : Bytes → Method → String → Handler → Route
gated configured_hash method path handler = record {
  method = method;
  group = "/internal/v1";
  gate = some configured_hash;
  path = path;
  handler = handler;
}

-- `bindWallet`
unfoldable pub bind_wallet : List Route
bind_wallet =
    plain get "/wallet/{sessionID}/request.jwt" request_object
    ∷ plain post "/wallet/{sessionID}/response" wallet_response
    ∷ []

-- `bindInternal`
unfoldable pub bind_internal : (sha256 : Bytes → Bytes) → (token : String) → List Route
bind_internal sha256 token =
    gated (sha256 (bytes token)) post "/sessions" internal_create_session
    ∷ gated (sha256 (bytes token)) delete "/sessions/{sessionID}" internal_delete_session
    ∷ gated (sha256 (bytes token)) get "/sessions/{sessionID}/report" internal_session_report
    ∷ gated (sha256 (bytes token)) get "/trust-status" internal_trust_status
    ∷ []

installed : {P : Type 0} → P → Option P → P
installed pipeline none = pipeline
installed pipeline (some p) = p

-- `Init`, with the processor that `NewPipelineProcessor` makes and the configured token.
unfoldable pub init :
    {P : Type 0}
    → (sha256 : Bytes → Bytes) → (pipeline : P) → (token : String) → Served P
    → Served P
unfolding bind_wallet bind_internal installed
init sha256 pipeline token a = record {
  processor = some (installed pipeline a.processor);
  routes =
      a.routes
      ++ (plain get "/healthz" healthz
            ∷ plain get "/readyz" readyz
            ∷ plain get "/.well-known/verifier-jwks.json" jwks
            ∷ bind_wallet
          ++ (if not (str_eq token "") then bind_internal sha256 token else []));
}

-- `healthz`: the body of its answer.
unfoldable pub healthz_body : List (String × String)
healthz_body = ("status", "ok") ∷ []
