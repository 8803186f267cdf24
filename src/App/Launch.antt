-- ===== src/App/Launch.antt =====
-- The start of the process: `New` of app.go and `runWeb` of cmd/server/web.go.
pub mod Started
use eudi_verifier_core.Prelude.{String, Option, none, List, [], ◌∷◌, Bytes}
use eudi_verifier_core.Errors.{Result, ok, err}
use eudi_verifier_core.Reasons.{ReasonSpec, register_reasons}
use eudi_verifier_core.Config.{Configuration}
use eudi_verifier_core.Processor
use eudi_verifier_core.Routes
use eudi_verifier_core.Routes.{Served}
use eudi_verifier_core.App.{App}
use eudi_verifier_core.App.Init
use eudi_verifier_core.App.Init.{Outside}
use eudi_verifier_core.App.Serving.{Handlers, processor_of}

-- The problem registry of the process, over its state `R`, and `server.New`, which loads the
-- configuration that it is given.
pub record Framework (B R : Type 0) : Type 0 where
  pub register_reason : ReasonSpec → R → R
  pub new_server : (app_name app_ver : String) → Result (Configuration B)

register_all : {B R : Type 0} → Framework B R → List ReasonSpec → R → R
register_all f [] r = r
register_all f (spec ∷ specs) r = register_all f specs (f.register_reason spec r)

-- The service behind `server.New`.
set_up : {B W : Type 0} → Outside B W → Result (Configuration B) → Result (App B W)
set_up o (err e) = err e
set_up o (ok config) = Init.init o config

-- `New`, with the registry before and after.
unfoldable pub new :
    {B W R : Type 0} → Outside B W → Framework B R → (version : String) → R → Result (App B W) × R
unfolding register_all set_up
new o f version r =
    (set_up o (f.new_server "EUDI Verifier Core" version), register_all f register_reasons r)

-- What `RunContext` is given: the application with its routes and its processor.
pub record Running (B W : Type 0) : Type 0 where
  pub app : App B W
  pub served : Served (Processor.App W)

-- A service that has no routes yet, and no processor.
abbrev pub unserved : {P : Type 0} → Served P
unserved = record { routes = []; processor = none }

-- `routes.Init` on a service that has no routes yet; the hash is of the token that the service was
-- configured with.
pub with_routes : {B W : Type 0} → (sha256 : Bytes → Bytes) → Handlers W → App B W → Running B W
with_routes sha256 h a = record {
  app = a;
  served = Routes.init sha256 (processor_of h a) a.config.internal_api_token unserved;
}

-- `runWeb`, up to `RunContext`.
unfoldable pub run_web :
    {B W R : Type 0}
    → (sha256 : Bytes → Bytes) → Handlers W
    → Outside B W
    → Framework B R
    → (version : String) → R
    → Result (Running B W)
unfolding with_routes
run_web sha256 h o f version r = elim (new o f version r).0 [
  | err e ↦ err e
  | ok a ↦ ok (with_routes sha256 h a)
]
