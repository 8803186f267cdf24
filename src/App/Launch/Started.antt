-- ===== src/App/Launch/Started.antt =====
-- What is known of a service that runs.
use mathlib.Core.Path.{subst}
use eudi_verifier_core.Prelude.{String, none, some, ◌≡◌, inl, inr, refl, ap, All, Bytes}
use eudi_verifier_core.Errors.{ok, Result-cases}
use eudi_verifier_core.Config.{Configuration, Validator, validate}
use eudi_verifier_core.Config.Validated.{IsValidator, IsUsable, validate-IsUsable}
use eudi_verifier_core.Routes
use eudi_verifier_core.Routes.Guarded.{IsGuarded, init-IsGuarded}
use eudi_verifier_core.App.{App}
use eudi_verifier_core.App.Init.{Outside, assembled, init}
use eudi_verifier_core.App.Init.Wired.{Steps, IsWired, init-IsWired}
use eudi_verifier_core.App.Serving.{Handlers, processor_of}
use eudi_verifier_core.App.Launch.{Framework, set_up, new, Running, unserved, with_routes, run_web}

-- The framework validates the configuration that it loads.
pub record Validates {B R : Type 0} (f : Framework B R) (v : Validator B) : Type 0 where
  pub accepted :
      (name version : String) (c : Configuration B)
      → f.new_server name version ≡ ok c
      → validate v c ≡ none

-- A running service: its configuration is a usable one, its parts are wired from it, its internal
-- handlers stand behind the gate for its token, and its responses go to the processor of its parts.
pub record IsServing {B W : Type 0} (sha256 : Bytes → Bytes) (h : Handlers W) (o : Outside B W)
    (s : Running B W) : Type 0 where
  pub config : Configuration B
  pub usable : IsUsable config
  pub steps : Steps o config s.app
  pub wired : IsWired o config s.app
  pub guarded : All (IsGuarded sha256 config.internal_api_token) s.served.routes
  pub answers : s.served.processor ≡ some (processor_of h s.app)

-- A service that runs is the one that `New` made, with its routes.
made_by :
    {B W R : Type 0} (sha256 : Bytes → Bytes) (h : Handlers W) (o : Outside B W) (f : Framework B R)
    (version : String) (r : R) (s : Running B W)
    → run_web sha256 h o f version r ≡ ok s
    → (a : App B W) × ((new o f version r).0 ≡ ok a) × (with_routes sha256 h a ≡ s)
unfolding run_web
made_by sha256 h o f version r s runs = elim (Result-cases (new o f version r).0) [
  | inl (a, e) ↦ (a, e, cc (rw (run_web, e) at runs))
  | inr (e, failed) ↦ absurd (cc (rw (run_web, failed) at runs))
]

-- It was set up from a configuration that the framework loaded.
loaded_by :
    {B W R : Type 0} (o : Outside B W) (f : Framework B R) (version : String) (r : R) (a : App B W)
    → (new o f version r).0 ≡ ok a
    → (c : Configuration B) × (f.new_server "EUDI Verifier Core" version ≡ ok c) × (init o c ≡ ok a)
unfolding new set_up
loaded_by o f version r a made = elim (Result-cases (f.new_server "EUDI Verifier Core" version)) [
  | inl (c, e) ↦ (c, e, rw (new, e, set_up) at made)
  | inr (e, failed) ↦ absurd (cc (rw (new, failed, set_up) at made))
]

serving :
    {B W : Type 0} (sha256 : Bytes → Bytes) (h : Handlers W) (o : Outside B W) (c : Configuration B)
    (a : App B W)
    → IsUsable c
    → init o c ≡ ok a
    → IsServing sha256 h o (with_routes sha256 h a)
unfolding with_routes Routes.init assembled
serving {B = B} {W = W} sha256 h o c a usable started =
    let (steps, wired) = init-IsWired o c a started in
    let config : a.config ≡ c = ap (λ (x : App B W). x.config) steps.made in
    record {
      config = c;
      usable = usable;
      steps = steps;
      wired = wired;
      guarded =
          subst
            (λ (x : Configuration B).
              All (IsGuarded sha256 x.internal_api_token) (with_routes sha256 h a).served.routes)
            config
            (init-IsGuarded sha256 (processor_of h a) a.config.internal_api_token unserved tt).0;
      answers = refl;
    }

-- If the framework validates what it loads, a service that runs has a usable configuration, parts
-- that are wired from it, internal handlers that only the gate for its token leads to, and the
-- processor of these parts for the responses.
pub run_web-IsServing :
    {B W R : Type 0} (sha256 : Bytes → Bytes) (h : Handlers W) (o : Outside B W) (f : Framework B R)
    (v : Validator B) (version : String) (r : R) (s : Running B W)
    → IsValidator v
    → Validates f v
    → run_web sha256 h o f version r ≡ ok s
    → IsServing sha256 h o s
run_web-IsServing sha256 h o f v version r s laws valid runs =
    let (a, made, same) = made_by sha256 h o f version r s runs in
    let (c, loaded, started) = loaded_by o f version r a made in
    subst (IsServing sha256 h o) same (
      serving sha256 h o c a (validate-IsUsable v c laws (valid.accepted _ version c loaded))
        started)
