-- ===== src/Examples/Startup.antt =====
-- The configuration of a service, its creator and its published state.
use eudi_verifier_core.Prelude.{
  String, Bool, true, false, not, none, some, List, [], ◌∷◌, ◌≡◌, ◌≢◌, ◌&&◌, inl, inr, refl, sym,
  arith, All, pos, shorter, exists, str_eq, eq_iff, Bool-cases, if◌then◌else◌,
}
use eudi_verifier_core.Errors.{ok, plain}
use eudi_verifier_core.Config.{
  Setting, span, number, text, Rule, required, gt, gte, lte, oneof, Validator, validate,
}
use eudi_verifier_core.Config.Validated.{Honours, IsValidator}
use eudi_verifier_core.Libraries.{same_device}
use eudi_verifier_core.Policy.{defaults}
use eudi_verifier_core.ValkeyStore.{save}
use eudi_verifier_core.RespondTokens.{put}
use eudi_verifier_core.SessionCreator.{
  CreateInput, Created, create, effective_ttl, response_url, signed_dcapi_required,
}
use eudi_verifier_core.SessionDb
use eudi_verifier_core.SessionDb.{new_pg}
use eudi_verifier_core.App.{set_session_db}
use eudi_verifier_core.App.Init
use eudi_verifier_core.App.Launch.{Framework, Running, with_routes, new, run_web}
use eudi_verifier_core.App.Launch.Started.{Validates, IsServing, run_web-IsServing}
use eudi_verifier_core.Examples.Wallet.{session}
use eudi_verifier_core.SessionDb.{MetadataStore}
use eudi_verifier_core.App.{creator_of, session_creator}
use eudi_verifier_core.App.Creating.{
  Seam, asks_creator, sets_session_db, steps, session_creator-current,
}
use eudi_verifier_core.App.Creating.Addressed.{IsAddressed, create-IsAddressed}
use eudi_verifier_core.Examples.Parts.{configuration, handlers}
use eudi_verifier_core.Examples.Service.{W, outside, running, starts}

-- A validator that decides each rule but the two on the form of a text.
abbrev holds : Setting → Rule → Bool
holds (text t) required = not (str_eq t "")
holds (span d) (gt n) = shorter n d
holds (span d) (gte n) = not (shorter d n)
holds (span d) (lte n) = not (shorter n d)
holds (number d) (gt n) = shorter n d
holds (text t) (oneof l) = exists (λ s. str_eq s t) l
holds other rule = true

abbrev all_hold : Setting → List Rule → Bool
all_hold v [] = true
all_hold v (r ∷ rs) = holds v r && all_hold v rs

abbrev fields_hold : List (Setting × List Rule) → Bool
fields_hold [] = true
fields_hold ((v, rs) ∷ rest) = all_hold v rs && fields_hold rest

abbrev validator : Validator W
validator = record {
  validate_base = λ base. none;
  struct_fields = λ fields. if fields_hold fields then none else some (plain []);
}

not-eq : (t : String) → not (str_eq t "") ≡ true → t ≢ ""
not-eq t h e = absurd (cc (h, (eq_iff t "").1 e))

not-true : (b : Bool) → not b ≡ true → b ≡ false
not-true true h = absurd (cc h)
not-true false h = refl

and_parts : (a b : Bool) → a && b ≡ true → (a ≡ true) × (b ≡ true)
and_parts a b h = ground arith

honoured : (v : Setting) (r : Rule) → holds v r ≡ true → Honours v r
honoured (text t) required h = not-eq t h
honoured (span d) (gt n) h = h
honoured (span d) (gte n) h = not-true _ h
honoured (span d) (lte n) h = not-true _ h
honoured (number d) (gt n) h = h
honoured (text t) (oneof l) h = h
honoured other rule h = tt

rules_honoured : (v : Setting) (rs : List Rule) → all_hold v rs ≡ true → All (Honours v) rs
rules_honoured v [] h = tt
rules_honoured v (r ∷ rs) h =
    let (here, rest) = and_parts _ _ h in (honoured v r here, rules_honoured v rs rest)

fields_honoured :
    (fields : List (Setting × List Rule))
    → fields_hold fields ≡ true
    → All (λ (f : Setting × List Rule). All (Honours f.0) f.1) fields
fields_honoured [] h = tt
fields_honoured ((v, rs) ∷ rest) h =
    let (here, later) = and_parts _ _ h in (rules_honoured v rs here, fields_honoured rest later)

validator-IsValidator : IsValidator validator
validator-IsValidator = record {
  honours = λ fields h. elim (Bool-cases (fields_hold fields)) [
    | inl e ↦ fields_honoured fields e
    | inr e ↦ absurd (cc (rw e at h))
  ];
}

valid : validate validator configuration ≡ none
unfolding validate
valid = refl

-- A framework that loads this configuration.
abbrev framework : Framework W Unit
framework = record { register_reason = λ spec r. r; new_server = λ name version. ok configuration }

framework-Validates : Validates framework validator
framework-Validates = record {
  accepted = λ name version c h. let same : configuration ≡ c = cc h in rw (sym same) valid;
}

abbrev served : Running W W
served = with_routes (λ token. token) handlers running

launched : run_web (λ token. token) handlers outside framework "1.0" tt ≡ ok served
unfolding run_web new
launched = rw (run_web, new, starts) refl

run_web-IsServing_example : IsServing (λ token. token) handlers outside served
run_web-IsServing_example =
    run_web-IsServing (λ token. token) handlers outside framework validator "1.0" tt served
      validator-IsValidator framework-Validates launched

-- Another store of session rows, which is set between two sessions.
abbrev other_store : MetadataStore W
other_store = record running.session_db { set_session_status = λ id status w. (none, w) }

abbrev swaps : List (Seam W)
swaps = asks_creator ∷ sets_session_db other_store ∷ []

session_creator-current_example :
    (session_creator (λ w. 20) (λ p. ok []) (steps (λ w. 20) (λ p. ok []) swaps running)).0
    ≡ creator_of (λ w. 20) (λ p. ok []) (steps (λ w. 20) (λ p. ok []) swaps running)
session_creator-current_example =
    session_creator-current outside configuration (λ w. 20) (λ p. ok []) running swaps starts

abbrev asked : CreateInput
asked = record {
  client_id = "client";
  correlation_id = "c1";
  flow = same_device;
  query = session.query;
  policy = defaults;
  webhook_url = "";
  redirect_uri = "https://rp.example/return";
  registration = record {
    client_name = "Shop";
    client_id = "client";
    registry_uri = "https://registrar.example";
    intended_use_id = "use";
  };
  wrprc = [];
  expected_origins = [];
  ttl = pos 0;
}

abbrev given : Created
given = record {
  session_id = "s1";
  request_uri = "https://verifier.example/wallet/s1/request.jwt";
  response_uri = "https://verifier.example/wallet/t/response";
  invocation = record { link = []; dcapi_member = [] };
  expires_at = 300_000_001_000;
}

created :
    (create
      (session_creator (λ w. 20) (λ p. ok []) (steps (λ w. 20) (λ p. ok []) swaps running)).0
      asked
      (ok "t")
      1000
      tt).0
    ≡ ok given
unfolding create session_creator steps creator_of set_session_db Init.assembled save put
    effective_ttl response_url signed_dcapi_required new_pg SessionDb.create SessionDb.get
    SessionDb.call
created = refl

create-IsAddressed_example : IsAddressed outside running given
create-IsAddressed_example =
    create-IsAddressed outside configuration (λ w. 20) (λ p. ok []) running swaps asked "t" 1000 tt
      given starts created
