-- ===== src/SessionCreator/Asking.antt =====
-- What `Create` asks of the engine, and for how long.
use eudi_verifier_core.Prelude.{
  String, true, false, ◌≡◌, ◌≢◌, ◌⊎◌, inl, inr, refl, arith, Duration, pos, shorter, eq_iff,
  Bool-cases, text_append,
}
use eudi_verifier_core.Libraries.{same_device, dcapi}
use eudi_verifier_core.SessionCreator.{
  CreateInput, Registration, RequestSpec, is_blank, registration_of, return_uri_of, response_uri_of,
  request_spec, effective_ttl, response_url,
}

-- A registration of which no field is given.
abbrev pub IsBlank : Registration → Type 0
IsBlank r =
    (r.client_name ≡ "") × (r.client_id ≡ "") × (r.registry_uri ≡ "") × (r.intended_use_id ≡ "")

-- The registration of the input, or where that is blank the one of a test client of this id.
abbrev pub Registers : CreateInput → Registration → Type 0
Registers input r =
    ((IsBlank input.registration → ⊥) × (r ≡ input.registration))
    ⊎ (IsBlank input.registration
        × (r.client_name ≡ "Test Client")
        × (r.client_id ≡ input.client_id)
        × (r.registry_uri ≡ "https://registrar.test")
        × (r.intended_use_id ≡ "test-intended-use"))

-- A request of the engine for this input, and for the response URL of this token but in the
-- browser's flow.
pub record Asks (base_url : String) (input : CreateInput) (token : String) (spec : RequestSpec)
    : Type 0 where
  pub query : spec.query ≡ input.query
  pub flow : spec.flow ≡ input.flow
  pub wrprc : spec.wrprc ≡ input.wrprc
  pub expected_origins : spec.expected_origins ≡ input.expected_origins
  pub answered_at :
      input.flow ≢ dcapi
      → spec.response_uri
        ≡ text_append base_url (text_append "/wallet/" (text_append token "/response"))
  pub in_browser : input.flow ≡ dcapi → spec.response_uri ≡ ""
  pub returning : input.flow ≡ same_device → spec.return_uri ≡ input.redirect_uri
  pub not_returning : input.flow ≢ same_device → spec.return_uri ≡ ""
  pub registers : Registers input spec.registration

is_blank-IsBlank : (r : Registration) → is_blank r ≡ true → IsBlank r
unfolding is_blank
is_blank-IsBlank r h = (
  ground (arith, eq_iff r.client_name ""),
  ground (arith, eq_iff r.client_id ""),
  ground (arith, eq_iff r.registry_uri ""),
  ground (arith, eq_iff r.intended_use_id ""),
)

not-IsBlank : (r : Registration) → is_blank r ≡ false → IsBlank r → ⊥
unfolding is_blank
not-IsBlank r h (name, id, registry, use_id) = ground (
  arith,
  eq_iff r.client_name "",
  eq_iff r.client_id "",
  eq_iff r.registry_uri "",
  eq_iff r.intended_use_id "",
)

registration_of-Registers : (input : CreateInput) → Registers input (registration_of input)
unfolding registration_of
registration_of-Registers input = elim (Bool-cases (is_blank input.registration)) [
  | inl e ↦
      rw (e, registration_of) (inr (is_blank-IsBlank input.registration e, refl, refl, refl, refl))
  | inr e ↦ inl (not-IsBlank input.registration e, rw (e, registration_of) refl)
]

pub request_spec-Asks :
    (base_url : String) (input : CreateInput) (token : String)
    → Asks base_url input token (request_spec input (response_url base_url token))
unfolding request_spec response_url response_uri_of return_uri_of
request_spec-Asks base_url input token = record {
  query = refl;
  flow = refl;
  wrprc = refl;
  expected_origins = refl;
  answered_at = λ e. ground arith;
  in_browser = λ e. rw e refl;
  returning = λ e. rw e refl;
  not_returning = λ e. ground arith;
  registers = registration_of-Registers input;
}

-- The caller's lifetime where it is positive and shorter than the configured one, else that.
abbrev pub IsClamped : (configured asked d : Duration) → Type 0
IsClamped configured asked d =
    ((shorter (pos 0) asked ≡ true) × (shorter asked configured ≡ true) × (d ≡ asked))
    ⊎ (((shorter (pos 0) asked ≡ false) ⊎ (shorter asked configured ≡ false)) × (d ≡ configured))

pub effective_ttl-IsClamped :
    (configured asked : Duration) → IsClamped configured asked (effective_ttl configured asked)
unfolding effective_ttl
effective_ttl-IsClamped configured asked = elim (Bool-cases (shorter (pos 0) asked)) [
  | inr e ↦ inr (inl e, rw (e, effective_ttl) refl)
  | inl e ↦ elim (Bool-cases (shorter asked configured)) [
    | inl l ↦ inl (e, l, rw (e, l, effective_ttl) refl)
    | inr l ↦ inr (inr l, rw (e, l, effective_ttl) refl)
  ]
]
