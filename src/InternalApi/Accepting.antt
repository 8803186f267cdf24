-- ===== src/InternalApi/Accepting.antt =====
-- Which requests `buildCreateInput` accepts, and what it makes of them.
use eudi_verifier_core.Prelude.{
  ℕ, String, true, none, List, [], ◌≡◌, ◌≢◌, inl, inr, refl, sym, pos, negsuc, Duration, not,
  Bool-cases,
}
use eudi_verifier_core.Errors.{ok}
use eudi_verifier_core.Libraries.{Flow, CredentialQuery}
use eudi_verifier_core.Policy.{ClientPolicy}
use eudi_verifier_core.SessionCreator.{
  CreateInput, Registration, flow_name, is_blank, registration_of, request_spec,
}
use eudi_verifier_core.InternalApi.{
  CreateRequest, Decoders, taken, decode_policy, is_negative, input_of, build_create_input,
}
use eudi_verifier_core.InternalApi.Inputs.{
  bind-taken, holds-taken, value_or-taken, nonempty_text, flow_of-named, nonempty_list,
  is_none-none, MayCome, check_origins-MayCome, MayReturn, check_redirect-MayReturn,
}

not_negative : (n : Duration) → not (is_negative n) ≡ true → (m : ℕ) × (n ≡ pos m)
unfolding is_negative
not_negative (pos m) h = (m, refl)
not_negative (negsuc m) h = absurd (cc h)

module _ (d : Decoders) where
  -- What stands behind an input that was made of a request.
  pub record Accepted (req : CreateRequest) (input : CreateInput) : Type 0 where
    pub named_client : req.client_id ≢ ""
    pub correlated : req.correlation_id ≢ ""
    pub known_flow : flow_name input.flow ≡ req.flow
    pub has_query : req.dcql_query ≢ []
    pub parsed : d.parse_query req.dcql_query ≡ ok input.query
    pub meaningful : d.validate_query input.query ≡ none
    pub may_come : MayCome d input.flow req.expected_origins
    pub may_return : MayReturn d input.flow req.redirect_uri
    pub registered : d.validate_registration req.registration ≡ none
    pub decoded : decode_policy d req.policy ≡ taken input.policy
    pub lifetime : (n : ℕ) × (req.ttl_seconds ≡ pos n)
    pub made_of : input_of req input.flow input.query input.policy ≡ input

  accept :
      (req : CreateRequest) (input : CreateInput) (flow : Flow) (query : List CredentialQuery)
      (policy : ClientPolicy)
      → req.client_id ≢ ""
      → req.correlation_id ≢ ""
      → flow_name flow ≡ req.flow
      → req.dcql_query ≢ []
      → d.parse_query req.dcql_query ≡ ok query
      → d.validate_query query ≡ none
      → MayCome d flow req.expected_origins
      → MayReturn d flow req.redirect_uri
      → d.validate_registration req.registration ≡ none
      → decode_policy d req.policy ≡ taken policy
      → ((n : ℕ) × (req.ttl_seconds ≡ pos n))
      → taken (input_of req flow query policy) ≡ taken input
      → Accepted req input
  unfolding input_of
  accept req input flow query policy a b c e f g h i j k l m =
      let same : input_of req flow query policy ≡ input = cc m in
      record {
        named_client = a;
        correlated = b;
        known_flow = rw (sym same) c;
        has_query = e;
        parsed = rw (sym same) f;
        meaningful = rw (sym same) g;
        may_come = rw (sym same) h;
        may_return = rw (sym same) i;
        registered = j;
        decoded = rw (sym same) k;
        lifetime = l;
        made_of = rw (sym same) refl;
      }

pub build_create_input-Accepted :
    (d : Decoders) (req : CreateRequest) (input : CreateInput)
    → build_create_input d req ≡ taken input
    → Accepted d req input
unfolding build_create_input
build_create_input-Accepted d req input h =
    let (client, h1) = holds-taken _ _ _ _ h in
    let (correlation, h2) = holds-taken _ _ _ _ h1 in
    let (flow, f, h3) = bind-taken _ _ _ h2 in
    let (has_query, h4) = holds-taken _ _ _ _ h3 in
    let (query, q, h5) = bind-taken _ _ _ h4 in
    let (valid, h6) = holds-taken _ _ _ _ h5 in
    let (u, origins, h7) = bind-taken _ _ _ h6 in
    let (v, redirect, h8) = bind-taken _ _ _ h7 in
    let (registered, h9) = holds-taken _ _ _ _ h8 in
    let (policy, p, h10) = bind-taken _ _ _ h9 in
    let (lifetime, made) = holds-taken _ _ _ _ h10 in
    accept d req input flow query policy (nonempty_text _ client) (nonempty_text _ correlation)
      (flow_of-named _ _ _ f) (nonempty_list _ has_query) (value_or-taken _ _ _ q)
      (is_none-none _ valid) (check_origins-MayCome d _ _ _ origins)
      (check_redirect-MayReturn d _ _ _ redirect) (is_none-none _ registered) p
      (not_negative _ lifetime) made

-- The input that was made of a request never takes the test registration, if the library's check
-- refuses a registration whose members are all empty: the engine is asked with the caller's own.
build_create_input-registration :
    (d : Decoders) (req : CreateRequest) (input : CreateInput) (url : String)
    → ((r : Registration) → is_blank r ≡ true → d.validate_registration r ≢ none)
    → build_create_input d req ≡ taken input
    → (request_spec input url).registration ≡ req.registration
unfolding request_spec registration_of input_of
build_create_input-registration d req input url refuses h =
    let a = build_create_input-Accepted d req input h in
    elim (Bool-cases (is_blank req.registration)) [
      | inl e ↦ absurd (refuses req.registration e a.registered)
      | inr e ↦ rw (sym a.made_of, request_spec, registration_of, input_of, e) refl
    ]
