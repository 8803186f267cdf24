-- ===== src/InternalApi/Handlers/Serving.antt =====
-- What the cluster-internal API does for a caller, and what it does not do for others.
use eudi_verifier_core.Prelude.{
  String, Bool, true, false, [], ◌∷◌, ◌++◌, ◌≡◌, ◌≢◌, ◌⊎◌, inl, inr, refl, Bytes, bytes, Time,
  Bool-cases,
}
use eudi_verifier_core.Errors.{Result, ok, err, Result-cases}
use eudi_verifier_core.SessionCreator.{CreateInput, Created, create}
use eudi_verifier_core.SessionCreator.Creation.{Issued, create-Issued}
use eudi_verifier_core.InternalApi.{
  CreateRequest, ParamError, Checked, refused, taken, is_empty, presented, authorized,
  build_create_input,
}
use eudi_verifier_core.InternalApi.Accepting.{Accepted, build_create_input-Accepted}
use eudi_verifier_core.InternalApi.Bearer.{authorized_iff}
use eudi_verifier_core.InternalApi.Handlers.{
  Internal, Fault, problem, created_session, CreateResponse, no_route, unauthorized, Request,
  create_request, handle, serve, gated, answer, from_input, from_body, create_session, response_of,
}

is_refused : (b : Bool) → (b ≢ true) → b ≡ false
is_refused true h = absurd (h refl)
is_refused false h = refl

Checked-cases :
    {A : Type 0} (m : Checked A) → ((a : A) × (m ≡ taken a)) ⊎ ((e : ParamError) × (m ≡ refused e))
Checked-cases (refused e) = inr (e, refl)
Checked-cases (taken a) = inl (a, refl)

-- Whether a token is configured.
token_cases : (t : Bytes) → (is_empty t ≡ true) ⊎ ((is_empty t ≡ false) × (t ≢ []))
token_cases [] = inl refl
token_cases (b ∷ t) = inr (refl, λ e. absurd (cc e))

module _ {W : Type 0} (i : Internal W) where
  -- What stands behind a session that was created for a caller.
  pub record Served (body : Bytes) (token : String) (now : Time) (w : W) (r : CreateResponse)
      : Type 0 where
    pub req : CreateRequest
    pub input : CreateInput
    pub created : Created
    pub decoded : i.unmarshal_request body ≡ ok req
    pub accepted : Accepted i.decoders req input
    pub issued : Issued i.creator input token now w created
    pub told : response_of created ≡ r

  answer-created :
      (got : Result Created × W) (r : CreateResponse)
      → (answer got).0 ≡ created_session r
      → (created : Created) × (got.0 ≡ ok created) × (response_of created ≡ r)
  unfolding answer
  answer-created (err e, w) r h = absurd (cc h)
  answer-created (ok created, w) r h = (created, refl, cc h)

  from_body-Served :
      (body : Bytes) (token : String) (now : Time) (w : W) (r : CreateResponse)
      → (create_session i body (ok token) now w).0 ≡ created_session r
      → Served body token now w r
  unfolding create_session from_body from_input
  from_body-Served body token now w r h = elim (Result-cases (i.unmarshal_request body)) [
    | inr (e, d) ↦ absurd (cc (rw (d, create_session) at h))
    | inl (req, d) ↦ elim (Checked-cases (build_create_input i.decoders req)) [
      | inr (e, b) ↦ absurd (cc (rw (d, b, create_session, from_body, from_input) at h))
      | inl (input, b) ↦
          let (created, made, told) =
            answer-created (create i.creator input (ok token) now w) r
              (rw (d, b, create_session, from_body, from_input) at h) in
          record {
            req = req;
            input = input;
            created = created;
            decoded = d;
            accepted = build_create_input-Accepted i.decoders req input b;
            issued = create-Issued i.creator input token now w created made;
            told = told;
          }
    ]
  ]

gate_closed :
    {W : Type 0} (i : Internal W) (header : Bytes)
    → (i.sha256 (presented header) ≡ i.sha256 i.token → presented header ≡ i.token)
    → i.token ≢ []
    → (i.token ≡ []) ⊎ (header ≢ bytes "Bearer " ++ i.token)
    → authorized i.sha256 (i.sha256 i.token) header ≡ false
gate_closed i header tells given (inl e) = absurd (given e)
gate_closed i header tells given (inr other) =
    is_refused _ (λ h. other ((authorized_iff i.sha256 i.token header given tells).0 h))

-- A caller that does not present the configured token, or any caller where none is configured, is
-- refused and changes nothing, as long as the hash tells the token from what was presented.
pub serve-closed :
    {W : Type 0} (i : Internal W) (header : Bytes) (request : Request) (w : W)
    → (i.sha256 (presented header) ≡ i.sha256 i.token → presented header ≡ i.token)
    → (i.token ≡ []) ⊎ (header ≢ bytes "Bearer " ++ i.token)
    → (f : Fault) × (serve i header request w ≡ (problem f, w))
unfolding serve gated
serve-closed i header request w tells closed = elim (token_cases i.token) [
  | inl e ↦ (no_route, rw (e, serve) refl)
  | inr (e, given) ↦ (unauthorized, rw (e, serve, gate_closed i header tells given closed) refl)
]

-- If the API answers that it created a session, the caller presented the configured token, the body
-- is a request that was accepted, and the session in the answer is the one that was issued for it,
-- as long as the hash tells the token from what was presented.
pub serve-Served :
    {W : Type 0} (i : Internal W) (header body : Bytes) (token : String) (now : Time) (w : W)
    (r : CreateResponse)
    → (i.sha256 (presented header) ≡ i.sha256 i.token → presented header ≡ i.token)
    → (serve i header (create_request body (ok token) now) w).0 ≡ created_session r
    → (header ≡ bytes "Bearer " ++ i.token) × Served i body token now w r
unfolding serve gated handle
serve-Served i header body token now w r tells h = elim (token_cases i.token) [
  | inl e ↦ absurd (cc (rw (e, serve) at h))
  | inr (e, given) ↦ elim (Bool-cases (authorized i.sha256 (i.sha256 i.token) header)) [
    | inr a ↦ absurd (cc (rw (e, a, serve, gated) at h))
    | inl a ↦ (
      (authorized_iff i.sha256 i.token header given tells).0 a,
      from_body-Served i body token now w r (rw (e, a, serve, gated) at h),
    )
  ]
]
