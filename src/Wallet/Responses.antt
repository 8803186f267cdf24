-- ===== src/Wallet/Responses.antt =====
-- What an accepted response stands on, and how often a request object is served.
use eudi_verifier_core.Prelude.{
  ℕ, ◌≤◌, ◌<◌, String, Option, ◌≡◌, ◌⊎◌, inl, inr, refl, true, arith, Bytes, length, ltb,
  Bool-cases, Option-cases,
}
use eudi_verifier_core.Errors.{GoError, Result, ok, err, Result-cases}
use eudi_verifier_core.Libraries.{Session}
use eudi_verifier_core.Pipeline.Context.{PipelineContext}
use eudi_verifier_core.WalletErrors.{verification_outcome}
use eudi_verifier_core.Processor.{process}
use eudi_verifier_core.Processor.Answers.{Answered, process-Answered}
use eudi_verifier_core.Wallet.{
  Router, Reply, request_jwt, done, redirects, refusal, failure, wallet_error, processed, consumed,
  respond, wallet_response, rendered,
}

-- A reply that tells the wallet of success.
abbrev pub IsAccepted : Reply → Type 0
IsAccepted done = Unit
IsAccepted (redirects uri) = Unit
IsAccepted (request_jwt jar) = ⊥
IsAccepted (refusal status body) = ⊥
IsAccepted (failure status body) = ⊥

module _ {W : Type 0} (r : Router W) where
  -- What stands behind an accepted response.
  pub record Backed (token : String) (body : Bytes) (origin : String) (w : W) : Type 0 where
    pub id : String
    pub sess : Session
    pub routed : r.resolve token w ≡ ok id
    pub bounded : length body ≤ r.max_response_body
    pub claimed : (r.consume_once id w).0 ≡ ok sess
    pub answered : Answered r.app sess body origin (r.consume_once id w).1

  rendered-refused : (s : ℕ × Bytes) → IsAccepted (rendered r s) → ⊥
  unfolding rendered
  rendered-refused (status, body) h = h

  wallet_error-refused : (e : GoError) → IsAccepted (wallet_error r e) → ⊥
  unfolding wallet_error
  wallet_error-refused e h = elim (Option-cases (verification_outcome e)) [
    | inl o ↦ rendered-refused (r.error_response e) (rw (o, wallet_error) at h)
    | inr (refused, o) ↦ rw (o, wallet_error) at h
  ]

  processed-ok :
      (id : String) (w : W) (answer : Result String × Option (PipelineContext W))
      → IsAccepted (processed r id w answer).0
      → (uri : String) × (answer.0 ≡ ok uri)
  unfolding processed
  processed-ok id w (ok redirect, end) h = (redirect, refl)
  processed-ok id w (err e, end) h = absurd (wallet_error-refused e h)

  consumed-ok :
      (id : String) (body : Bytes) (origin : String) (got : Result Session × W)
      → IsAccepted (consumed r id body origin got).0
      → (sess : Session) × (got.0 ≡ ok sess) × Answered r.app sess body origin got.1
  unfolding consumed
  consumed-ok id body origin (err e, w) h = absurd (wallet_error-refused e h)
  consumed-ok id body origin (ok sess, w) h =
      let (uri, same) = processed-ok id w (process r.app sess body origin w) h in
      (sess, refl, process-Answered r.app sess body origin w uri same)

  respond-ok :
      (id : String) (body : Bytes) (origin : String) (w : W)
      → IsAccepted (respond r id body origin w).0
      → (length body ≤ r.max_response_body)
        × ((sess : Session) × ((r.consume_once id w).0 ≡ ok sess)
            × Answered r.app sess body origin (r.consume_once id w).1)
  unfolding respond
  respond-ok id body origin w h = elim (Bool-cases (ltb r.max_response_body (length body))) [
    | inl e ↦ absurd (wallet_error-refused _ (rw (e, respond) at h))
    | inr e ↦
        (ground arith, consumed-ok id body origin (r.consume_once id w) (rw (e, respond) at h))
  ]

-- A response that the wallet endpoint accepts came under a token that routes to a session, has a body
-- within the configured bound, and was the one to consume that session; and its processing stands
-- on a run of the ten checks, from the context prepared of the session's row and the client's policy,
-- that ended verified and delivered.
pub wallet_response-Backed :
    {W : Type 0} (r : Router W) (token : String) (body : Bytes) (origin : String) (w : W)
    → IsAccepted (wallet_response r token body origin w).0
    → Backed r token body origin w
unfolding wallet_response
wallet_response-Backed r token body origin w h = elim (Result-cases (r.resolve token w)) [
  | inr (e, routed) ↦ absurd (wallet_error-refused r _ (rw (routed, wallet_response) at h))
  | inl (id, routed) ↦
      let (bounded, (sess, claimed, answered)) =
        respond-ok r id body origin w (rw (routed, wallet_response) at h) in
      record {
        id = id;
        sess = sess;
        routed = routed;
        bounded = bounded;
        claimed = claimed;
        answered = answered;
      }
]

-- A response whose body is longer than the configured bound, or whose token routes to no session, is
-- not accepted and changes nothing: in particular it consumes no session.
pub wallet_response-untouched :
    {W : Type 0} (r : Router W) (token : String) (body : Bytes) (origin : String) (w : W)
    → (r.max_response_body < length body) ⊎ ((e : GoError) × (r.resolve token w ≡ err e))
    → ((wallet_response r token body origin w).1 ≡ w)
      × (IsAccepted (wallet_response r token body origin w).0 → ⊥)
unfolding wallet_response respond
wallet_response-untouched r token body origin w (inr (e, failed)) = (
  rw (failed, wallet_response) refl,
  λ h. wallet_error-refused r _ (rw (failed, wallet_response) at h),
)
wallet_response-untouched r token body origin w (inl long) =
    elim (Result-cases (r.resolve token w)) [
      | inr (e, failed) ↦ (
        rw (failed, wallet_response) refl,
        λ h. wallet_error-refused r _ (rw (failed, wallet_response) at h),
      )
      | inl (id, routed) ↦
          let over : ltb r.max_response_body (length body) ≡ true = ground arith in
          (
            rw (routed, wallet_response, respond, over) refl,
            λ h. wallet_error-refused r _ (rw (routed, wallet_response, respond, over) at h),
          )
    ]
