-- ===== src/Wallet.antt =====
-- The wallet-facing handlers: routes/wallet.go.
pub mod Responses
pub mod Single
use eudi_verifier_core.Prelude.{
  ℕ, String, Bool, true, false, Option, none, some, List, [], Bytes, bytes, length, ltb, str_eq,
  if◌then◌else◌,
}
use eudi_verifier_core.Errors.{
  GoError, Result, ok, err, Sentinel, oid4vp_session_not_found, oid4vp_request_uri_consumed,
  oid4vp_body_too_large,
}
use eudi_verifier_core.Libraries.{Session}
use eudi_verifier_core.Pipeline.Context.{PipelineContext}
use eudi_verifier_core.WalletErrors.{WalletErrorBody, verification_outcome}
use eudi_verifier_core.Processor.{App, process}

-- What the handlers take from the application, over the state `W` of its stores.
pub record Router (W : Type 0) : Type 0 where
  pub app : App W
  pub sentinel : Sentinel → GoError
  pub max_response_body : ℕ
  pub resolve : String → W → Result String
  pub load : String → W → Result Session
  pub mark_served : String → W → Result Bool × W
  pub consume_once : String → W → Result Session × W
  -- `RequestObjectJWT` and `ErrorResponse` of the protocol engine.
  pub request_object_jwt : Session → Result Bytes
  pub error_response : GoError → ℕ × Bytes

pub data Reply : Type 0 where
  -- A signed request object.
  request_jwt : Bytes → Reply
  -- The answer to an accepted response: `{}`, or the redirect that is not empty.
  done : Reply
  redirects : String → Reply
  -- An error in the protocol's shape: classified here, or as the engine renders it.
  refusal : ℕ → WalletErrorBody → Reply
  failure : ℕ → Bytes → Reply

module _ {W : Type 0} (r : Router W) where
  rendered : ℕ × Bytes → Reply
  rendered (status, body) = failure status body

  -- `walletError`
  unfoldable pub wallet_error : GoError → Reply
  unfolding rendered
  wallet_error e = elim (verification_outcome e) [
    | some (status, body) ↦ refusal status body
    | none ↦ rendered (r.error_response e)
  ]

  signed : String → Session → W → Reply × W
  unfolding wallet_error
  signed id sess w = elim (r.request_object_jwt sess) [
    | err e ↦ (wallet_error e, w)
    | ok jar ↦ (request_jwt jar, (r.app.set_status id "wallet_engaged" w).1)
  ]

  marked : String → Session → Result Bool × W → Reply × W
  unfolding wallet_error signed
  marked id sess (err e, w) = (wallet_error e, w)
  marked id sess (ok false, w) = (wallet_error (r.sentinel oid4vp_request_uri_consumed), w)
  marked id sess (ok true, w) = signed id sess w

  -- `requestObject`
  unfoldable pub request_object : String → W → Reply × W
  unfolding marked wallet_error
  request_object id w = elim (r.load id w) [
    | err e ↦ (wallet_error e, w)
    | ok sess ↦ marked id sess (r.mark_served id w)
  ]

  -- The stores behind a call of `Process`.
  world_of : W → Option (PipelineContext W) → W
  world_of w none = w
  world_of w (some pc) = pc.world

  accepted : String → Reply
  accepted redirect = if str_eq redirect "" then done else redirects redirect

  processed : String → W → Result String × Option (PipelineContext W) → Reply × W
  unfolding world_of accepted wallet_error
  processed id w (ok redirect, end) = (accepted redirect, world_of w end)
  processed id w (err e, end) = (wallet_error e, (r.app.set_status id "failed" (world_of w end)).1)

  consumed : String → Bytes → String → Result Session × W → Reply × W
  unfolding processed wallet_error
  consumed id body origin (err e, w) = (wallet_error e, w)
  consumed id body origin (ok sess, w) = processed id w (process r.app sess body origin w)

  respond : String → Bytes → String → W → Reply × W
  unfolding consumed wallet_error
  respond id body origin w =
      if ltb r.max_response_body (length body)
      then (wallet_error (r.sentinel oid4vp_body_too_large), w)
      else consumed id body origin (r.consume_once id w)

  -- `walletResponse`
  unfoldable pub wallet_response : String → Bytes → (origin : String) → W → Reply × W
  unfolding respond wallet_error
  wallet_response token body origin w = elim (r.resolve token w) [
    | err e ↦ (wallet_error (r.sentinel oid4vp_session_not_found), w)
    | ok id ↦ respond id body origin w
  ]
