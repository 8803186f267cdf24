-- ===== src/Errors.antt =====
-- Go's `error` values as the program inspects them: the message, what `errors.Is` answers for the
-- sentinels that the source names, and the two typed errors that it extracts by `errors.As`.
use eudi_verifier_core.Prelude.{
  ℕ, String, Bool, false, Option, none, Bytes, bytes, ◌++◌, ◌≡◌, refl, ◌⊎◌, inl, inr,
}

-- The sentinels of the composed libraries that the source tests for.
pub data Sentinel : Type 0 where
  sdjwt_malformed sdjwt_digest_mismatch sdjwt_duplicate_digest sdjwt_claim_collision : Sentinel
  sdjwt_kb_required sdjwt_kb_type sdjwt_kb_signature sdjwt_kb_audience : Sentinel
  sdjwt_kb_nonce sdjwt_kb_stale sdjwt_kb_sd_hash sdjwt_missing_cnf : Sentinel
  sdjwt_expired sdjwt_not_yet_valid : Sentinel
  mdoc_malformed mdoc_integrity mdoc_device_auth mdoc_device_mac_unsupported : Sentinel
  mdoc_validity mdoc_issuer_cert_validity : Sentinel
  trust_cache_expired trust_chain_out_of_validity trust_chain_untrusted : Sentinel
  trust_unknown_anchor_type trustcache_expired : Sentinel
  oid4vp_state_mismatch oid4vp_session_consumed oid4vp_session_not_found : Sentinel
  oid4vp_session_invalid oid4vp_request_uri_consumed oid4vp_body_too_large : Sentinel
  context_canceled context_deadline_exceeded : Sentinel

-- `oid4vp.WalletError`: the wallet posted an error response.
pub record WalletError : Type 0 where
  pub code : String
  pub description : String

-- `pkerrors.Problem`
pub record Problem : Type 0 where
  pub code : String
  pub status : ℕ

pub record GoError : Type 0 where
  pub message : Bytes
  pub is : Sentinel → Bool
  pub declined : Option WalletError
  pub problem : Option Problem

-- A Go function's `(A, error)`.
pub data Result (A : Type 0) : Type 0 where
  ok : A → Result A
  err : GoError → Result A

-- An error that wraps no other.
abbrev pub plain : Bytes → GoError
plain message = record { message = message; is = λ s. false; declined = none; problem = none }

-- `fmt.Errorf("%w: text", e)`
abbrev pub wrap : GoError → Bytes → GoError
wrap e text = record e { message = e.message ++ (bytes ": " ++ text) }

-- To split on a computed result and keep the equation.
pub Result-cases :
    {A : Type 0} (r : Result A) → ((a : A) × (r ≡ ok a)) ⊎ ((e : GoError) × (r ≡ err e))
Result-cases (ok a) = inl (a, refl)
Result-cases (err e) = inr (e, refl)
