-- ===== src/Reasons.antt =====
-- The reasons that the service teaches the registry of problems: reasons.go.
pub mod Codes
pub mod Rows
pub mod Registry
pub mod Ratings
use eudi_verifier_core.Prelude.{ℕ, String, Option, none, some, List, [], ◌∷◌, str_eq, if◌then◌else◌}

-- `ReasonSpec`, with the reason that it is registered under.
pub record ReasonSpec : Type 0 where
  pub reason : String
  pub status : ℕ
  pub title : String

abbrev reg : String → ℕ → String → ReasonSpec
reg reason status title = record { reason = reason; status = status; title = title }

-- `RegisterReasons`, as the list of what it registers.
abbrev pub register_reasons : List ReasonSpec
register_reasons =
    reg "consumed" 409 "Session already consumed"
    ∷ reg "invalid-response" 400 "Invalid presentation response"
    ∷ reg "nonce-mismatch" 400 "Nonce binding failed"
    ∷ reg "query-unfulfilled" 422 "Query not fulfilled"
    ∷ reg "combined-check" 422 "Combined presentation check failed"
    ∷ reg "parse" 422 "Credential malformed"
    ∷ reg "issuer-untrusted" 422 "Issuer not trusted"
    ∷ reg "issuer-cert-expired" 422 "Issuer certificate expired"
    ∷ reg "wallet-declined" 400 "Wallet reported an error"
    ∷ reg "integrity" 422 "Credential integrity check failed"
    ∷ reg "binding-failed" 422 "Device or user binding failed"
    ∷ reg "unavailable" 422 "Revocation status unavailable"
    ∷ reg "anchor-unavailable" 503 "Trust anchors unavailable"
    ∷ reg "handoff-failed" 503 "Result handoff failed"
    ∷ reg "internal" 500 "Internal verification error"
    ∷ []

-- The status that a reason is registered with.
unfoldable pub registered : List ReasonSpec → String → Option ℕ
registered [] reason = none
registered (r ∷ rest) reason =
    let later = registered rest reason in if str_eq r.reason reason then some r.status else later
