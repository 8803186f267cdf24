-- ===== src/Reasons/Registry.antt =====
-- Which of the fail codes the registry knows.
use mathlib.Core.Path.{subst}
use eudi_verifier_core.Prelude.{
  ℕ, String, true, some, List, [], ◌∷◌, ◌≡◌, refl, inl, inr, text_append, str_eq, eq_iff,
  Bool-cases, All, exists,
}
use eudi_verifier_core.WalletErrors.{pins}
use eudi_verifier_core.Reasons.{register_reasons, registered}
use eudi_verifier_core.Reasons.Codes.{fail_codes, is_known}

-- The code is spelled of a domain and a registered reason.
pub record IsRegistered (code : String) : Type 0 where
  pub domain : String
  pub reason : String
  pub status : ℕ
  pub spelled : text_append "err:" (text_append domain (text_append ":" reason)) ≡ code
  pub listed : registered register_reasons reason ≡ some status

-- The code is pinned to a status, or its reason is registered with one.
pub data IsRated (code : String) : Type 0 where
  by_pin : pins code ≡ true → IsRated code
  by_reason : IsRegistered code → IsRated code

rated :
    (domain reason : String) (status : ℕ)
    → registered register_reasons reason ≡ some status
    → IsRated (text_append "err:" (text_append domain (text_append ":" reason)))
rated domain reason status h =
    by_reason
      (record { domain = domain; reason = reason; status = status; spelled = refl; listed = h })

fail_codes-IsRated : All IsRated fail_codes
unfolding registered pins
fail_codes-IsRated = (
  rated "presentation" "wallet-declined" 400 refl,
  (
    rated "presentation" "nonce-mismatch" 400 refl,
    (
      rated "presentation" "invalid-response" 400 refl,
      (
        rated "presentation" "query-unfulfilled" 422 refl,
        (
          rated "presentation" "combined-check" 422 refl,
          (
            rated "session" "consumed" 409 refl,
            (
              rated "session" "handoff-failed" 503 refl,
              (
                rated "credential" "parse" 422 refl,
                (
                  rated "credential" "integrity" 422 refl,
                  (
                    rated "credential" "binding-failed" 422 refl,
                    (
                      by_pin refl,
                      (
                        rated "credential" "issuer-cert-expired" 422 refl,
                        (
                          rated "credential" "issuer-untrusted" 422 refl,
                          (
                            rated "trust" "anchor-unavailable" 503 refl,
                            (rated "revocation" "unavailable" 422 refl, (by_pin refl, tt)),
                          ),
                        ),
                      ),
                    ),
                  ),
                ),
              ),
            ),
          ),
        ),
      ),
    ),
  ),
)

-- What holds of all elements holds of one that is among them.
among :
    (P : String → Type 0) (codes : List String) (code : String)
    → All P codes
    → exists (λ c. str_eq c code) codes ≡ true
    → P code
among P [] code p h = absurd (cc h)
among P (c ∷ codes) code p h = elim (Bool-cases (str_eq c code)) [
  | inl e ↦ let same : c ≡ code = (eq_iff c code).0 e in subst P same p.0
  | inr e ↦ among P codes code p.1 (rw e at h)
]

pub known-IsRated : (code : String) → is_known code ≡ true → IsRated code
unfolding is_known
known-IsRated code h = among IsRated fail_codes code fail_codes-IsRated h
