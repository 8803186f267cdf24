-- ===== src/InternalApi/Bearer.antt =====
-- Whom the bearer gate lets through.
use eudi_verifier_core.Prelude.{
  true, some, [], ◌∷◌, ◌++◌, ◌≡◌, ◌≢◌, ◌↔◌, inl, inr, refl, sym, ap₂, arith, Bytes, bytes,
  bytes_equal_refl, bytes_equal-eq, ◌==◌, Bool-cases, Option-cases,
}
use eudi_verifier_core.InternalApi.{cut_prefix, presented, authorized}

cut_prefix-append : (p s : Bytes) → cut_prefix p (p ++ s) ≡ some s
cut_prefix-append [] s = refl
cut_prefix-append (c ∷ p) s = ground (arith, cut_prefix-append p s)

cut_prefix-some : (p s rest : Bytes) → cut_prefix p s ≡ some rest → s ≡ p ++ rest
cut_prefix-some [] s rest h = cc h
cut_prefix-some (c ∷ p) [] rest h = absurd (cc h)
cut_prefix-some (c ∷ p) (d ∷ s) rest h = elim (Bool-cases (c == d)) [
  | inl e ↦ ap₂ (λ x xs. x ∷ xs) (ground arith) (cut_prefix-some p s rest (rw e at h))
  | inr e ↦ absurd (cc (rw e at h))
]

presented-token :
    (header token : Bytes)
    → token ≢ []
    → presented header ≡ token
    → header ≡ bytes "Bearer " ++ token
unfolding presented
presented-token header token given h = elim (Option-cases (cut_prefix (bytes "Bearer ") header)) [
  | inl e ↦ absurd (given (sym (rw (e, presented) at h)))
  | inr (rest, e) ↦
      cut_prefix-some (bytes "Bearer ") header token (rw (rw (e, presented) at h) at e)
]

presented-bearer : (token : Bytes) → presented (bytes "Bearer " ++ token) ≡ token
unfolding presented
presented-bearer token = refl

-- The gate lets a request through exactly if its header is the scheme followed by the configured
-- token, as long as the token is not empty and the hash tells the token from what was presented.
pub authorized_iff :
    (sha256 : Bytes → Bytes) (token header : Bytes)
    → token ≢ []
    → (sha256 (presented header) ≡ sha256 token → presented header ≡ token)
    → (authorized sha256 (sha256 token) header ≡ true) ↔ (header ≡ bytes "Bearer " ++ token)
unfolding authorized
authorized_iff sha256 token header given tells = (
  λ h. presented-token header token given (tells (bytes_equal-eq _ _ h)),
  λ same. rw (same, presented-bearer token) (bytes_equal_refl (sha256 token)),
)
