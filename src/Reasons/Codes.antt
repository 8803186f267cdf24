-- ===== src/Reasons/Codes.antt =====
-- The fail codes of the ten checks, and their ratings.
use eudi_verifier_core.Prelude.{
  String, Bool, true, false, Option, none, some, List, [], ◌∷◌, ◌≡◌, inl, inr, refl, sym, ◌∙◌,
  Bool-cases, Option-cases, exists, ◌||◌, not, str_eq, Bytes, if◌then◌else◌,
}
use eudi_verifier_core.Errors.{GoError, Sentinel}
use eudi_verifier_core.Libraries.{MatchResult}
use eudi_verifier_core.Pipeline.Names
use eudi_verifier_core.Pipeline.Report.{
  Outcome, unset, pass, fail, skipped, CheckResult, failure, passed,
}
use eudi_verifier_core.Pipeline.Classify.{classify_format_error, classify_oid4vp}
use eudi_verifier_core.Pipeline.Context.{Credential}
use eudi_verifier_core.Pipeline.Engine.{is_fail}
use eudi_verifier_core.Pipeline.Checks.DataIntegrity.{find_deferred}
use eudi_verifier_core.Pipeline.Checks.UserBinding.{check_users, is_pass}
use eudi_verifier_core.Pipeline.Checks.QueryFulfilment.{fulfilment}
use eudi_verifier_core.Pipeline.Checks.CombinedChecks.{combined}
use eudi_verifier_core.Pipeline.Checks.AssembleForward
use eudi_verifier_core.Pipeline.Checks.AssembleForward.{assemble_forward}
use eudi_verifier_core.Pipeline.Checks.Revocation.{is_revoked}

-- The codes that the checks fail with.
abbrev pub fail_codes : List String
fail_codes =
    "err:presentation:wallet-declined" ∷ "err:presentation:nonce-mismatch"
    ∷ "err:presentation:invalid-response" ∷ "err:presentation:query-unfulfilled"
    ∷ "err:presentation:combined-check" ∷ "err:session:consumed" ∷ "err:session:handoff-failed"
    ∷ "err:credential:parse" ∷ "err:credential:integrity" ∷ "err:credential:binding-failed"
    ∷ "err:credential:expired" ∷ "err:credential:issuer-cert-expired"
    ∷ "err:credential:issuer-untrusted" ∷ "err:trust:anchor-unavailable"
    ∷ "err:revocation:unavailable" ∷ "err:revocation:revoked" ∷ []

unfoldable pub is_known : String → Bool
is_known code = exists (λ c. str_eq c code) fail_codes

-- The code that comes with a step is known.
pub record HasKnown (p : String × String) : Type 0 where
  pub known : is_known p.1 ≡ true

unfoldable pub is_set : Outcome → Bool
is_set unset = false
is_set pass = true
is_set fail = true
is_set skipped = true

-- A row that fails has a known code, and every row has an outcome.
pub record IsAccounted (r : CheckResult) : Type 0 where
  pub accounts : is_fail r.outcome ≡ true → is_known r.code ≡ true
  pub judged : is_set r.outcome ≡ true

pub either : {A : Type 0} (P : A → Type 0) (b : Bool) {x y : A} → P x → P y → P (if b then x else y)
either P true p q = p
either P false p q = q

has : (step code : String) → is_known code ≡ true → HasKnown (step, code)
has step code h = record { known = h }

pub fails_known :
    (code : String) (detail : Bytes) → is_known code ≡ true → IsAccounted (failure code detail)
unfolding is_set
fails_known code detail h = record { accounts = λ f. h; judged = refl }

pub passes : (r : CheckResult) → is_fail r.outcome ≡ false → is_set r.outcome ≡ true → IsAccounted r
passes r same known = record { accounts = λ h. absurd (cc (sym same ∙ h)); judged = known }

pub classify_format_error-HasKnown : (e : GoError) → HasKnown (classify_format_error e)
unfolding classify_format_error is_known
classify_format_error-HasKnown e =
    either HasKnown (e.is Sentinel.sdjwt_malformed || e.is Sentinel.mdoc_malformed)
      (has Names.parse "err:credential:parse" refl)
      (either HasKnown
        (e.is Sentinel.sdjwt_digest_mismatch
          || e.is Sentinel.mdoc_integrity
          || e.is Sentinel.sdjwt_duplicate_digest
          || e.is Sentinel.sdjwt_claim_collision)
        (has Names.data_integrity "err:credential:integrity" refl)
        (either HasKnown
          (e.is Sentinel.sdjwt_kb_required
            || e.is Sentinel.sdjwt_kb_type
            || e.is Sentinel.sdjwt_kb_signature
            || e.is Sentinel.sdjwt_kb_audience
            || e.is Sentinel.sdjwt_kb_nonce
            || e.is Sentinel.sdjwt_kb_stale
            || e.is Sentinel.sdjwt_kb_sd_hash
            || e.is Sentinel.sdjwt_missing_cnf
            || e.is Sentinel.mdoc_device_auth
            || e.is Sentinel.mdoc_device_mac_unsupported)
          (has Names.device_binding "err:credential:binding-failed" refl)
          (either HasKnown (e.is Sentinel.trust_cache_expired)
            (has Names.issuer_authenticity "err:trust:anchor-unavailable" refl)
            (either HasKnown
              (e.is Sentinel.sdjwt_expired
                || e.is Sentinel.mdoc_validity
                || e.is Sentinel.sdjwt_not_yet_valid)
              (has Names.issuer_authenticity "err:credential:expired" refl)
              (either HasKnown
                (e.is Sentinel.trust_chain_out_of_validity
                  || e.is Sentinel.mdoc_issuer_cert_validity)
                (has Names.issuer_authenticity "err:credential:issuer-cert-expired" refl)
                (has Names.issuer_authenticity "err:credential:issuer-untrusted" refl))))))

pub classify_oid4vp-known : (e : GoError) → is_known (classify_oid4vp e) ≡ true
unfolding classify_oid4vp is_known
classify_oid4vp-known e = elim (Option-cases e.declined) [
  | inr (d, c) ↦ rw (c, classify_oid4vp) refl
  | inl c ↦ elim (Bool-cases (e.is Sentinel.oid4vp_state_mismatch)) [
    | inl m ↦ rw (c, classify_oid4vp, m) refl
    | inr m ↦ elim (Bool-cases (e.is Sentinel.oid4vp_session_consumed)) [
      | inl x ↦ rw (c, classify_oid4vp, m, x) refl
      | inr x ↦ rw (c, classify_oid4vp, m, x) refl
    ]
  ]
]

pub integral : (creds : List Credential) → IsAccounted (find_deferred creds)
unfolding find_deferred is_known is_set
integral [] = passes _ refl refl
integral (cred ∷ rest) =
    either IsAccounted (str_eq cred.deferred_step Names.data_integrity)
      (fails_known "err:credential:integrity" _ refl) (integral rest)

pub users : (creds : List Credential) → IsAccounted (check_users creds)
unfolding check_users is_known is_pass is_set
users [] = passes _ refl refl
users (cred ∷ rest) =
    either IsAccounted (not (is_pass cred.device_binding_check))
      (fails_known "err:credential:binding-failed" _ refl)
      (either IsAccounted (is_revoked cred.status_result)
        (fails_known "err:credential:binding-failed" _ refl) (users rest))

pub matched : (m : MatchResult) → IsAccounted (fulfilment m)
unfolding fulfilment is_known is_set
matched m =
    either IsAccounted m.satisfied (passes passed refl refl)
      (fails_known "err:presentation:query-unfulfilled" _ refl)

pub apart : (o : Option (Credential × Credential)) → IsAccounted (combined o)
unfolding combined is_known is_set
apart none = passes _ refl refl
apart (some (a, b)) = fails_known "err:presentation:combined-check" _ refl

pub forwarded : (o : Option GoError) → IsAccounted (AssembleForward.verdict o)
unfolding AssembleForward.verdict is_known is_set
forwarded none = passes _ refl refl
forwarded (some e) = fails_known "err:session:handoff-failed" _ refl
