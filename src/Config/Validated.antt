-- ===== src/Config/Validated.antt =====
-- What a configuration that passed its validation promises to the parts that are built from it.
use eudi_verifier_core.Prelude.{
  ℕ, String, true, false, none, List, [], ◌∷◌, ◌≡◌, ◌≢◌, ◌⊎◌, inl, inr, refl, arith, All, Duration,
  pos, negsuc, shorter, exists, str_eq, eq_iff, Bool-cases, Option-cases,
}
use eudi_verifier_core.Handoff.{new_queue}
use eudi_verifier_core.Config.{
  Configuration, Setting, span, number, text, Rule, required, gt, gte, lte, oneof, tagged,
  Validator, validate,
}

-- What the validator documents of a rule, for the values that the source gives it. Nothing is used
-- of the two rules on the form of a text.
abbrev pub Honours : Setting → Rule → Type 0
Honours (text t) required = t ≢ ""
Honours (span d) (gt n) = shorter n d ≡ true
Honours (span d) (gte n) = shorter d n ≡ false
Honours (span d) (lte n) = shorter n d ≡ false
Honours (number d) (gt n) = shorter n d ≡ true
Honours (text t) (oneof l) = exists (λ s. str_eq s t) l ≡ true
Honours other rule = Unit

pub record IsValidator {B : Type 0} (v : Validator B) : Type 0 where
  pub honours :
      (fields : List (Setting × List Rule))
      → v.struct_fields fields ≡ none
      → All (λ (f : Setting × List Rule). All (Honours f.0) f.1) fields

-- The lifetimes are positive, the queue of the configured lifetime keeps it, the body bound is
-- positive, the two modes are among those that the code knows, and what the service needs to run is
-- there.
pub record IsUsable {B : Type 0} (c : Configuration B) : Type 0 where
  pub session : shorter (pos 0) c.session_ttl ≡ true
  pub response_code : shorter (pos 0) c.response_code_ttl ≡ true
  pub handoff : (new_queue c.handoff_ttl).ttl ≡ c.handoff_ttl
  pub body : shorter (pos 0) c.max_response_body_bytes ≡ true
  pub grace : (g : ℕ) × (c.anchor_grace ≡ pos g)
  pub mode :
      (c.dcapi_request_mode ≡ "signed")
      ⊎ ((c.dcapi_request_mode ≡ "unsigned") ⊎ (c.dcapi_request_mode ≡ "both"))
  pub model : (c.issuer_validity_model ≡ "chain") ⊎ (c.issuer_validity_model ≡ "shell")
  pub reachable : (c.valkey_url ≢ "") × (c.postgres_dsn ≢ "") × (c.public_base_url ≢ "")

queue_keeps :
    (d : Duration)
    → shorter (pos 0) d ≡ true
    → shorter (pos 86_400_000_000_000) d ≡ false
    → (new_queue d).ttl ≡ d
unfolding new_queue
queue_keeps d p q = rw (p, q) refl

not_negative : (d : Duration) → shorter d (pos 0) ≡ false → (g : ℕ) × (d ≡ pos g)
not_negative (pos g) h = (g, refl)
not_negative (negsuc n) h = absurd (cc h)

one_of_two : (t a b : String) → exists (λ s. str_eq s t) (a ∷ b ∷ []) ≡ true → (t ≡ a) ⊎ (t ≡ b)
one_of_two t a b h = elim (Bool-cases (str_eq a t)) [
  | inl e ↦ inl (cc ((eq_iff a t).0 e))
  | inr e ↦ inr (ground (arith, eq_iff b t, e))
]

one_of_three :
    (t a b c : String)
    → exists (λ s. str_eq s t) (a ∷ b ∷ c ∷ []) ≡ true
    → (t ≡ a) ⊎ ((t ≡ b) ⊎ (t ≡ c))
one_of_three t a b c h = elim (Bool-cases (str_eq a t)) [
  | inl e ↦ inl (cc ((eq_iff a t).0 e))
  | inr e ↦ inr (one_of_two t b c (rw e at h))
]

-- A configuration that `Validate` accepts is usable.
pub validate-IsUsable :
    {B : Type 0} (v : Validator B) (c : Configuration B)
    → IsValidator v
    → validate v c ≡ none
    → IsUsable c
unfolding validate
validate-IsUsable v c laws h = elim (Option-cases (v.validate_base c.base)) [
  | inr (e, b) ↦ absurd (cc (rw (b, validate) at h))
  | inl b ↦
      let (dsn, (address, (base, (_, (_, (_, (_, (_, (_, rest))))))))) =
        laws.honours (tagged c) (rw (b, validate) at h) in
      let (session, (code, (handoff, (body, (grace, (mode, (model, _))))))) = rest in
      record {
        session = session.1.0;
        response_code = code.1.0;
        handoff = queue_keeps c.handoff_ttl handoff.1.0 handoff.1.1.0;
        body = body.1.0;
        grace = not_negative c.anchor_grace grace.0;
        mode = one_of_three c.dcapi_request_mode "signed" "unsigned" "both" mode.1.0;
        model = one_of_two c.issuer_validity_model "chain" "shell" model.1.0;
        reachable = (address.0, dsn.0, base.0);
      }
]
