-- ===== src/Anchors/Freshness.antt =====
-- The freshness that readiness reports, and the one that verification asks for.
use eudi_verifier_core.Prelude.{
  ℕ, String, Bool, true, List, [], ◌∷◌, ◌≡◌, inl, inr, refl, ap, ◌∙◌, arith, Bool-cases, ◌&&◌,
  exists, str_eq, eq_iff, pos,
}
use eudi_verifier_core.Errors.{Result-cases}
use eudi_verifier_core.Anchors.{
  Valkey, is_fresh, type_fresh_for_verification, freshness, freshness_list, freshness_entry,
  fresh_in,
}

-- Whether the type is among those that the cache names.
abbrev pub is_listed : String → List String → Bool
is_listed t types = exists (λ s. str_eq s t) types

module _ (v : Valkey) where
  -- What the map says of a type: that of its own record, if it is listed.
  pub fresh_in-freshness_list :
      (t : String) (types : List String)
      → fresh_in t (freshness_list v types)
        ≡ (is_listed t types && (freshness_entry v (v.freshness_of t)).fresh)
  unfolding fresh_in freshness_list
  fresh_in-freshness_list t [] = refl
  fresh_in-freshness_list t (s ∷ rest) = elim (Bool-cases (str_eq s t)) [
    | inl e ↦ rw e (ap (λ x. (freshness_entry v (v.freshness_of x)).fresh) ((eq_iff s t).0 e))
    | inr e ↦ rw e (fresh_in-freshness_list t rest)
  ]

  entry_current :
      (t : String) (g : ℕ)
      → v.grace ≡ pos g
      → type_fresh_for_verification v t ≡ true
      → (freshness_entry v (v.freshness_of t)).fresh ≡ true
  unfolding type_fresh_for_verification is_fresh freshness_entry
  entry_current t g some_grace h = elim (Result-cases (v.freshness_of t)) [
    | inr (e, r) ↦ absurd (cc (rw (r, type_fresh_for_verification, is_fresh) at h))
    | inl (fr, r) ↦
        let fresh = rw (r, type_fresh_for_verification, is_fresh) at h in
        rw (r, freshness_entry, some_grace) (ground arith)
  ]

  entry_without_grace :
      (t : String)
      → v.grace ≡ pos 0
      → (freshness_entry v (v.freshness_of t)).fresh ≡ type_fresh_for_verification v t
  unfolding type_fresh_for_verification is_fresh freshness_entry
  entry_without_grace t no_grace = elim (Result-cases (v.freshness_of t)) [
    | inr (e, r) ↦ rw (r, type_fresh_for_verification, is_fresh) refl
    | inl (fr, r) ↦ rw (r, type_fresh_for_verification, is_fresh, no_grace) (ground arith)
  ]

-- A type that the cache names and that verification takes for current is reported fresh, however
-- long the grace; and without any grace the report says of the type what verification decides.
pub fresh_in-type_fresh_for_verification :
    (v : Valkey) (t : String) (g : ℕ)
    → v.grace ≡ pos g
    → is_listed t v.all_types ≡ true
    → (type_fresh_for_verification v t ≡ true → fresh_in t (freshness v) ≡ true)
      × (g ≡ 0 → fresh_in t (freshness v) ≡ type_fresh_for_verification v t)
unfolding freshness
fresh_in-type_fresh_for_verification v t g some_grace listed = (
  λ h. rw (fresh_in-freshness_list v t v.all_types, listed) (entry_current v t g some_grace h),
  λ z.
      rw (fresh_in-freshness_list v t v.all_types, listed)
        (entry_without_grace v t (some_grace ∙ ap pos z)),
)
