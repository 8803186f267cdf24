-- ===== src/Pipeline/Checks/CombinedChecks/Distinct.antt =====
-- What step 9 lets pass: no two credentials answer different queries with the same artifact.
use eudi_verifier_core.Prelude.{
  true, false, none, List, [], ◌∷◌, ◌≡◌, refl, ◌≢◌, ◌↔◌, inl, inr, arith, All, bytes_equal,
  bytes_equal_refl, bytes_equal-eq, str_eq, eq_iff, Bool-cases, Option-cases,
}
use eudi_verifier_core.Pipeline.Context.{Credential}
use eudi_verifier_core.Pipeline.Checks.CombinedChecks.{conflicts, conflict_with, first_conflict}

-- Two credentials for different queries carry different artifacts.
abbrev pub Differ : Credential → Credential → Type 0
Differ a b = a.pres.query_cred_id ≢ b.pres.query_cred_id → a.pres.payload ≢ b.pres.payload

-- Every credential differs from each one behind it.
abbrev pub AllDiffer : List Credential → Type 0
AllDiffer [] = Unit
AllDiffer (a ∷ rest) = All (Differ a) rest × AllDiffer rest

conflicts-Differ : (a b : Credential) → conflicts a b ≡ false → Differ a b
unfolding conflicts
conflicts-Differ a b e other same =
    elim (Bool-cases (str_eq a.pres.query_cred_id b.pres.query_cred_id)) [
      | inl id ↦ other ((eq_iff a.pres.query_cred_id b.pres.query_cred_id).0 id)
      | inr id ↦ cc (equal, rw id at e)
    ]
  where
    equal : bytes_equal a.pres.payload b.pres.payload ≡ true
    equal = rw (← same) (bytes_equal_refl a.pres.payload)

conflict_with-Differ :
    (a : Credential) (rest : List Credential) → conflict_with a rest ≡ none → All (Differ a) rest
unfolding conflict_with
conflict_with-Differ a [] h = tt
conflict_with-Differ a (b ∷ rest) h = elim (Bool-cases (conflicts a b)) [
  | inl e ↦ absurd (cc (rw e at h))
  | inr e ↦ (conflicts-Differ a b e, conflict_with-Differ a rest (rw e at h))
]

first_conflict-AllDiffer : (creds : List Credential) → first_conflict creds ≡ none → AllDiffer creds
unfolding first_conflict
first_conflict-AllDiffer [] h = tt
first_conflict-AllDiffer (a ∷ rest) h = elim (Option-cases (conflict_with a rest)) [
  | inl e ↦
      (conflict_with-Differ a rest e, first_conflict-AllDiffer rest (rw (e, first_conflict) at h))
  | inr (b, e) ↦ absurd (cc (rw (e, first_conflict) at h))
]

Differ-conflicts : (a b : Credential) → Differ a b → conflicts a b ≡ false
unfolding conflicts
Differ-conflicts a b differ = elim (Bool-cases (str_eq a.pres.query_cred_id b.pres.query_cred_id)) [
  | inl id ↦ rw id
  | inr id ↦ elim (Bool-cases (bytes_equal a.pres.payload b.pres.payload)) [
    | inr e ↦ ground arith
    | inl e ↦ absurd (differ (λ same. cc (id, equal same)) (bytes_equal-eq _ _ e))
  ]
]
  where
    equal :
        a.pres.query_cred_id ≡ b.pres.query_cred_id
        → str_eq a.pres.query_cred_id b.pres.query_cred_id ≡ true
    equal = (eq_iff a.pres.query_cred_id b.pres.query_cred_id).1

Differ-conflict_with :
    (a : Credential) (rest : List Credential) → All (Differ a) rest → conflict_with a rest ≡ none
unfolding conflict_with
Differ-conflict_with a [] h = refl
Differ-conflict_with a (b ∷ rest) h =
    rw (Differ-conflicts a b h.0) (Differ-conflict_with a rest h.1)

AllDiffer-first_conflict : (creds : List Credential) → AllDiffer creds → first_conflict creds ≡ none
unfolding first_conflict
AllDiffer-first_conflict [] h = refl
AllDiffer-first_conflict (a ∷ rest) h =
    rw (Differ-conflict_with a rest h.0, first_conflict) (AllDiffer-first_conflict rest h.1)

-- The two loops of step 9 find no conflict exactly when any two credentials that answer different
-- queries carry different artifacts.
pub first_conflict-AllDiffer_iff :
    (creds : List Credential) → (first_conflict creds ≡ none) ↔ AllDiffer creds
first_conflict-AllDiffer_iff creds =
    (first_conflict-AllDiffer creds, AllDiffer-first_conflict creds)
