-- ===== src/Pipeline/Trust/Resolution.antt =====
-- What a resolved key stands on: the first anchor type that resolves the chain, none of the earlier
-- ones having met a stale cache, and the accreditation for the credential's use case.
use eudi_verifier_core.Prelude.{
  String, true, false, Option, none, some, List, [], ◌∷◌, ◌≡◌, ◌⊎◌, inl, inr, ◌↔◌, Time, arith,
  Bytes, bytes, ap, ◌∙◌, exists, str_eq, eq_iff, Bool-cases,
}
use eudi_verifier_core.Errors.{GoError, Sentinel, ok, err, Result-cases}
use eudi_verifier_core.Libraries.{Libraries, AnchorType, Certificate, Key, ResolvedIssuer}
use eudi_verifier_core.Pipeline.Trust.{
  CredentialTrustMap, issuance, use_case_for, use_case_allowed, resolve_from, resolve_by_types,
  resolve_issuer_for, accredited,
}

module _ (lib : Libraries) (chain : List Certificate) (at : Time) where
  -- `types` resolves to `found`: by its head, or by its tail past a head that failed for another
  -- reason than a stale cache.
  pub data Resolves (found : Key × ResolvedIssuer) : List AnchorType → Type 0 where
    here :
        (t : AnchorType) (ts : List AnchorType)
        → lib.resolve_issuer_key chain t at ≡ ok found
        → Resolves found (t ∷ ts)
    later :
        (t : AnchorType) (ts : List AnchorType) (e : GoError)
        → lib.resolve_issuer_key chain t at ≡ err e
        → e.is Sentinel.trust_cache_expired ≡ false
        → Resolves found ts
        → Resolves found (t ∷ ts)

  resolve_from-Resolves :
      (last : Option GoError) (types : List AnchorType) (found : Key × ResolvedIssuer)
      → resolve_from lib chain at last types ≡ ok found
      → Resolves found types
  unfolding resolve_from
  resolve_from-Resolves last [] found h = cc
  resolve_from-Resolves last (t ∷ ts) found h =
      elim (Result-cases (lib.resolve_issuer_key chain t at)) [
        | inl (x, e) ↦ here t ts (ground arith)
        | inr (x, e) ↦ elim (Bool-cases (x.is Sentinel.trust_cache_expired)) [
          | inl stale ↦ absurd (ground arith)
          | inr other ↦
              later t ts x e other (resolve_from-Resolves (some x) ts found (ground arith))
        ]
      ]

  Resolves-resolve_from :
      (found : Key × ResolvedIssuer) (last : Option GoError) (types : List AnchorType)
      → Resolves found types
      → resolve_from lib chain at last types ≡ ok found
  unfolding resolve_from
  Resolves-resolve_from found last types (here t ts e) = ground arith
  Resolves-resolve_from found last types (later t ts x e other r) =
      ground (arith, Resolves-resolve_from found (some x) ts r)

  -- A chain resolves exactly when some anchor type resolves it and every earlier type failed for
  -- another reason than a stale trust cache.
  pub resolve_by_types-Resolves :
      (types : List AnchorType) (found : Key × ResolvedIssuer)
      → (resolve_by_types lib chain at types ≡ ok found) ↔ Resolves found types
  unfolding resolve_by_types
  resolve_by_types-Resolves types found =
      (resolve_from-Resolves none types found, Resolves-resolve_from found none types)

  -- `types` meets a stale cache, with error `e`, before any of them resolves the chain.
  pub data IsStale (e : GoError) : List AnchorType → Type 0 where
    now :
        (t : AnchorType) (ts : List AnchorType)
        → lib.resolve_issuer_key chain t at ≡ err e
        → e.is Sentinel.trust_cache_expired ≡ true
        → IsStale e (t ∷ ts)
    past :
        (t : AnchorType) (ts : List AnchorType) (x : GoError)
        → lib.resolve_issuer_key chain t at ≡ err x
        → x.is Sentinel.trust_cache_expired ≡ false
        → IsStale e ts
        → IsStale e (t ∷ ts)

  resolve_from-IsStale :
      (e : GoError) (last : Option GoError) (types : List AnchorType)
      → IsStale e types
      → resolve_from lib chain at last types ≡ err e
  unfolding resolve_from
  resolve_from-IsStale e last types (now t ts h stale) = ground arith
  resolve_from-IsStale e last types (past t ts x h other r) =
      ground (arith, resolve_from-IsStale e (some x) ts r)

  -- A stale trust cache met before any anchor type resolves the chain ends the resolution with that
  -- very error, whatever the types after it would give.
  resolve_by_types-IsStale :
      (types : List AnchorType) (e : GoError)
      → IsStale e types
      → resolve_by_types lib chain at types ≡ err e
  unfolding resolve_by_types
  resolve_by_types-IsStale types e h = resolve_from-IsStale e none types h

-- Membership in a list of texts.
pub Holds : String → List String → Type 0
Holds u [] = ⊥
Holds u (v ∷ vs) = (v ≡ u) ⊎ Holds u vs

use_case_allowed-Holds :
    (required : String) (have : List String)
    → exists (λ u. str_eq u required) have ≡ true
    → Holds required have
unfolding Holds
use_case_allowed-Holds required [] h = cc
use_case_allowed-Holds required (u ∷ us) h = elim (Bool-cases (str_eq u required)) [
  | inl e ↦ inl ((eq_iff u required).0 e)
  | inr e ↦ inr (use_case_allowed-Holds required us (rw e at h))
]

accredited-ok :
    (lib : Libraries) (who : Bytes) (use_case : String) (got found : Key × ResolvedIssuer)
    → accredited lib who use_case got ≡ ok found
    → (got ≡ found) × (use_case_allowed use_case found.1.use_cases ≡ true)
unfolding accredited
accredited-ok lib who use_case got found h = ground arith

use_case_allowed-cases :
    (required : String) (have : List String)
    → use_case_allowed required have ≡ true
    → (required ≡ "") ⊎ Holds required have
unfolding use_case_allowed
use_case_allowed-cases required have h = elim (Bool-cases (str_eq required "")) [
  | inl e ↦ inl ((eq_iff required "").0 e)
  | inr e ↦ inr (use_case_allowed-Holds required have (rw e at h))
]

-- A key that is resolved for a credential type was resolved from the issuance anchor types of that
-- type, and its anchor is accredited for the use case of the type, if it has one.
pub resolve_issuer_for-accredited :
    (lib : Libraries) (m : CredentialTrustMap) (chain : List Certificate) (id : String) (at : Time)
    (found : Key × ResolvedIssuer)
    → resolve_issuer_for lib m chain id at ≡ ok found
    → Resolves lib chain at found (issuance m id)
      × ((use_case_for m id ≡ "") ⊎ Holds (use_case_for m id) found.1.use_cases)
unfolding resolve_issuer_for
resolve_issuer_for-accredited lib m chain id at found h =
    elim (Result-cases (resolve_by_types lib chain at (issuance m id))) [
      | inl (got, e) ↦
          let (same, allowed) =
            accredited-ok lib (bytes "issuer") (use_case_for m id) got found
              (rw (e, resolve_issuer_for) at h) in
          (
            (resolve_by_types-Resolves lib chain at (issuance m id) found).0 (e ∙ ap ok same),
            use_case_allowed-cases (use_case_for m id) found.1.use_cases allowed,
          )
      | inr (x, e) ↦ absurd (ground arith)
    ]
