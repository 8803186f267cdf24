-- ===== src/Anchors/Fetching.antt =====
-- What stands behind the anchors that `AnchorsFor` returns.
use mathlib.Core.Path.{subst}
use eudi_verifier_core.Prelude.{
  ◌≤◌, ◌<◌, String, true, false, some, List, [], ◌∷◌, ◌≡◌, ◌⊎◌, inl, inr, refl, arith, Bool-cases,
  Option-cases, ◌||◌, ltb,
}
use eudi_verifier_core.Errors.{GoError, Result, ok, err, Result-cases, trustcache_expired}
use eudi_verifier_core.Libraries.{AnchorType, Certificate}
use eudi_verifier_core.Anchors.{
  Valkey, Entry, CachedAnchor, Anchor, FreshnessRecord, wire_type, is_fresh,
  type_fresh_for_verification, anchor_of, collect, from_entry, anchors_for,
}

module _ (v : Valkey) where
  -- The record of a type says that its cache is current, without any grace.
  pub record Current (wire : String) : Type 0 where
    pub fr : FreshnessRecord
    pub known : v.freshness_of wire ≡ ok fr
    pub confirmed : fr.upstream_stale ≡ false
    pub in_time : v.now < fr.valid_until

  -- One anchor for each cached one, with its parsed certificate.
  pub Collected : AnchorType → List CachedAnchor → List Anchor → Type 0
  Collected t [] [] = Unit
  Collected t [] (x ∷ xs) = ⊥
  Collected t (a ∷ cached) [] = ⊥
  Collected t (a ∷ cached) (x ∷ xs) =
      ((cert : Certificate) × (v.parse_certificate a.cert_der ≡ ok cert)
        × (anchor_of v t a cert ≡ x))
      × Collected t cached xs

  CollectedAll : AnchorType → List CachedAnchor → Result (List Anchor) → Type 0
  CollectedAll t cached (ok xs) = Collected t cached xs
  CollectedAll t cached (err e) = ⊥

  pub record FromEntry (t : AnchorType) (wire country : String) (anchors : List Anchor)
      : Type 0 where
    pub entry : Entry
    pub read : v.anchor_set wire country ≡ ok entry
    pub confirmed : entry.upstream_stale ≡ false
    pub in_time : v.now ≤ entry.valid_until
    pub collected : Collected t entry.anchors anchors

  -- The cache has no entry here, and is current.
  pub record ConfirmedEmpty (wire country : String) (anchors : List Anchor) : Type 0 where
    pub e : GoError
    pub absent : v.anchor_set wire country ≡ err e
    pub expired : e.is trustcache_expired ≡ true
    pub current : Current wire
    pub none_here : anchors ≡ []

  is_fresh-Current : (wire : String) → type_fresh_for_verification v wire ≡ true → Current wire
  unfolding type_fresh_for_verification is_fresh
  is_fresh-Current wire h = elim (Result-cases (v.freshness_of wire)) [
    | inr (e, r) ↦ absurd (cc (rw (r, type_fresh_for_verification, is_fresh) at h))
    | inl (fr, r) ↦
        let fresh = rw (r, type_fresh_for_verification, is_fresh) at h in
        record { fr = fr; known = r; confirmed = ground arith; in_time = ground arith }
  ]

  collect-Collected :
      (t : AnchorType) (wire : String) (cached : List CachedAnchor) (xs : List Anchor)
      → collect v t wire cached ≡ ok xs
      → Collected t cached xs
  unfolding collect Collected CollectedAll
  collect-Collected t wire [] [] h = tt
  collect-Collected t wire [] (x ∷ xs) h = absurd (cc h)
  collect-Collected t wire (a ∷ cached) xs h =
      elim (Result-cases (v.parse_certificate a.cert_der)) [
        | inr (e, p) ↦ absurd (cc (rw (p, collect) at h))
        | inl (cert, p) ↦ elim (Result-cases (collect v t wire cached)) [
          | inr (e, c) ↦ absurd (cc (rw (p, c, collect) at h))
          | inl (rest, c) ↦
              let same : ok (anchor_of v t a cert ∷ rest) ≡ ok xs = rw (p, c, collect) at h in
              subst (λ (r : Result (List Anchor)). CollectedAll t (a ∷ cached) r) same
                ((cert, p, refl), collect-Collected t wire cached rest c)
        ]
      ]

  from_entry-FromEntry :
      (t : AnchorType) (wire country : String) (entry : Entry) (anchors : List Anchor)
      → v.anchor_set wire country ≡ ok entry
      → from_entry v t wire country (ok entry) ≡ ok anchors
      → FromEntry t wire country anchors
  unfolding from_entry
  from_entry-FromEntry t wire country entry anchors read h =
      elim (Bool-cases (entry.upstream_stale || ltb entry.valid_until v.now)) [
        | inl e ↦ absurd (cc (rw (e, from_entry) at h))
        | inr e ↦ record {
          entry = entry;
          read = read;
          confirmed = ground arith;
          in_time = ground arith;
          collected = collect-Collected t wire entry.anchors anchors (rw (e, from_entry) at h);
        }
      ]

  from_entry-ConfirmedEmpty :
      (t : AnchorType) (wire country : String) (e : GoError) (anchors : List Anchor)
      → v.anchor_set wire country ≡ err e
      → from_entry v t wire country (err e) ≡ ok anchors
      → ConfirmedEmpty wire country anchors
  unfolding from_entry
  from_entry-ConfirmedEmpty t wire country e anchors absent h =
      elim (Bool-cases (e.is trustcache_expired)) [
        | inr x ↦ absurd (cc (rw (x, from_entry) at h))
        | inl x ↦ elim (Bool-cases (type_fresh_for_verification v wire)) [
          | inr f ↦ absurd (cc (rw (x, f, from_entry) at h))
          | inl f ↦ record {
            e = e;
            absent = absent;
            expired = x;
            current = is_fresh-Current wire f;
            none_here = cc (rw (x, f, from_entry) at h);
          }
        ]
      ]

-- If `AnchorsFor` returns anchors without an error, the type has a name on the wire, and either its
-- cached entry for the territory is confirmed upstream and not past its validity, and they are its
-- anchors one by one, of the asked type and with their certificates parsed; or there are none, the
-- cache has no entry, and the type's own record is confirmed and valid, without any grace.
pub anchors_for-Backed :
    (v : Valkey) (t : AnchorType) (country : String) (anchors : List Anchor)
    → anchors_for v t country ≡ ok anchors
    → (wire : String) × (wire_type v.names t ≡ some wire)
      × (FromEntry v t wire country anchors ⊎ ConfirmedEmpty v wire country anchors)
unfolding anchors_for
anchors_for-Backed v t country anchors h = elim (Option-cases (wire_type v.names t)) [
  | inl n ↦ absurd (cc (rw (n, anchors_for) at h))
  | inr (wire, n) ↦ (
    wire,
    n,
    elim (Result-cases (v.anchor_set wire country)) [
      | inl (entry, r) ↦
          inl (from_entry-FromEntry v t wire country entry anchors r (rw (n, r, anchors_for) at h))
      | inr (e, r) ↦
          inr (from_entry-ConfirmedEmpty v t wire country e anchors r (rw (n, r, anchors_for) at h))
    ],
  )
]
