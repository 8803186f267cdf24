-- ===== src/KeySet/Published.antt =====
-- What is published of the webhook key.
use eudi_verifier_core.Prelude.{
  ℕ, zero, suc, true, List, [], ◌∷◌, ◌++◌, ◌+◌, ◌*◌, ◌≡◌, ◌↔◌, ◌≤◌, ◌==◌, inl, inr, refl, ap, sym,
  ◌∙◌, arith, Bytes, length, length-append, take, Bool-cases,
}
use eudi_verifier_core.Errors.{Result, ok, err, Result-cases}
use eudi_verifier_core.KeySet.{
  EcKey, PublicKey, ec, other, KeySource, Jwk, keys, skip, size_of, jwk, of_point, of_key, collect,
  reply, jwks,
}

take-skip : (n : ℕ) (s : Bytes) → take n s ++ skip n s ≡ s
take-skip zero s = refl
take-skip (suc n) [] = refl
take-skip (suc n) (c ∷ s) = ap (λ t. c ∷ t) (take-skip n s)

length-take : (n : ℕ) (s : Bytes) → n ≤ length s → length (take n s) ≡ n
length-take zero s h = refl
length-take (suc n) [] h = absurd (omega (arith, h))
length-take (suc n) (c ∷ s) h = ap suc (length-take n s (omega (arith, h)))

length-skip : (n m : ℕ) (s : Bytes) → length s ≡ n + m → length (skip n s) ≡ m
length-skip zero m s h = omega (arith, h)
length-skip (suc n) m [] h = omega (arith, h)
length-skip (suc n) m (c ∷ s) h = length-skip n m s (omega (arith, h))

-- The published members are the halves of the key's own point behind its first byte.
pub record Publishes (ks : KeySource) (set : List Jwk) : Type 0 where
  pub key : EcKey
  pub known : ks.public ks.key_webhook_signing ≡ ok (ec key)
  pub form : ℕ
  pub x : Bytes
  pub y : Bytes
  pub point : key.ecdh ≡ ok (form ∷ x ++ y)
  pub wide : length x ≡ size_of key
  pub high : length y ≡ size_of key
  pub only :
      set
      ≡ record {
        kty = "EC";
        crv = key.name;
        x = ks.raw_url x;
        y = ks.raw_url y;
        use_ = "sig";
        kid = ks.key_webhook_signing;
      }
        ∷ []

-- A point of the right length is its first byte and two coordinates.
record Halves (k : EcKey) (point : Bytes) : Type 0 where
  form : ℕ
  x : Bytes
  y : Bytes
  whole : point ≡ form ∷ x ++ y
  wide : length x ≡ size_of k
  high : length y ≡ size_of k
  left : take (size_of k) (skip 1 point) ≡ x
  right : skip (suc (size_of k)) point ≡ y

halves : (k : EcKey) (point : Bytes) → length point ≡ 1 + 2 * size_of k → Halves k point
halves k [] h = absurd (omega (arith, h))
halves k (c ∷ s) h = record {
  form = c;
  x = take (size_of k) s;
  y = skip (size_of k) s;
  whole = ap (λ t. c ∷ t) (sym (take-skip (size_of k) s));
  wide = length-take (size_of k) s (omega (arith, h));
  high = length-skip (size_of k) (size_of k) s (omega (arith, h));
  left = refl;
  right = refl;
}

take-append : (n : ℕ) (x y : Bytes) → length x ≡ n → (take n (x ++ y) ≡ x) × (skip n (x ++ y) ≡ y)
take-append zero [] y h = (refl, refl)
take-append zero (c ∷ x) y h = absurd (omega (arith, h))
take-append (suc n) [] y h = absurd (omega (arith, h))
take-append (suc n) (c ∷ x) y h =
    let (l, r) = take-append n x y (omega (arith, h)) in (ap (λ t. c ∷ t) l, r)

module _ (ks : KeySource) where
  -- The reply is made of the answer for the one key id.
  jwks-of_key :
      (set : List Jwk)
      → jwks ks ≡ keys "max-age=300" set
      → (k : Jwk) × (of_key ks ks.key_webhook_signing (ks.public ks.key_webhook_signing) ≡ ok k)
        × (set ≡ k ∷ [])
  unfolding jwks collect reply
  jwks-of_key set h =
      elim (Result-cases (of_key ks ks.key_webhook_signing (ks.public ks.key_webhook_signing))) [
        | inr (e, r) ↦ absurd (cc (rw (r, jwks, collect, reply) at h))
        | inl (k, r) ↦ (k, r, cc (rw (r, jwks, collect, reply) at h))
      ]

  published :
      (set : List Jwk) (k : Jwk) (got : Result PublicKey)
      → ks.public ks.key_webhook_signing ≡ got
      → of_key ks ks.key_webhook_signing got ≡ ok k
      → set ≡ k ∷ []
      → Publishes ks set
  unfolding of_key of_point jwk
  published set k (err e) p h q = absurd (cc h)
  published set k (ok other) p h q = absurd (cc h)
  published set k (ok (ec key)) p h q = elim (Result-cases key.ecdh) [
    | inr (e, r) ↦ absurd (cc (rw (r, of_key, of_point) at h))
    | inl (point, r) ↦ elim (Bool-cases (length point == 1 + 2 * size_of key)) [
      | inr e ↦ absurd (cc (rw (r, of_key, of_point, e) at h))
      | inl e ↦
          let found : Halves key point = halves key point (ground arith) in
          let made = rw (r, of_key, of_point, e, jwk, found.left, found.right) at h in
          record {
            key = key;
            known = p;
            form = found.form;
            x = found.x;
            y = found.y;
            point = r ∙ ap ok found.whole;
            wide = found.wide;
            high = found.high;
            only = cc;
          }
    ]
  ]

  whole_length :
      (k : EcKey) (form : ℕ) (x y : Bytes)
      → length x ≡ size_of k
      → length y ≡ size_of k
      → (length {A = ℕ} (form ∷ x ++ y) == 1 + 2 * size_of k) ≡ true
  whole_length k form x y wide high = ground (arith, length-append x y)

  backed : (set : List Jwk) → Publishes ks set → jwks ks ≡ keys "max-age=300" set
  unfolding jwks collect reply of_key of_point jwk
  backed set p =
      let (l, r) = take-append (size_of p.key) p.x p.y p.wide in
      rw
        (
          jwks,
          collect,
          p.known,
          of_key,
          p.point,
          of_point,
          whole_length p.key p.form p.x p.y p.wide p.high,
          jwk,
          l,
          r,
          reply,
        )
        (ap (λ t. keys "max-age=300" t) (sym p.only))

-- The service publishes a set exactly if it is the one entry for the webhook key, which is of the EC
-- kind, and the members of the entry are the two halves of the key's point behind its first byte,
-- each as long as the curve's field.
pub jwks-Publishes :
    (ks : KeySource) (set : List Jwk) → (jwks ks ≡ keys "max-age=300" set) ↔ Publishes ks set
jwks-Publishes ks set = (
  λ h.
      let (k, r, q) = jwks-of_key ks set h in
      published ks set k (ks.public ks.key_webhook_signing) refl r q,
  backed ks set,
)
