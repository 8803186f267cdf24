-- ===== src/KeySet.antt =====
-- The published key set: routes/jwks.go.
pub mod Published
use eudi_verifier_core.Prelude.{
  ℕ, zero, suc, String, Option, none, some, List, [], ◌∷◌, ◌++◌, ◌+◌, ◌*◌, ◌/◌, ◌==◌, Bytes, bytes,
  decimal, length, take, not, if◌then◌else◌,
}
use eudi_verifier_core.Errors.{GoError, Result, ok, err, plain}

-- `ecdsa.PublicKey`: `ECDH().Bytes()`, and the parameters of its curve.
pub record EcKey : Type 0 where
  pub ecdh : Result Bytes
  pub bit_size : ℕ
  pub name : String

-- A key that the provider returns; only the type matters of one that is not of the EC kind.
pub data PublicKey : Type 0 where
  ec : EcKey → PublicKey
  other : PublicKey

-- The key provider and `base64.RawURLEncoding`, and the id that handoffwire gives to the webhook key.
pub record KeySource : Type 0 where
  pub public : String → Result PublicKey
  pub raw_url : Bytes → String
  pub key_webhook_signing : String

-- One member of the set.
pub record Jwk : Type 0 where
  pub kty : String
  pub crv : String
  pub x : String
  pub y : String
  pub use_ : String
  pub kid : String

-- The answer: the keys and the header that caches read, or what `ctx.Error` is given.
pub data KeySetReply : Type 0 where
  keys : (cache_control : String) → List Jwk → KeySetReply
  failed : GoError → KeySetReply

-- `s[n:]`
abbrev pub skip : ℕ → Bytes → Bytes
skip zero s = s
skip (suc n) [] = []
skip (suc n) (c ∷ s) = skip n s

-- The bytes of one coordinate.
abbrev pub size_of : EcKey → ℕ
size_of k = (k.bit_size + 7) / 8

module _ (ks : KeySource) where
  about : String → Bytes → Bytes
  about kid text = bytes "jwks: key " ++ (bytes kid ++ text)

  unfoldable pub jwk : (kid : String) → EcKey → (point : Bytes) → Jwk
  jwk kid k point = record {
    kty = "EC";
    crv = k.name;
    x = ks.raw_url (take (size_of k) (skip 1 point));
    y = ks.raw_url (skip (suc (size_of k)) point);
    use_ = "sig";
    kid = kid;
  }

  of_point : String → EcKey → Result Bytes → Result Jwk
  unfolding about jwk
  of_point kid k (err e) = err (record e { message = about kid (bytes ": " ++ e.message) })
  of_point kid k (ok point) =
      if not (length point == 1 + 2 * size_of k)
      then err (plain (about kid (bytes ": unexpected point length " ++ decimal (length point))))
      else ok (jwk kid k point)

  of_key : String → Result PublicKey → Result Jwk
  unfolding of_point about
  of_key kid (err e) = err e
  of_key kid (ok other) = err (plain (about kid (bytes " is not EC")))
  of_key kid (ok (ec k)) = of_point kid k k.ecdh

  -- The loop over the key ids.
  collect : List String → Result (List Jwk)
  unfolding of_key
  collect [] = ok []
  collect (kid ∷ kids) = elim (of_key kid (ks.public kid)) [
    | err e ↦ err e
    | ok key ↦ elim (collect kids) [ err e ↦ err e | ok rest ↦ ok (key ∷ rest) ]
  ]

  reply : Result (List Jwk) → KeySetReply
  reply (err e) = failed e
  reply (ok set) = keys "max-age=300" set

  -- `jwks`
  unfoldable pub jwks : KeySetReply
  unfolding collect reply
  jwks = reply (collect (ks.key_webhook_signing ∷ []))
