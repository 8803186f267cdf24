-- ===== src/TestWallet/Coordinates.antt =====
-- The public key of a JWK's coordinates: `P256PublicKey` of internal/testwallet/wallet.go.
pub mod Padding
use eudi_verifier_core.Prelude.{
  ℕ, zero, suc, List, [], ◌∷◌, ◌++◌, ◌-◌, ◌||◌, Bytes, bytes, length, ltb, if◌then◌else◌,
}
use eudi_verifier_core.Errors.{Result, err, plain}

abbrev pub p256_coord_len : ℕ
p256_coord_len = 32

-- `make([]byte, n)`
unfoldable pub zeros : ℕ → Bytes
zeros zero = []
zeros (suc n) = 0 ∷ zeros n

-- `copy(buf[at:], src)`, which stops at the end of either.
unfoldable pub copy_at : (at_ : ℕ) (src buf : Bytes) → Bytes
copy_at at_ src [] = []
copy_at zero [] (b ∷ buf) = b ∷ buf
copy_at zero (c ∷ src) (b ∷ buf) = c ∷ copy_at zero src buf
copy_at (suc n) src (b ∷ buf) = b ∷ copy_at n src buf

-- The buffer; its first byte tells the form of the point.
unfoldable pub buffer : (xb yb : Bytes) → Bytes
unfolding zeros copy_at
buffer xb yb = copy_at (65 - length yb) yb (copy_at (33 - length xb) xb (4 ∷ zeros 64))

-- `P256PublicKey`, with the parser of a point.
unfoldable pub p256_public_key :
    {K : Type 0} → (parse_uncompressed : Bytes → Result K) → (xb yb : Bytes) → Result K
unfolding buffer
p256_public_key parse_uncompressed xb yb =
    if ltb p256_coord_len (length xb) || ltb p256_coord_len (length yb)
    then err (plain (bytes "coordinate longer than 32 bytes"))
    else parse_uncompressed (buffer xb yb)
