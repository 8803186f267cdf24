-- ===== src/Prelude/Text.antt =====
-- Byte strings, and the UTF-8 bytes of a text.
use Prim.Native.Nat.{ℕ, zero, suc, ◌+◌, ◌-◌, ◌/◌, ◌%◌}
use Prim.Native.Char.{code}
use Prim.Native.String.{String}
use mathlib.Core.Path.{◌≡◌, refl, ap₂}
use native.Mathlib.Omega.{arith}
use mathlib.Core.Bool.{Bool, ◌||◌, ◌&&◌, true, false}
use mathlib.Core.List.{List, [], ◌∷◌, ◌++◌}
use eudi_verifier_core.Prelude.Tests.{ltb, ◌==◌, if◌then◌else◌}

-- A Go `[]byte`, or a `string` that the program measures or cuts.
abbrev pub Bytes : Type 0
Bytes = List ℕ

-- The UTF-8 form of one code point.
abbrev utf8 : ℕ → Bytes
utf8 c =
    if ltb c 0x80
    then c ∷ []
    else if ltb c 0x800
    then (0xc0 + c / 64) ∷ (0x80 + c % 64) ∷ []
    else if ltb c 0x10000
    then (0xe0 + c / 4096) ∷ (0x80 + c / 64 % 64) ∷ (0x80 + c % 64) ∷ []
    else (0xf0 + c / 262144) ∷ (0x80 + c / 4096 % 64) ∷ (0x80 + c / 64 % 64) ∷ (0x80 + c % 64) ∷ []

-- `[]byte(s)`
abbrev pub bytes : String → Bytes
bytes String.[] = []
bytes (String.◌∷◌ c s) = utf8 (code c) ++ bytes s

abbrev hex_digit : ℕ → ℕ
hex_digit n = if ltb n 10 then b'0' + n else b'a' + (n - 10)

-- One byte as `strconv.Quote` writes it; a byte of a longer UTF-8 form is written as it is.
abbrev quote_byte : ℕ → Bytes
quote_byte c =
    if c == b'"' || c == 92
    then 92 ∷ c ∷ []
    else if ltb c 32 || c == 127
    then if c == 7
      then 92 ∷ b'a' ∷ []
      else if c == 8
      then 92 ∷ b'b' ∷ []
      else if c == 12
      then 92 ∷ b'f' ∷ []
      else if c == 10
      then 92 ∷ b'n' ∷ []
      else if c == 13
      then 92 ∷ b'r' ∷ []
      else if c == 9
      then 92 ∷ b't' ∷ []
      else if c == 11
      then 92 ∷ b'v' ∷ []
      else 92 ∷ b'x' ∷ hex_digit (c / 16) ∷ hex_digit (c % 16) ∷ []
    else c ∷ []

abbrev quote_bytes : Bytes → Bytes
quote_bytes [] = []
quote_bytes (c ∷ cs) = quote_byte c ++ quote_bytes cs

-- The verb `%q` of a string.
abbrev pub quote : String → Bytes
quote s = b'"' ∷ (quote_bytes (bytes s) ++ b'"' ∷ [])

-- `bytes.Equal`
unfoldable pub bytes_equal : Bytes → Bytes → Bool
bytes_equal [] [] = true
bytes_equal [] (d ∷ ds) = false
bytes_equal (c ∷ cs) [] = false
bytes_equal (c ∷ cs) (d ∷ ds) = c == d && bytes_equal cs ds

pub bytes_equal_refl : (a : Bytes) → bytes_equal a a ≡ true
unfolding bytes_equal
bytes_equal_refl [] = refl
bytes_equal_refl (c ∷ cs) = ground (arith, bytes_equal_refl cs)

pub bytes_equal-eq : (a b : Bytes) → bytes_equal a b ≡ true → a ≡ b
unfolding bytes_equal
bytes_equal-eq [] [] h = refl
bytes_equal-eq [] (d ∷ ds) h = absurd (cc h)
bytes_equal-eq (c ∷ cs) [] h = absurd (cc h)
bytes_equal-eq (c ∷ cs) (d ∷ ds) h =
    ap₂ (λ x xs. x ∷ xs) (ground arith) (bytes_equal-eq cs ds (ground arith))

-- The decimal digits of a number, with enough fuel; `%d`.
decimal_digits : ℕ → ℕ → Bytes → Bytes
decimal_digits zero n rest = rest
decimal_digits (suc fuel) n rest =
    let more = decimal_digits fuel (n / 10) ((b'0' + n % 10) ∷ rest) in
    if ltb n 10 then (b'0' + n) ∷ rest else more

unfoldable pub decimal : ℕ → Bytes
unfolding decimal_digits
decimal n = decimal_digits (suc n) n []
