-- ===== src/Keyspace.antt =====
-- The deployment's key prefix: internal/keyspace/keyspace.go.
pub mod Normal
use eudi_verifier_core.Prelude.{
  ℕ, Bool, true, false, List, [], ◌∷◌, ◌++◌, ◌||◌, ◌&&◌, leb, ◌==◌, if◌then◌else◌,
}

-- A configured text, as its code points.
abbrev pub Text : Type 0
Text = List ℕ

-- `unicode.IsSpace`
abbrev pub is_space : ℕ → Bool
is_space c =
    (leb 9 c && leb c 13)
    || (c == 32
        || (c == 0x85
            || (c == 0xa0
                || (c == 0x1680
                    || ((leb 0x2000 c && leb c 0x200a)
                        || (c == 0x2028
                            || (c == 0x2029 || (c == 0x202f || (c == 0x205f || c == 0x3000)))))))))

abbrev is_colon : ℕ → Bool
is_colon c = c == b':'

-- Without the characters at its start, or at its end, that pass a test.
abbrev trim_left : (ℕ → Bool) → Text → Text
trim_left p [] = []
trim_left p (c ∷ s) = let rest = trim_left p s in if p c then rest else c ∷ s

prepend : (ℕ → Bool) → ℕ → Text → Text
prepend p c [] = if p c then [] else c ∷ []
prepend p c (d ∷ s) = c ∷ d ∷ s

trim_right : (ℕ → Bool) → Text → Text
unfolding prepend
trim_right p [] = []
trim_right p (c ∷ s) = prepend p c (trim_right p s)

ended : Text → Text
ended [] = []
ended (c ∷ s) = (c ∷ s) ++ b':' ∷ []

-- `New`
unfoldable pub new : Text → Text
unfolding trim_right ended
new p = ended (trim_right is_colon (trim_right is_space (trim_left is_space p)))

-- `Prefix.Key`
unfoldable pub key : (prefix k : Text) → Text
key prefix k = prefix ++ k
