-- ===== src/Claims/Names.antt =====
-- `flattenNames` of internal/pipeline/report.go: a claim map reduced to the dotted names of its leaves.
use text.Mathlib.Text.{◌==◌}
use Prim.Native.String.{◌++◌ as text_append}
use eudi_verifier_core.Prelude.{String, ◌≡◌, refl, ap, ap₂, List, [], ◌∷◌, ◌++◌, if◌then◌else◌}
use eudi_verifier_core.Claims.Defs.{Value, Claims, leaf, node, nil, entry}
use eudi_verifier_core.Claims.Sorted.{sort}

-- `name := k; if prefix != "" { name = prefix + "." + k }`
abbrev dotted : String → String → String
dotted prefix k = if prefix == "" then k else text_append prefix (text_append "." k)

-- The function's loop collects the names of each entry in turn, and sorts before it returns.
unfoldable mutual
  -- One entry: a nested map gives its own sorted names, and a leaf its name.
  entry_names : Value → String → List String
  entry_names (leaf v) name = name ∷ []
  entry_names (node sub) name = sort (collect sub name)

  collect : Claims → String → List String
  collect nil prefix = []
  collect (entry k v m) prefix = entry_names v (dotted prefix k) ++ collect m prefix

unfoldable pub flatten_names : Claims → String → List String
unfolding entry_names collect sort
flatten_names m prefix = sort (collect m prefix)

-- Two maps with the same keys and the same nesting, whatever their leaves hold.
unfoldable mutual
  pub SameShape : Value → Value → Type 0
  SameShape (leaf v) (leaf w) = Unit
  SameShape (leaf v) (node n) = ⊥
  SameShape (node m) (leaf w) = ⊥
  SameShape (node m) (node n) = SameNames m n

  pub SameNames : Claims → Claims → Type 0
  SameNames nil nil = Unit
  SameNames nil (entry k v m) = ⊥
  SameNames (entry k v m) nil = ⊥
  SameNames (entry j v m) (entry k w n) = (j ≡ k) × SameShape v w × SameNames m n

mutual
  unfolding SameShape SameNames entry_names collect

  same_entry_names :
      (v w : Value) (name : String) → SameShape v w → entry_names v name ≡ entry_names w name
  same_entry_names (leaf v) (leaf w) name h = refl
  same_entry_names (leaf v) (node n) name h = absurd h
  same_entry_names (node m) (leaf w) name h = absurd h
  same_entry_names (node m) (node n) name h = ap sort (same_collect m n name h)

  same_collect :
      (m n : Claims) (prefix : String) → SameNames m n → collect m prefix ≡ collect n prefix
  same_collect nil nil prefix h = refl
  same_collect nil (entry k v m) prefix h = absurd h
  same_collect (entry k v m) nil prefix h = absurd h
  same_collect (entry j v m) (entry k w n) prefix h =
      rw h.0 (ap₂ ◌++◌ (same_entry_names v w (dotted prefix k) h.1) (same_collect m n prefix h.2))

-- The names of a claim map do not depend on what its leaves hold.
pub flatten_names-value_free :
    (m n : Claims) (prefix : String)
    → SameNames m n
    → flatten_names m prefix ≡ flatten_names n prefix
unfolding flatten_names
flatten_names-value_free m n prefix h = ap sort (same_collect m n prefix h)
