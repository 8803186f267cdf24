-- ===== src/Claims/Sorted.antt =====
-- Go's `sort.Strings`: the bytewise order of texts, by insertion.
use Prim.Native.String.{compare}
use text.Mathlib.Text.{is_le}
use mathlib.Core.List.{Perm}
use mathlib.Core.List.Perm
use eudi_verifier_core.Prelude.{String, Bool, List, [], ◌∷◌, inl, inr, Bool-cases, if◌then◌else◌}

abbrev before : String → String → Bool
before s t = is_le (compare s t)

insert : String → List String → List String
insert s [] = s ∷ []
insert s (t ∷ l) = if before s t then s ∷ t ∷ l else t ∷ insert s l

-- `sort.Strings(l)`
unfoldable pub sort : List String → List String
unfolding insert
sort [] = []
sort (s ∷ l) = insert s (sort l)

insert-perm : (s : String) (l : List String) → Perm (insert s l) (s ∷ l)
unfolding insert
insert-perm s [] = Perm.refl (s ∷ [])
insert-perm s (t ∷ l) = elim (Bool-cases (before s t)) [
  | inl e ↦ rw e (Perm.refl (s ∷ t ∷ l))
  | inr e ↦ rw e (Perm.trans (Perm.cons t (insert-perm s l)) (Perm.swap s t l))
]

-- Sorting neither adds nor drops a text.
pub sort-perm : (l : List String) → Perm (sort l) l
unfolding sort
sort-perm [] = Perm.refl []
sort-perm (s ∷ l) = Perm.trans (insert-perm s (sort l)) (Perm.cons s (sort-perm l))
