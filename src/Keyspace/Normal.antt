-- ===== src/Keyspace/Normal.antt =====
-- A normalized prefix stays as it is.
use eudi_verifier_core.Prelude.{
  ℕ, Bool, true, false, [], ◌∷◌, ◌++◌, ◌≡◌, inl, inr, refl, ap, ◌∙◌, Bool-cases,
}
use eudi_verifier_core.Keyspace.{
  Text, is_space, is_colon, trim_left, prepend, trim_right, ended, new,
}

-- A text that does not start with a character of this kind.
StartsClear : (ℕ → Bool) → Text → Type 0
StartsClear p [] = Unit
StartsClear p (c ∷ s) = p c ≡ false

trim_left-StartsClear : (p : ℕ → Bool) (s : Text) → StartsClear p (trim_left p s)
unfolding StartsClear
trim_left-StartsClear p [] = tt
trim_left-StartsClear p (c ∷ s) = elim (Bool-cases (p c)) [
  | inl e ↦ rw e (trim_left-StartsClear p s)
  | inr e ↦ rw e e
]

prepend-StartsClear :
    (p q : ℕ → Bool) (c : ℕ) (s : Text) → q c ≡ false → StartsClear q (prepend p c s)
unfolding StartsClear prepend
prepend-StartsClear p q c (d ∷ s) h = h
prepend-StartsClear p q c [] h = elim (Bool-cases (p c)) [ inl e ↦ rw e tt | inr e ↦ rw e h ]

trim_right-StartsClear :
    (p q : ℕ → Bool) (s : Text) → StartsClear q s → StartsClear q (trim_right p s)
unfolding trim_right StartsClear
trim_right-StartsClear p q [] h = tt
trim_right-StartsClear p q (c ∷ s) h = prepend-StartsClear p q c (trim_right p s) h

trim_right-prepend :
    (p : ℕ → Bool) (c : ℕ) (t : Text)
    → trim_right p t ≡ t
    → trim_right p (prepend p c t) ≡ prepend p c t
unfolding trim_right prepend
trim_right-prepend p c [] h = elim (Bool-cases (p c)) [ inl e ↦ rw e refl | inr e ↦ rw (e, e) refl ]
trim_right-prepend p c (d ∷ t) h = rw h refl

trim_right-trim_right : (p : ℕ → Bool) (s : Text) → trim_right p (trim_right p s) ≡ trim_right p s
unfolding trim_right
trim_right-trim_right p [] = refl
trim_right-trim_right p (c ∷ s) =
    trim_right-prepend p c (trim_right p s) (trim_right-trim_right p s)

-- A last character of the kind goes, one of another kind stops the trimming.
trim_right-last :
    (p : ℕ → Bool) (s : Text) (d : ℕ) → p d ≡ true → trim_right p (s ++ d ∷ []) ≡ trim_right p s
unfolding trim_right prepend
trim_right-last p [] d h = rw h refl
trim_right-last p (c ∷ s) d h = ap (prepend p c) (trim_right-last p s d h)

prepend-append :
    (p : ℕ → Bool) (c : ℕ) (s : Text) (d : ℕ) → prepend p c (s ++ d ∷ []) ≡ c ∷ s ++ d ∷ []
unfolding prepend
prepend-append p c [] d = refl
prepend-append p c (e ∷ s) d = refl

trim_right-other :
    (p : ℕ → Bool) (s : Text) (d : ℕ) → p d ≡ false → trim_right p (s ++ d ∷ []) ≡ s ++ d ∷ []
unfolding trim_right prepend
trim_right-other p [] d h = rw h refl
trim_right-other p (c ∷ s) d h =
    ap (prepend p c) (trim_right-other p s d h) ∙ prepend-append p c s d

trim_left-clear : (p : ℕ → Bool) (c : ℕ) (s : Text) → p c ≡ false → trim_left p (c ∷ s) ≡ c ∷ s
trim_left-clear p c s h = rw h refl

-- A text that is trimmed and does not end in a colon is what its normal form is made of.
new-ended :
    (q : Text) → StartsClear is_space q → trim_right is_colon q ≡ q → new (ended q) ≡ ended q
unfolding new ended StartsClear
new-ended [] clear h = refl
new-ended (c ∷ s) clear h =
    ap (λ t. ended (trim_right is_colon (trim_right is_space t)))
      (trim_left-clear is_space c (s ++ b':' ∷ []) clear)
    ∙ ap (λ t. ended (trim_right is_colon t)) (trim_right-other is_space (c ∷ s) b':' refl)
    ∙ ap ended (trim_right-last is_colon (c ∷ s) b':' refl ∙ h)

-- A prefix that `New` made stays as it is under `New`.
new-new : (p : Text) → new (new p) ≡ new p
unfolding new
new-new p =
    new-ended (trim_right is_colon (trim_right is_space (trim_left is_space p)))
      (trim_right-StartsClear is_colon is_space _
        (trim_right-StartsClear is_space is_space _ (trim_left-StartsClear is_space p)))
      (trim_right-trim_right is_colon (trim_right is_space (trim_left is_space p)))
