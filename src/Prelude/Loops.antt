-- ===== src/Prelude/Loops.antt =====
-- The loop `for _, x := range xs { … return r … }` over elements that its body may change.
use mathlib.Core.Path.{◌≡◌, refl}
use mathlib.Core.Logic.{◌⊎◌, inl, inr}
use mathlib.Core.Option.{Option, none, some}
use mathlib.Core.List.{List, [], ◌∷◌}
use eudi_verifier_core.Prelude.Lists.{All}

module _ {R S A : Type 0} where
  -- What follows one round: an early `return`, or the rounds that are left.
  abbrev pub proceed : Option R → S → A → List A → Option R × S × List A → Option R × S × List A
  proceed (some r) s a xs rest = (some r, s, a ∷ xs)
  proceed none s a xs rest = (rest.0, rest.1, a ∷ rest.2)

  -- The body takes the loop's variables and an element, and returns an early result, if any, the
  -- variables and the element as it left them. Elements after an early return stay as they were.
  unfoldable pub each : (S → A → Option R × S × A) → S → List A → Option R × S × List A
  each f s [] = (none, s, [])
  each f s (a ∷ xs) = let (r, s', a') = f s a in let rest = each f s' xs in proceed r s' a' xs rest

  proceed-none :
      (o : Option R) (s : S) (a : A) (xs : List A) (rest : Option R × S × List A)
      → (proceed o s a xs rest).0 ≡ none
      → (o ≡ none)
        × (rest.0 ≡ none)
        × ((proceed o s a xs rest).2 ≡ a ∷ rest.2)
        × ((proceed o s a xs rest).1 ≡ rest.1)
  proceed-none none s a xs rest h = (refl, h, refl, refl)
  proceed-none (some r) s a xs rest h = cc

  proceed-All :
      (P : A → Type 0) (o : Option R) (s : S) (a : A) (xs : List A) (rest : Option R × S × List A)
      → P a
      → All P xs
      → All P rest.2
      → All P (proceed o s a xs rest).2
  proceed-All P none s a xs rest p ps qs = (p, qs)
  proceed-All P (some r) s a xs rest p ps qs = (p, ps)

  proceed-some :
      (o : Option R) (s : S) (a : A) (xs : List A) (rest : Option R × S × List A) {r : R}
      → (proceed o s a xs rest).0 ≡ some r
      → (o ≡ some r) ⊎ (rest.0 ≡ some r)
  proceed-some none s a xs rest h = inr h
  proceed-some (some r) s a xs rest h = inl h

  module _ (f : S → A → Option R × S × A) where
    -- What the body gives to an element that it does not return from holds of all of them, if no
    -- round returns.
    pub each-All :
        (P : A → Type 0)
        → ((s : S) (a : A) → (f s a).0 ≡ none → P (f s a).2)
        → (s : S) (xs : List A) → (each f s xs).0 ≡ none
        → All P (each f s xs).2
    unfolding each
    each-All P step s [] h = tt
    each-All P step s (a ∷ xs) h =
        let (r, s', a') = f s a in
        let (stays, goes_on, same, last) = proceed-none r s' a' xs (each f s' xs) h in
        rw same (step s a stays, each-All P step s' xs goes_on)

    -- The same under a property that the body may use of each element.
    pub each-All_of :
        (P Q : A → Type 0)
        → ((s : S) (a : A) → P a → (f s a).0 ≡ none → Q (f s a).2)
        → (s : S) (xs : List A) → All P xs
        → (each f s xs).0 ≡ none
        → All Q (each f s xs).2
    unfolding each
    each-All_of P Q step s [] p h = tt
    each-All_of P Q step s (a ∷ xs) p h =
        let (r, s', a') = f s a in
        let (stays, goes_on, same, last) = proceed-none r s' a' xs (each f s' xs) h in
        rw same (step s a p.0 stays, each-All_of P Q step s' xs p.1 goes_on)

    -- What the body keeps, the loop keeps, however it ends.
    pub each-keeps :
        (P : A → Type 0)
        → ((s : S) (a : A) → P a → P (f s a).2)
        → (s : S) (xs : List A) → All P xs
        → All P (each f s xs).2
    unfolding each
    each-keeps P step s [] p = tt
    each-keeps P step s (a ∷ xs) p =
        let (r, s', a') = f s a in
        proceed-All P r s' a' xs (each f s' xs) (step s a p.0) p.1 (each-keeps P step s' xs p.1)

    -- An early result is the body's at some element.
    pub each-result :
        (T : R → Type 0)
        → ((s : S) (a : A) (r : R) → (f s a).0 ≡ some r → T r)
        → (s : S) (xs : List A) (r : R) → (each f s xs).0 ≡ some r
        → T r
    unfolding each
    each-result T step s [] r h = cc
    each-result T step s (a ∷ xs) r h =
        let (o, s', a') = f s a in
        elim (proceed-some o s' a' xs (each f s' xs) h) [
          | inl here ↦ step s a r here
          | inr later ↦ each-result T step s' xs r later
        ]

    -- Where the loop's variables can only lose a property `Quiet`, a loop that ends with it had it in
    -- every round, and each round may use it.
    pub each-All_quiet :
        (Quiet : S → Type 0) (P : A → Type 0)
        → ((s : S) (a : A) → (f s a).0 ≡ none → Quiet (f s a).1 → Quiet s × P (f s a).2)
        → (s : S) (xs : List A) → (each f s xs).0 ≡ none
        → Quiet (each f s xs).1
        → Quiet s × All P (each f s xs).2
    unfolding each
    each-All_quiet Quiet P step s [] h q = (q, tt)
    each-All_quiet Quiet P step s (a ∷ xs) h q =
        let (r, s', a') = f s a in
        let rest = each f s' xs in
        let (stays, goes_on, same, last) = proceed-none r s' a' xs rest h in
        let (calm, after) = each-All_quiet Quiet P step s' xs goes_on (rw last at q) in
        let (before, here) = step s a stays calm in (before, rw same (here, after))
