-- ===== src/TestWallet/Coordinates/Padding.antt =====
-- Each coordinate stands at the right of its own slot.
use mathlib.Core.List.{append_assoc, append-nil}
use eudi_verifier_core.Prelude.{
  ℕ, zero, suc, false, List, [], ◌∷◌, ◌++◌, ◌+◌, ◌-◌, ◌≡◌, ◌≤◌, refl, ap, ap₂, sym, ◌∙◌, arith,
  Bytes, length, length-append, ltb,
}
use eudi_verifier_core.Errors.{Result, ok}
use eudi_verifier_core.KeySet.{KeySource, Jwk, size_of}
use eudi_verifier_core.KeySet.Published.{Publishes}
use eudi_verifier_core.TestWallet.Coordinates.{zeros, copy_at, buffer, p256_public_key}

zeros-add : (n m : ℕ) → zeros (n + m) ≡ zeros n ++ zeros m
unfolding zeros
zeros-add zero m = ap zeros (omega arith)
zeros-add (suc n) m =
    let out : suc n + m ≡ suc (n + m) = omega arith in
    ap zeros out ∙ ap (λ (t : Bytes). 0 ∷ t) (zeros-add n m)

length-zeros : (n : ℕ) → length (zeros n) ≡ n
unfolding zeros
length-zeros zero = refl
length-zeros (suc n) = ap suc (length-zeros n)

-- A slot of `n` zeros, of which the last are those of the source.
split_zeros :
    (n : ℕ) (src : Bytes) → length src ≤ n → zeros n ≡ zeros (n - length src) ++ zeros (length src)
split_zeros n src h =
    let back : n - length src + length src ≡ n = omega (arith, h) in
    ap zeros (sym back) ∙ zeros-add (n - length src) (length src)

copy_at-past :
    (a src buf : Bytes) (n : ℕ) → n ≡ length a → copy_at n src (a ++ buf) ≡ a ++ copy_at 0 src buf
unfolding copy_at
copy_at-past [] src buf zero h = refl
copy_at-past [] src buf (suc n) h = absurd (omega (arith, h))
copy_at-past (c ∷ a) src buf zero h = absurd (omega (arith, h))
copy_at-past (c ∷ a) src buf (suc n) h =
    ap (λ (t : Bytes). c ∷ t) (copy_at-past a src buf n (omega (arith, h)))

copy_at-over :
    (old src rest : Bytes) → length src ≡ length old → copy_at 0 src (old ++ rest) ≡ src ++ rest
unfolding copy_at
copy_at-over [] [] [] h = refl
copy_at-over [] [] (b ∷ rest) h = refl
copy_at-over [] (c ∷ src) rest h = absurd (omega (arith, h))
copy_at-over (b ∷ old) [] rest h = absurd (omega (arith, h))
copy_at-over (b ∷ old) (c ∷ src) rest h =
    ap (λ (t : Bytes). c ∷ t) (copy_at-over old src rest (omega (arith, h)))

-- A copy to the end of a slot of zeros behind a front.
into_slot :
    (front src rest : Bytes) (slot n : ℕ)
    → length src ≤ slot
    → n ≡ length front + (slot - length src)
    → copy_at n src (front ++ (zeros slot ++ rest))
      ≡ front ++ ((zeros (slot - length src) ++ src) ++ rest)
into_slot front src rest slot n fits place =
    let gap = zeros (slot - length src) in
    ap (λ (t : Bytes). copy_at n src (front ++ (t ++ rest))) (split_zeros slot src fits)
    ∙ ap (λ (t : Bytes). copy_at n src (front ++ t)) (append_assoc gap (zeros (length src)) rest)
    ∙ ap (copy_at n src) (sym (append_assoc front gap (zeros (length src) ++ rest)))
    ∙ copy_at-past (front ++ gap) src (zeros (length src) ++ rest) n
        (omega (arith, place, length-append front gap, length-zeros (slot - length src)))
    ∙ ap (λ (t : Bytes). (front ++ gap) ++ t)
        (copy_at-over (zeros (length src)) src rest (sym (length-zeros (length src))))
    ∙ append_assoc front gap (src ++ rest)
    ∙ ap (λ (t : Bytes). front ++ t) (sym (append_assoc gap src rest))

-- A coordinate in its slot.
padded : Bytes → Bytes
padded src = zeros (32 - length src) ++ src

length-padded : (src : Bytes) → length src ≤ 32 → length (padded src) ≡ 32
unfolding padded
length-padded src h =
    omega (arith, h, length-append (zeros (32 - length src)) src, length-zeros (32 - length src))

-- The whole buffer, where both coordinates fit.
buffer-padded :
    (xb yb : Bytes) → length xb ≤ 32 → length yb ≤ 32 → buffer xb yb ≡ 4 ∷ padded xb ++ padded yb
unfolding buffer padded zeros
buffer-padded xb yb wide high =
    let front : Bytes = 4 ∷ padded xb in
    ap (λ (t : Bytes). copy_at (65 - length yb) yb (copy_at (33 - length xb) xb (4 ∷ t)))
      (zeros-add 32 32)
    ∙ ap (copy_at (65 - length yb) yb)
        (into_slot (4 ∷ []) xb (zeros 32) 32 (33 - length xb) wide (omega (arith, wide)))
    ∙ ap (λ (t : Bytes). copy_at (65 - length yb) yb (front ++ t)) (sym (append-nil (zeros 32)))
    ∙ into_slot front yb [] 32 (65 - length yb) high (omega (arith, high, length-padded xb wide))
    ∙ ap (λ (t : Bytes). front ++ t) (append-nil (padded yb))

-- Zeros in front of a coordinate do not matter.
padded-zeros :
    (k : ℕ) (src : Bytes) → length (zeros k ++ src) ≤ 32 → padded (zeros k ++ src) ≡ padded src
unfolding padded
padded-zeros k src fits =
    let long : length (zeros k ++ src) ≡ k + length src =
      length-append (zeros k) src ∙ omega (arith, length-zeros k) in
    let gap : 32 - length (zeros k ++ src) + k ≡ 32 - length src = omega (arith, long, fits) in
    sym (append_assoc (zeros (32 - length (zeros k ++ src))) (zeros k) src)
    ∙ ap (λ (t : Bytes). t ++ src) (sym (zeros-add (32 - length (zeros k ++ src)) k) ∙ ap zeros gap)

not_longer : (n : ℕ) (s : Bytes) → length s ≤ n → ltb n (length s) ≡ false
not_longer n s h = ground (arith, h)

public_key-padded :
    {K : Type 0} (parse : Bytes → Result K) (x y : Bytes)
    → length x ≤ 32
    → length y ≤ 32
    → p256_public_key parse x y ≡ parse (4 ∷ padded x ++ padded y)
unfolding p256_public_key
public_key-padded parse x y wide high =
    rw (p256_public_key, not_longer 32 x wide, not_longer 32 y high)
      (ap parse (buffer-padded x y wide high))

-- A full coordinate fills its slot.
padded-full : (src : Bytes) → length src ≡ 32 → padded src ≡ src
unfolding padded zeros
padded-full src h =
    let none_left : 32 - length src ≡ 0 = omega (arith, h) in ap (λ n. zeros n ++ src) none_left

unstripped :
    (full short : Bytes) (k : ℕ)
    → length full ≡ 32
    → full ≡ zeros k ++ short
    → (length short ≤ 32) × (padded short ≡ full)
unstripped full short k h same =
    let long : length full ≡ k + length short =
      ap length same ∙ length-append (zeros k) short ∙ omega (arith, length-zeros k) in
    (
      omega (arith, h, long),
      sym (padded-zeros k short (omega (arith, h, ap length same)))
          ∙ ap padded (sym same)
          ∙ padded-full full h,
    )

-- Of a set that the service publishes for a key with coordinates of 32 bytes and an uncompressed
-- point, the wallet parses the key's own point, also where the zeros in front of a coordinate were
-- left out.
pub p256_public_key-Publishes :
    {K : Type 0} (ks : KeySource) (set : List Jwk) (p : Publishes ks set) (parse : Bytes → Result K)
    (x y : Bytes) (k j : ℕ)
    → size_of p.key ≡ 32
    → p.form ≡ 4
    → p.x ≡ zeros k ++ x
    → p.y ≡ zeros j ++ y
    → (point : Bytes) × (p.key.ecdh ≡ ok point) × (p256_public_key parse x y ≡ parse point)
p256_public_key-Publishes ks set p parse x y k j size form left right =
    let (wide, filled_x) = unstripped p.x x k (p.wide ∙ size) left in
    let (high, filled_y) = unstripped p.y y j (p.high ∙ size) right in
    (
      _,
      p.point,
      public_key-padded parse x y wide high
          ∙ ap₂ (λ a b. parse (4 ∷ a ++ b)) filled_x filled_y
          ∙ ap (λ (f : ℕ). parse (f ∷ p.x ++ p.y)) (sym form),
    )
