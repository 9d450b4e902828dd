-- ===== src/Q4/Lanes.antt =====
-- The integers of the vector products are those of the scalar ones: no lane saturates.
use native.Mathlib.Nat.{mul-le-mul}
use free_token_rs.Prelude.{
  ℕ, zero, suc, ◌+◌, ◌*◌, ◌≤◌, ◌<◌, ◌≡◌, refl, sym, ap, ◌∙◌, List, [], ◌∷◌, arith, All, length,
  replicate,
}
use free_token_rs.Prelude.Int.{ℤ, pos, pos_part, neg_part, ◌+ℤ◌, ◌-ℤ◌, ◌*ℤ◌, eq_of_parts, int_laws}
use free_token_rs.Q4.Vector.{saturate, maddubs, madd_ones, sub_lanes}

-- An `i8`.
abbrev pub IsByte : ℤ → Type 0
IsByte x = (pos_part x ≤ 127) × (neg_part x ≤ 128)

abbrev pub sum : List ℤ → ℤ
sum [] = pos 0
sum (x ∷ xs) = x +ℤ sum xs

*ℤ_parts :
    (a b : ℤ)
    → pos_part (a *ℤ b) + (pos_part a * neg_part b + neg_part a * pos_part b)
      ≡ neg_part (a *ℤ b) + (pos_part a * pos_part b + neg_part a * neg_part b)
unfolding ◌*ℤ◌
*ℤ_parts a b = ground arith

-- A weight times a number.
weight_mul : (u : ℕ) (x : ℤ) → (pos u -ℤ pos 8) *ℤ x ≡ pos u *ℤ x -ℤ pos 8 *ℤ x
weight_mul u x =
    let w = pos u -ℤ pos 8 in
    let eq : pos_part w + 8 ≡ neg_part w + u = omega int_laws in
    let by_pos : (pos_part w + 8) * pos_part x ≡ (neg_part w + u) * pos_part x =
      ap (λ t. t * pos_part x) eq in
    let by_neg : (pos_part w + 8) * neg_part x ≡ (neg_part w + u) * neg_part x =
      ap (λ t. t * neg_part x) eq in
    eq_of_parts _ _
      (omega (int_laws, *ℤ_parts w x, *ℤ_parts (pos u) x, *ℤ_parts (pos 8) x, by_pos, by_neg))

-- The parts of an integer are at most `m`.
abbrev pub Within : ℕ → ℤ → Type 0
Within m a = (pos_part a ≤ m) × (neg_part a ≤ m)

pub *ℤ-parts_below :
    (u : ℕ) (x : ℤ)
    → (pos_part (pos u *ℤ x) ≤ u * pos_part x) × (neg_part (pos u *ℤ x) ≤ u * neg_part x)
unfolding ◌*ℤ◌
*ℤ-parts_below u x = ground arith

pub +ℤ-Within : (m n : ℕ) (a b : ℤ) → Within m a → Within n b → Within (m + n) (a +ℤ b)
unfolding ◌+ℤ◌
+ℤ-Within m n a b h k = ground (arith, h, k)

product_small : (u : ℕ) (x : ℤ) → u < 16 → IsByte x → Within 1920 (pos u *ℤ x)
product_small u x small byte =
    let within = *ℤ-parts_below u x in
    let up : u * pos_part x ≤ 15 * 127 = mul-le-mul {n₂ = 15} (omega arith) byte.0 in
    let down : u * neg_part x ≤ 15 * 128 = mul-le-mul {n₂ = 15} (omega arith) byte.1 in
    (omega (arith, within, up), omega (arith, within, down))

saturate_small : (a : ℤ) → Within 3840 a → saturate a ≡ a
unfolding saturate
saturate_small a h = ground (arith, h)

unsaturated :
    (u v : ℕ) (x y : ℤ)
    → u < 16
    → v < 16
    → IsByte x
    → IsByte y
    → saturate (pos u *ℤ x +ℤ pos v *ℤ y) ≡ pos u *ℤ x +ℤ pos v *ℤ y
unsaturated u v x y small_u small_v byte_x byte_y = saturate_small (pos u *ℤ x +ℤ pos v *ℤ y) (
    +ℤ-Within 1920 1920 (pos u *ℤ x) (pos v *ℤ y) (product_small u x small_u byte_x)
      (product_small v y small_v byte_y))

-- The products of the lanes, and their sum.
abbrev dot : List ℕ → List ℤ → ℤ
dot [] xs = pos 0
dot (u ∷ us) [] = pos 0
dot (u ∷ us) (x ∷ xs) = pos u *ℤ x +ℤ dot us xs

abbrev pub IsEven {ℓ} : {A : Type ℓ} → List A → Type 0
IsEven [] = Unit
IsEven (x ∷ []) = ⊥
IsEven (x ∷ y ∷ xs) = IsEven xs

sum-maddubs :
    (us : List ℕ) (xs : List ℤ)
    → length us ≡ length xs
    → IsEven us
    → All (λ u. u < 16) us
    → All IsByte xs
    → sum (maddubs us xs) ≡ dot us xs
unfolding maddubs
sum-maddubs [] xs len even small bytes = refl
sum-maddubs (u ∷ []) xs len even small bytes = absurd even
sum-maddubs (u ∷ v ∷ us) [] len even small bytes = absurd (omega arith)
sum-maddubs (u ∷ v ∷ us) (x ∷ []) len even small bytes = absurd (omega arith)
sum-maddubs (u ∷ v ∷ us) (x ∷ y ∷ xs) len even (small_u, (small_v, small))
      (byte_x, (byte_y, bytes)) =
    rw
      (
        unsaturated u v x y small_u small_v byte_x byte_y,
        sum-maddubs us xs (omega arith) even small bytes,
      )
      (omega int_laws)

sum-madd_ones : (xs : List ℤ) → IsEven xs → sum (madd_ones xs) ≡ sum xs
unfolding madd_ones
sum-madd_ones [] even = refl
sum-madd_ones (x ∷ []) even = absurd even
sum-madd_ones (x ∷ y ∷ xs) even = rw (sum-madd_ones xs even) (omega int_laws)

sum-sub_lanes : (xs ys : List ℤ) → length xs ≡ length ys → sum (sub_lanes xs ys) ≡ sum xs -ℤ sum ys
unfolding sub_lanes
sum-sub_lanes [] [] len = omega int_laws
sum-sub_lanes [] (y ∷ ys) len = absurd (omega arith)
sum-sub_lanes (x ∷ xs) [] len = absurd (omega arith)
sum-sub_lanes (x ∷ xs) (y ∷ ys) len = rw (sum-sub_lanes xs ys (omega arith)) (omega int_laws)

-- The product with the weights.
abbrev pub weighted : List ℕ → List ℤ → ℤ
weighted [] xs = pos 0
weighted (u ∷ us) [] = pos 0
weighted (u ∷ us) (x ∷ xs) = (pos u -ℤ pos 8) *ℤ x +ℤ weighted us xs

dot-weighted :
    (us : List ℕ) (xs : List ℤ) (n : ℕ)
    → length us ≡ n
    → length xs ≡ n
    → dot us xs -ℤ dot (replicate n 8) xs ≡ weighted us xs
dot-weighted [] [] zero e f = omega int_laws
dot-weighted [] xs (suc n) e f = absurd (omega arith)
dot-weighted (u ∷ us) xs zero e f = absurd (omega arith)
dot-weighted (u ∷ us) [] (suc n) e f = absurd (omega arith)
dot-weighted [] (x ∷ xs) zero e f = absurd (omega arith)
dot-weighted (u ∷ us) (x ∷ xs) (suc n) e f =
    rw (weight_mul u x, ← dot-weighted us xs n (omega arith) (omega arith)) (omega int_laws)

pub IsEven-of_length : {A : Type 0} (m : ℕ) (xs : List A) → length xs ≡ m + m → IsEven xs
IsEven-of_length m [] len = tt
IsEven-of_length m (x ∷ []) len = absurd (omega arith)
IsEven-of_length zero (x ∷ y ∷ xs) len = absurd (omega arith)
IsEven-of_length (suc m) (x ∷ y ∷ xs) len = IsEven-of_length m xs (omega arith)

length-maddubs :
    (m : ℕ) (us : List ℕ) (xs : List ℤ)
    → length us ≡ m + m
    → length xs ≡ m + m
    → length (maddubs us xs) ≡ m
unfolding maddubs
length-maddubs m [] xs e f = omega arith
length-maddubs m (u ∷ []) xs e f = absurd (omega arith)
length-maddubs m (u ∷ v ∷ us) [] e f = absurd (omega arith)
length-maddubs m (u ∷ v ∷ us) (x ∷ []) e f = absurd (omega arith)
length-maddubs zero (u ∷ v ∷ us) (x ∷ y ∷ xs) e f = absurd (omega arith)
length-maddubs (suc m) (u ∷ v ∷ us) (x ∷ y ∷ xs) e f =
    ap suc (length-maddubs m us xs (omega arith) (omega arith))

length-madd_ones : (m : ℕ) (xs : List ℤ) → length xs ≡ m + m → length (madd_ones xs) ≡ m
unfolding madd_ones
length-madd_ones m [] e = omega arith
length-madd_ones m (x ∷ []) e = absurd (omega arith)
length-madd_ones zero (x ∷ y ∷ xs) e = absurd (omega arith)
length-madd_ones (suc m) (x ∷ y ∷ xs) e = ap suc (length-madd_ones m xs (omega arith))

length-sub_lanes : (xs ys : List ℤ) → length xs ≡ length ys → length (sub_lanes xs ys) ≡ length xs
unfolding sub_lanes
length-sub_lanes [] ys e = refl
length-sub_lanes (x ∷ xs) [] e = absurd (omega arith)
length-sub_lanes (x ∷ xs) (y ∷ ys) e = ap suc (length-sub_lanes xs ys (omega arith))

-- The lanes of 32 nibbles and the numbers that they meet.
abbrev pub lanes_of : List ℕ → List ℤ → List ℤ
lanes_of us q8 = sub_lanes (madd_ones (maddubs us q8)) (madd_ones (maddubs (replicate 32 8) q8))

eights-All : (n : ℕ) → All (λ u. u < 16) (replicate n 8)
eights-All zero = tt
eights-All (suc n) = (omega arith, eights-All n)

lane_sum :
    (us : List ℕ) (q8 : List ℤ)
    → length us ≡ 32
    → length q8 ≡ 32
    → All (λ u. u < 16) us
    → All IsByte q8
    → sum (madd_ones (maddubs us q8)) ≡ dot us q8
lane_sum us q8 len len8 small bytes =
    sum-madd_ones (maddubs us q8)
      (IsEven-of_length 8 (maddubs us q8) (length-maddubs 16 us q8 len len8))
    ∙ sum-maddubs us q8 (len ∙ sym len8) (IsEven-of_length 16 us len) small bytes

pub sum-lanes_of :
    (us : List ℕ) (q8 : List ℤ)
    → length us ≡ 32
    → length q8 ≡ 32
    → All (λ u. u < 16) us
    → All IsByte q8
    → (length (lanes_of us q8) ≡ 8) × (sum (lanes_of us q8) ≡ weighted us q8)
sum-lanes_of us q8 len len8 small bytes =
    let a = length-maddubs 16 us q8 len len8 in
    let b = length-maddubs 16 (replicate 32 8) q8 refl len8 in
    let c = length-madd_ones 8 (maddubs us q8) a in
    let d = length-madd_ones 8 (maddubs (replicate 32 8) q8) b in
    (
      length-sub_lanes (madd_ones (maddubs us q8)) (madd_ones (maddubs (replicate 32 8) q8))
            (c ∙ sym d)
          ∙ c,
      sum-sub_lanes (madd_ones (maddubs us q8)) (madd_ones (maddubs (replicate 32 8) q8))
            (c ∙ sym d)
          ∙ ap (λ t. t -ℤ sum (madd_ones (maddubs (replicate 32 8) q8)))
              (lane_sum us q8 len len8 small bytes)
          ∙ ap (λ t. dot us q8 -ℤ t) (lane_sum (replicate 32 8) q8 refl len8 (eights-All 32) bytes)
          ∙ dot-weighted us q8 32 len len8,
    )
