-- ===== src/Q4/Integers.antt =====
-- The eight integers that the vector code has for a block, and the one of the scalar code.
use free_token_rs.Prelude.{
  ℕ, zero, suc, ◌+◌, ◌*◌, ◌/◌, ◌%◌, ◌≤◌, ◌<◌, ◌≡◌, refl, sym, ap, subst, ◌∙◌, inl, inr, some, List,
  [], ◌∷◌, ◌++◌, arith, All, All-append, length, length-append, get_elem?, Option-cases, Bool-cases,
  leb,
}
use free_token_rs.Prelude.Int.{ℤ, pos, ◌+ℤ◌, ◌*ℤ◌, int_laws}
use free_token_rs.Q4.{window}
use free_token_rs.Q4.Windows.{window_total}
use free_token_rs.Q4.Vector.{
  low_weight, high_weight, block_sum, srli_epi16, and_low_mask, nibbles, diff_lanes,
}
use free_token_rs.Q4.Lanes.{IsByte, sum, IsEven, IsEven-of_length, weighted, lanes_of, sum-lanes_of}

abbrev lows : List ℕ → List ℕ
lows [] = []
lows (a ∷ bytes) = a % 16 ∷ lows bytes

abbrev highs : List ℕ → List ℕ
highs [] = []
highs (a ∷ bytes) = a / 16 ∷ highs bytes

and_low_mask-append : (xs ys : List ℕ) → and_low_mask (xs ++ ys) ≡ lows xs ++ and_low_mask ys
unfolding and_low_mask
and_low_mask-append [] ys = refl
and_low_mask-append (x ∷ xs) ys = ap (λ l. x % 16 ∷ l) (and_low_mask-append xs ys)

first_shifted : (a b : ℕ) → a < 256 → (a + 256 * b) / 16 % 256 % 16 ≡ a / 16
first_shifted a b h = omega arith

second_shifted : (a b : ℕ) → a < 256 → b < 256 → (a + 256 * b) / 16 / 256 % 16 ≡ b / 16
second_shifted a b h k = omega arith

and_low_mask-srli :
    (xs : List ℕ) → IsEven xs → All (λ a. a < 256) xs → and_low_mask (srli_epi16 xs) ≡ highs xs
unfolding and_low_mask srli_epi16
and_low_mask-srli [] even small = refl
and_low_mask-srli (a ∷ []) even small = absurd even
and_low_mask-srli (a ∷ b ∷ xs) even (small_a, (small_b, small)) =
    rw
      (
        first_shifted a b small_a,
        second_shifted a b small_a small_b,
        and_low_mask-srli xs even small,
      )
      refl

nibbles_lem : (xs : List ℕ) → IsEven xs → All (λ a. a < 256) xs → nibbles xs ≡ lows xs ++ highs xs
unfolding nibbles
nibbles_lem xs even small =
    and_low_mask-append xs (srli_epi16 xs)
    ∙ ap (λ l. lows xs ++ l) (and_low_mask-srli xs even small)

length-lows : (xs : List ℕ) → length (lows xs) ≡ length xs
length-lows [] = refl
length-lows (x ∷ xs) = ap suc (length-lows xs)

length-highs : (xs : List ℕ) → length (highs xs) ≡ length xs
length-highs [] = refl
length-highs (x ∷ xs) = ap suc (length-highs xs)

lows-All : (xs : List ℕ) → All (λ u. u < 16) (lows xs)
lows-All [] = tt
lows-All (x ∷ xs) = (omega arith, lows-All xs)

highs-All : (xs : List ℕ) → All (λ a. a < 256) xs → All (λ u. u < 16) (highs xs)
highs-All [] small = tt
highs-All (x ∷ xs) (small_x, small) = (omega arith, highs-All xs small)

weighted-append :
    (us vs : List ℕ) (xs ys : List ℤ)
    → length us ≡ length xs
    → weighted (us ++ vs) (xs ++ ys) ≡ weighted us xs +ℤ weighted vs ys
weighted-append [] vs [] ys e = omega int_laws
weighted-append [] vs (x ∷ xs) ys e = absurd (omega arith)
weighted-append (u ∷ us) vs [] ys e = absurd (omega arith)
weighted-append (u ∷ us) vs (x ∷ xs) ys e =
    rw (weighted-append us vs xs ys (omega arith)) (omega int_laws)

module _ {A : Type 0} where
  window-zero : (xs : List A) (at : ℕ) (l : List A) → window xs at 0 ≡ some l → l ≡ []
  unfolding window
  window-zero xs at l h = elim (Bool-cases (leb at (length xs))) [
    | inl inside ↦ ground (arith, h, inside)
    | inr outside ↦ absurd (ground (arith, h, outside))
  ]

  -- A window of at least one element.
  window-suc :
      (xs : List A) (at n : ℕ) (l : List A)
      → window xs at (suc n) ≡ some l
      → (x : A) × (rest : List A) × (get_elem? xs at ≡ some x)
        × (window xs (suc at) n ≡ some rest)
        × (l ≡ x ∷ rest)
  unfolding window
  window-suc xs at n l h = elim (Option-cases (get_elem? xs at)) [
    | inl beyond ↦ absurd (ground (arith, h, beyond))
    | inr (x, is) ↦ elim (Option-cases (window xs (suc at) n)) [
      | inl short ↦ absurd (ground (arith, h, is, short))
      | inr (rest, there) ↦ (x, rest, is, there, ground (arith, h, is, there))
    ]
  ]

  -- Windows beside each other.
  window-join :
      (xs : List A) (at m n : ℕ) (l r : List A)
      → window xs at m ≡ some l
      → window xs (at + m) n ≡ some r
      → window xs at (m + n) ≡ some (l ++ r)
  unfolding window
  window-join xs at zero n l r is_l is_r =
      rw (window-zero xs at l is_l)
        (ap (window xs at) (omega arith) ∙ ap (λ i. window xs i n) (omega arith) ∙ is_r)
  window-join xs at (suc m) n l r is_l is_r =
      let (x, rest, is, there, same) = window-suc xs at m l is_l in
      let beside : window xs (suc at + m) n ≡ some r =
        ap (λ i. window xs i n) (omega arith) ∙ is_r in
      let more : suc m + n ≡ suc (m + n) = omega arith in
      rw (same, more) (rw (is, window-join xs (suc at) m n rest r there beside) refl)

  All-get :
      (P : A → Type 0) (xs : List A) (i : ℕ) (x : A) → All P xs → get_elem? xs i ≡ some x → P x
  All-get P [] i x h is = absurd (ground (arith, is))
  All-get P (y ∷ xs) zero x h is = subst P (ground (arith, is)) h.0
  All-get P (y ∷ xs) (suc i) x h is = All-get P xs i x h.1 is

  -- The elements of a window are some of the list's.
  window-All :
      (P : A → Type 0) (xs : List A) (at n : ℕ) (l : List A)
      → All P xs
      → window xs at n ≡ some l
      → All P l
  window-All P xs at zero l h is = rw (window-zero xs at l is) tt
  window-All P xs at (suc n) l h is =
      let (x, rest, got, there, same) = window-suc xs at n l is in
      rw same (All-get P xs at x h got, window-All P xs (suc at) n rest h there)

-- The scalar loop, with the numbers that it meets.
block_sum-weighted :
    (qs : List ℕ) (xs lo hi : List ℤ) (at : ℕ) (s : ℤ)
    → window xs at (length qs) ≡ some lo
    → window xs (at + 16) (length qs) ≡ some hi
    → block_sum qs xs at s ≡ some (s +ℤ (weighted (lows qs) lo +ℤ weighted (highs qs) hi))
unfolding block_sum low_weight high_weight
block_sum-weighted [] xs lo hi at s is_lo is_hi = ap some (omega int_laws)
block_sum-weighted (q ∷ qs) xs lo hi at s is_lo is_hi =
    let (x, lo', got_x, there_lo, same_lo) = window-suc xs at (length qs) lo is_lo in
    let (y, hi', got_y, there_hi, same_hi) = window-suc xs (at + 16) (length qs) hi is_hi in
    let next_lo : window xs (at + 1) (length qs) ≡ some lo' =
      ap (λ i. window xs i (length qs)) (omega arith) ∙ there_lo in
    let next_hi : window xs (at + 1 + 16) (length qs) ≡ some hi' =
      ap (λ i. window xs i (length qs)) (omega arith) ∙ there_hi in
    rw (same_lo, same_hi, got_x, got_y)
      (block_sum-weighted qs xs lo' hi' (at + 1) (s +ℤ (low_weight q *ℤ x +ℤ high_weight q *ℤ y))
          next_lo next_hi
        ∙ ap some (omega int_laws))

zero_add : (a : ℤ) → pos 0 +ℤ a ≡ a
zero_add a = omega int_laws

-- For a block of 16 bytes and at least 32 signed bytes from `at` on: the vector code has eight
-- lanes, none of which saturates on the way, and their sum is the integer of the scalar code.
pub diff_lanes-block_sum :
    (packed : List ℕ) (xs : List ℤ) (at : ℕ)
    → length packed ≡ 16
    → All (λ a. a < 256) packed
    → All IsByte xs
    → at + 32 ≤ length xs
    → (q8 : List ℤ) × (window xs at 32 ≡ some q8)
      × (length (diff_lanes packed q8) ≡ 8)
      × (block_sum packed xs at (pos 0) ≡ some (sum (diff_lanes packed q8)))
unfolding diff_lanes
diff_lanes-block_sum packed xs at sixteen small bytes room =
    let (lo, is_lo, len_lo) = window_total xs at 16 (omega arith) in
    let (hi, is_hi, len_hi) = window_total xs (at + 16) 16 (omega arith) in
    let is = window-join xs at 16 16 lo hi is_lo is_hi in
    let lanes = nibbles_lem packed (IsEven-of_length 8 packed sixteen) small in
    let (count, total) =
      sum-lanes_of (lows packed ++ highs packed) (lo ++ hi)
        (length-append (lows packed) (highs packed)
          ∙ omega (arith, length-lows packed, length-highs packed))
        (length-append lo hi ∙ omega arith)
        (All-append (λ u. u < 16) (lows packed) (highs packed) (lows-All packed)
          (highs-All packed small))
        (window-All IsByte xs at 32 (lo ++ hi) bytes is) in
    (
      lo ++ hi,
      is,
      rw lanes count,
      block_sum-weighted packed xs lo hi at (pos 0) (ap (window xs at) sixteen ∙ is_lo)
            (ap (window xs (at + 16)) sixteen ∙ is_hi)
          ∙ ap some (
              zero_add (weighted (lows packed) lo +ℤ weighted (highs packed) hi)
              ∙ sym (
                  weighted-append (lows packed) (highs packed) lo hi
                    (omega (arith, length-lows packed)))
              ∙ sym total
              ∙ sym (ap (λ us. sum (lanes_of us (lo ++ hi))) lanes)),
    )
