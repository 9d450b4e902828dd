-- ===== src/Q4/Vector.antt =====
-- The vector instructions that `dot_q4_q8_avx2` and `dot_q4r_q8_avx2` of ft-core/src/q4_0.rs use, on
-- lists of lanes, and the integers of a block.
use free_token_rs.Prelude.{
  ℕ, ◌+◌, ◌*◌, ◌/◌, ◌%◌, Option, some, List, [], ◌∷◌, ◌++◌, ◌>>=◌, if◌then◌else◌, get_elem?,
  replicate,
}
use free_token_rs.Prelude.Int.{ℤ, pos, negsuc, ◌+ℤ◌, ◌-ℤ◌, ◌*ℤ◌, ltb_ℤ}

-- The weights of a byte: `(q & 0xF) as i32 - 8` and `(q >> 4) as i32 - 8`.
unfoldable pub low_weight : ℕ → ℤ
low_weight q = pos (q % 16) -ℤ pos 8

unfoldable pub high_weight : ℕ → ℤ
high_weight q = pos (q / 16) -ℤ pos 8

-- The loop of the scalar product over the bytes of a block, whose numbers begin at `at`.
unfoldable pub block_sum : List ℕ → List ℤ → ℕ → ℤ → Option ℤ
block_sum [] xs at s = some s
block_sum (q ∷ qs) xs at s = get_elem? xs at >>= λ x. get_elem? xs (at + 16) >>= λ y.
    block_sum qs xs (at + 1) (s +ℤ (low_weight q *ℤ x +ℤ high_weight q *ℤ y))

-- `_mm_srli_epi16(packed, 4)`, on pairs of bytes.
unfoldable pub srli_epi16 : List ℕ → List ℕ
srli_epi16 [] = []
srli_epi16 (a ∷ []) = []
srli_epi16 (a ∷ b ∷ bytes) =
    let lane = (a + 256 * b) / 16 in lane % 256 ∷ lane / 256 ∷ srli_epi16 bytes

-- `_mm256_and_si256` with `low_mask`.
unfoldable pub and_low_mask : List ℕ → List ℕ
and_low_mask [] = []
and_low_mask (a ∷ bytes) = a % 16 ∷ and_low_mask bytes

-- The nibbles of a block, as `q4`.
unfoldable pub nibbles : List ℕ → List ℕ
nibbles packed = and_low_mask (packed ++ srli_epi16 packed)

-- Signed saturation to 16 bits.
unfoldable pub saturate : ℤ → ℤ
saturate a =
    if ltb_ℤ a (negsuc 32767) then negsuc 32767 else if ltb_ℤ (pos 32767) a then pos 32767 else a

-- `_mm256_maddubs_epi16`
unfoldable pub maddubs : List ℕ → List ℤ → List ℤ
maddubs (u ∷ v ∷ us) (x ∷ y ∷ xs) = saturate (pos u *ℤ x +ℤ pos v *ℤ y) ∷ maddubs us xs
maddubs (u ∷ v ∷ us) (x ∷ []) = []
maddubs (u ∷ v ∷ us) [] = []
maddubs (u ∷ []) xs = []
maddubs [] xs = []

-- `_mm256_madd_epi16` with `ones16`: two products fit 32 bits.
unfoldable pub madd_ones : List ℤ → List ℤ
madd_ones (x ∷ y ∷ xs) = (x +ℤ y) ∷ madd_ones xs
madd_ones (x ∷ []) = []
madd_ones [] = []

-- `_mm256_sub_epi32`
unfoldable pub sub_lanes : List ℤ → List ℤ → List ℤ
sub_lanes (x ∷ xs) (y ∷ ys) = (x -ℤ y) ∷ sub_lanes xs ys
sub_lanes [] ys = []
sub_lanes (x ∷ xs) [] = []

-- The lanes of `diff`.
unfoldable pub diff_lanes : List ℕ → List ℤ → List ℤ
diff_lanes packed q8 =
    sub_lanes (madd_ones (maddubs (nibbles packed) q8)) (madd_ones (maddubs (replicate 32 8) q8))
