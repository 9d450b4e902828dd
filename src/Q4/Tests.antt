-- ===== src/Q4/Tests.antt =====
-- Runs of the products, with integers for floats.
use free_token_rs.Prelude.{
  ℕ, ◌<◌, ◌≡◌, refl, true, false, some, List, [], ◌∷◌, ◌++◌, arith, All, length, replicate, get_or,
}
use free_token_rs.Prelude.Int.{ℤ, pos, negsuc, ◌+ℤ◌, ◌-ℤ◌, ◌*ℤ◌}
use free_token_rs.Q4.{
  row_bytes, window, overwrite, put, q4r_scales_bytes, q4r_row_bytes, q4_block, q4r_block,
  repack_from, repack_row_q4r, repack_rows, repack_q4r,
}
use free_token_rs.Q4.Vector.{
  low_weight, high_weight, block_sum, srli_epi16, and_low_mask, nibbles, saturate, maddubs,
  madd_ones, sub_lanes, diff_lanes,
}
use free_token_rs.Q4.Gemv.{
  Floats, Q8Vec, dot_from, scalar_step, fma_lanes, avx2_step, horizontal, dot_scalar, dot_avx2,
  dot_q4_q8_scalar, dot_q4_q8_avx2, dot_q4r_q8_scalar, dot_q4r_q8_avx2, rows_from, gemv_q8,
  gemv_q8_r,
}
use free_token_rs.Q4.Rows.{gemv-repacked}
use free_token_rs.Q4.Lanes.{IsByte, sum}
use free_token_rs.Q4.Integers.{diff_lanes-block_sum}

program : Unit {0}
unfolding row_bytes window overwrite put q4r_scales_bytes q4r_row_bytes q4_block q4r_block
    repack_from repack_row_q4r repack_rows repack_q4r low_weight high_weight block_sum srli_epi16
    and_low_mask nibbles saturate maddubs madd_ones sub_lanes diff_lanes dot_from scalar_step
    fma_lanes avx2_step horizontal dot_scalar dot_avx2 dot_q4_q8_scalar dot_q4_q8_avx2
    dot_q4r_q8_scalar dot_q4r_q8_avx2 rows_from gemv_q8 gemv_q8_r ◌+ℤ◌ ◌-ℤ◌ ◌*ℤ◌
program = tt

abbrev integers : Floats ℤ
integers = record {
  zero_float = pos 0;
  add = λ a b. a +ℤ b;
  mul = λ a b. a *ℤ b;
  fma = λ a b c. a *ℤ b +ℤ c;
  of_f16 = λ d. pos (get_or d 0 0);
  of_i32 = λ a. a;
}

abbrev packed : List ℕ
packed = 0x21 ∷ 0xF0 ∷ replicate 14 0x88

abbrev numbers : List ℤ
numbers = pos 127 ∷ negsuc 127 ∷ replicate 14 (pos 1) ++ pos 5 ∷ negsuc 2 ∷ replicate 14 (pos 2)

abbrev row : List ℕ
row = 2 ∷ 0 ∷ packed

abbrev vector : Q8Vec ℤ
vector = record { d = pos 3 ∷ []; qs = numbers }

-- -7 * 127 + 8 * 128 - 6 * 5 - 7 * 3 = 84, and the scales are 2 and 3.
scalar : gemv_q8 integers false row vector 1 ≡ some (pos 504 ∷ [])
unfolding program
scalar = refl

vectorized : gemv_q8 integers true row vector 1 ≡ some (pos 504 ∷ [])
unfolding program
vectorized = refl

repacked : repack_q4r row 1 32 ≡ some (2 ∷ 0 ∷ replicate 14 0 ++ packed)
unfolding program
repacked = refl

gemv-repacked_example :
    (w' : List ℕ) × (ys : List ℤ) × (repack_q4r row 1 32 ≡ some w')
    × (gemv_q8 integers true row vector 1 ≡ some ys)
    × (gemv_q8_r integers true w' vector 1 ≡ some ys)
    × (length ys ≡ 1)
unfolding row_bytes
gemv-repacked_example =
    gemv-repacked integers true row vector 1 18 refl (omega arith) (omega arith) refl

small_bytes : All (λ a. a < 256) packed
small_bytes = ground arith

signed_bytes : All IsByte numbers
signed_bytes = ground arith

diff_lanes-block_sum_example :
    (q8 : List ℤ) × (window numbers 0 32 ≡ some q8)
    × (length (diff_lanes packed q8) ≡ 8)
    × (block_sum packed numbers 0 (pos 0) ≡ some (sum (diff_lanes packed q8)))
diff_lanes-block_sum_example =
    diff_lanes-block_sum packed numbers 0 refl small_bytes signed_bytes (omega arith)
