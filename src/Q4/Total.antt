-- ===== src/Q4/Total.antt =====
-- The products of rows that are as long as they should be do not panic.
use free_token_rs.Prelude.{
  ℕ, zero, suc, ◌+◌, ◌*◌, ◌/◌, ◌≤◌, ◌<◌, ◌≡◌, refl, Bool, true, false, Option, some, List, [], ◌∷◌,
  arith, length, get_elem?-total, replicate, map, if◌then◌else◌,
}
use free_token_rs.Prelude.Int.{ℤ, pos, ◌+ℤ◌, ◌*ℤ◌}
use free_token_rs.Q4.{Block, q4_block}
use free_token_rs.Q4.Vector.{low_weight, high_weight, block_sum, diff_lanes}
use free_token_rs.Q4.Windows.{window_total}
use free_token_rs.Q4.Repacked.{q4_block_total}
use free_token_rs.Q4.Gemv.{
  Floats, Q8Vec, dot_from, scalar_step, avx2_step, fma_lanes, horizontal, dot_scalar, dot_avx2,
  dot_q4_q8_scalar, dot_q4_q8_avx2, rows_from,
}

block_sum_total :
    (qs : List ℕ) (xs : List ℤ) (at : ℕ) (s : ℤ)
    → at + length qs + 16 ≤ length xs
    → (r : ℤ) × (block_sum qs xs at s ≡ some r)
unfolding block_sum
block_sum_total [] xs at s h = (s, refl)
block_sum_total (q ∷ qs) xs at s h =
    let (x, is_x) = get_elem?-total xs at (omega arith) in
    let (y, is_y) = get_elem?-total xs (at + 16) (omega arith) in
    let (r, is) =
      block_sum_total qs xs (at + 1) (s +ℤ (low_weight q *ℤ x +ℤ high_weight q *ℤ y))
        (omega arith) in
    (r, rw (is_x, is_y) is)

-- The vector has a scale and 32 numbers for each of so many blocks.
abbrev pub Covers : {F : Type 0} → Q8Vec F → ℕ → Type 0
Covers x8 n = (n ≤ length x8.d) × (n * 32 ≤ length x8.qs)

dot_from_total :
    {S : Type 0} (row : List ℕ) (step : ℕ → Block → S → Option S) (limit n b : ℕ) (acc : S)
    → limit * 18 ≤ length row
    → ((c : ℕ) (d qs : List ℕ) (s : S)
        → c < limit
        → length qs ≡ 16
        → (s' : S) × (step c (d, qs) s ≡ some s'))
    → b + n ≤ limit
    → (s : S) × (dot_from (q4_block row) step n b acc ≡ some s)
unfolding dot_from
dot_from_total row step limit zero b acc h steps le = (acc, refl)
dot_from_total row step limit (suc n) b acc h steps le =
    let (d, qs, is, two, sixteen) = q4_block_total row b (omega arith) in
    let (s', stepped) = steps b d qs acc (omega arith) sixteen in
    let (s, ran) = dot_from_total row step limit n (b + 1) s' h steps (omega arith) in
    (s, rw (is, stepped) ran)

module _ {F : Type 0} (fl : Floats F) (x8 : Q8Vec F) (limit : ℕ) (covers : Covers x8 limit) where
  scalar_step_total :
      (c : ℕ) (d qs : List ℕ) (s : F)
      → c < limit
      → length qs ≡ 16
      → (s' : F) × (scalar_step fl x8 c (d, qs) s ≡ some s')
  unfolding scalar_step
  scalar_step_total c d qs s lt sixteen =
      let (d8, is_d) = get_elem?-total x8.d c (omega (arith, covers)) in
      let (r, is) = block_sum_total qs x8.qs (c * 32) (pos 0) (omega (arith, covers)) in
      (fl.add s (fl.mul (fl.mul (fl.of_f16 d) d8) (fl.of_i32 r)), rw (is_d, is) refl)

  avx2_step_total :
      (c : ℕ) (d qs : List ℕ) (s : List F)
      → c < limit
      → length qs ≡ 16
      → (s' : List F) × (avx2_step fl x8 c (d, qs) s ≡ some s')
  unfolding avx2_step
  avx2_step_total c d qs s lt sixteen =
      let (d8, is_d) = get_elem?-total x8.d c (omega (arith, covers)) in
      let (q8, is, len) = window_total x8.qs (c * 32) 32 (omega (arith, covers)) in
      (
        fma_lanes fl (map fl.of_i32 (diff_lanes qs q8)) (fl.mul (fl.of_f16 d) d8) s,
        rw (is_d, is) refl,
      )

  pub dot_total :
      (avx2 : Bool) (row : List ℕ)
      → length row ≡ limit * 18
      → (y : F) × ((if avx2 then dot_q4_q8_avx2 fl row x8 else dot_q4_q8_scalar fl row x8) ≡ some y)
  unfolding dot_q4_q8_avx2 dot_q4_q8_scalar dot_avx2 dot_scalar
  dot_total true row len =
      let (lanes, ran) =
        dot_from_total row (avx2_step fl x8) limit (length row / 18) 0 (replicate 8 fl.zero_float)
          (omega arith) avx2_step_total (omega arith) in
      (horizontal fl lanes, rw ran refl)
  dot_total false row len =
      dot_from_total row (scalar_step fl x8) limit (length row / 18) 0 fl.zero_float (omega arith)
        scalar_step_total (omega arith)

pub rows_from_total :
    {F : Type 0} (dot : List ℕ → Option F) (w : List ℕ) (rb n r : ℕ)
    → ((row : List ℕ) → length row ≡ rb → (y : F) × (dot row ≡ some y))
    → (r + n) * rb ≤ length w
    → (ys : List F) × (rows_from dot w rb n r ≡ some ys) × (length ys ≡ n)
unfolding rows_from
rows_from_total dot w rb zero r dots h = ([], refl, refl)
rows_from_total dot w rb (suc n) r dots h =
    let (row, is, row_len) = window_total w (r * rb) rb (omega arith) in
    let (y, product) = dots row row_len in
    let (ys, ran, len) = rows_from_total dot w rb n (r + 1) dots (omega arith) in
    (y ∷ ys, rw (is, product, ran) refl, omega arith)
