-- ===== src/Q4/Gemv.antt =====
-- The products of ft-core/src/q4_0.rs, over an interface of floats: they are all the same code in
-- each layout but for the reading of a block.
use free_token_rs.Prelude.{
  ℕ, zero, suc, ◌+◌, ◌*◌, ◌/◌, Bool, Option, none, some, List, [], ◌∷◌, ◌>>=◌, ◌==◌, map,
  if◌then◌else◌, length, get_elem?, replicate,
}
use free_token_rs.Prelude.Int.{ℤ, pos}
use free_token_rs.Q4.{qk, block_bytes, row_bytes, window, q4r_row_bytes, Block, q4_block, q4r_block}
use free_token_rs.Q4.Vector.{block_sum, diff_lanes}

-- The operations on `f32` that the products use, with the conversions from an `f16` of two bytes
-- and from an `i32`.
pub record Floats (F : Type 0) : Type 0 where
  pub zero_float : F
  pub add : F → F → F
  pub mul : F → F → F
  -- a * b + c, rounded once
  pub fma : F → F → F → F
  pub of_f16 : List ℕ → F
  pub of_i32 : ℤ → F

pub record Q8Vec (F : Type 0) : Type 0 where
  pub d : List F
  pub qs : List ℤ

-- The loop over the blocks of a row: so many, from a block on.
unfoldable pub dot_from :
    {S : Type 0} → (ℕ → Option Block) → (ℕ → Block → S → Option S) → ℕ → ℕ → S → Option S
dot_from read step zero b acc = some acc
dot_from read step (suc n) b acc =
    read b >>= λ blk. step b blk acc >>= λ acc'. dot_from read step n (b + 1) acc'

-- The loop over the rows, of `rb` bytes each: so many, from a row on.
unfoldable pub rows_from : {F : Type 0} → (List ℕ → Option F) → List ℕ → ℕ → ℕ → ℕ → Option (List F)
rows_from dot w rb zero r = some []
rows_from dot w rb (suc n) r = window w (r * rb) rb >>= λ row.
    dot row >>= λ y. rows_from dot w rb n (r + 1) >>= λ ys. some (y ∷ ys)

module _ {F : Type 0} (fl : Floats F) where
  -- The body of the loop in the scalar products.
  unfoldable pub scalar_step : Q8Vec F → ℕ → Block → F → Option F
  scalar_step x8 b blk acc = get_elem? x8.d b >>= λ d8.
      block_sum blk.1 x8.qs (b * qk) (pos 0) >>= λ s.
      some (fl.add acc (fl.mul (fl.mul (fl.of_f16 blk.0) d8) (fl.of_i32 s)))

  -- `_mm256_fmadd_ps` of the lanes with a scale.
  unfoldable pub fma_lanes : List F → F → List F → List F
  fma_lanes (a ∷ as_floats) scale (c ∷ acc) = fl.fma a scale c ∷ fma_lanes as_floats scale acc
  fma_lanes (a ∷ as_floats) scale [] = []
  fma_lanes [] scale acc = []

  -- The body of the loop in the vector products.
  unfoldable pub avx2_step : Q8Vec F → ℕ → Block → List F → Option (List F)
  avx2_step x8 b blk acc = get_elem? x8.d b >>= λ d8. window x8.qs (b * qk) 32 >>= λ q8.
      some (fma_lanes (map fl.of_i32 (diff_lanes blk.1 q8)) (fl.mul (fl.of_f16 blk.0) d8) acc)

  -- The horizontal sum of the eight lanes.
  unfoldable pub horizontal : List F → F
  horizontal (a ∷ b ∷ c ∷ d ∷ e ∷ f ∷ g ∷ h ∷ []) =
      fl.add (fl.add (fl.add a e) (fl.add b f)) (fl.add (fl.add c g) (fl.add d h))
  horizontal other = fl.zero_float

  unfoldable pub dot_scalar : (ℕ → Option Block) → Q8Vec F → ℕ → Option F
  dot_scalar read x8 n = dot_from read (scalar_step x8) n 0 fl.zero_float

  unfoldable pub dot_avx2 : (ℕ → Option Block) → Q8Vec F → ℕ → Option F
  dot_avx2 read x8 n = dot_from read (avx2_step x8) n 0 (replicate 8 fl.zero_float) >>= λ lanes.
      some (horizontal lanes)

  unfoldable pub dot_q4_q8_scalar : List ℕ → Q8Vec F → Option F
  dot_q4_q8_scalar row x8 = dot_scalar (q4_block row) x8 (length row / block_bytes)

  unfoldable pub dot_q4_q8_avx2 : List ℕ → Q8Vec F → Option F
  dot_q4_q8_avx2 row x8 = dot_avx2 (q4_block row) x8 (length row / block_bytes)

  unfoldable pub dot_q4r_q8_scalar : List ℕ → Q8Vec F → ℕ → Option F
  dot_q4r_q8_scalar row x8 k = dot_scalar (q4r_block row k) x8 (k / qk)

  unfoldable pub dot_q4r_q8_avx2 : List ℕ → Q8Vec F → ℕ → Option F
  dot_q4r_q8_avx2 row x8 k = dot_avx2 (q4r_block row k) x8 (k / qk)

  -- `gemv_q8`: whether the processor has AVX2, and how many rows there are.
  unfoldable pub gemv_q8 : Bool → List ℕ → Q8Vec F → ℕ → Option (List F)
  gemv_q8 avx2 w x8 n = row_bytes (length x8.qs) >>= λ rb.
      if length w == rb * n
      then rows_from (λ row. if avx2 then dot_q4_q8_avx2 row x8 else dot_q4_q8_scalar row x8) w rb n
          0
      else none

  unfoldable pub gemv_q8_r : Bool → List ℕ → Q8Vec F → ℕ → Option (List F)
  gemv_q8_r avx2 w x8 n =
      let k = length x8.qs in
      let rb = q4r_row_bytes k in
      if length w == rb * n
      then rows_from (λ row. if avx2 then dot_q4r_q8_avx2 row x8 k else dot_q4r_q8_scalar row x8 k)
          w rb n 0
      else none
