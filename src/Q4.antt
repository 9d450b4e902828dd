-- ===== src/Q4.antt =====
-- ft-core/src/q4_0.rs: rows of weights in blocks of 32, in the layout of ggml and in the repacked
-- one, and their products with a quantized vector.
pub mod Vector
pub mod Gemv
pub mod Windows
pub mod Repacked
pub mod Total
pub mod Rows
pub mod Lanes
pub mod Integers
mod Tests
use free_token_rs.Prelude.{
  ℕ, zero, suc, ◌+◌, ◌-◌, ◌*◌, ◌/◌, ◌%◌, Option, none, some, List, [], ◌∷◌, ◌++◌, ◌>>=◌, ◌==◌, leb,
  if◌then◌else◌, length, get_elem?, replicate, not, ◌||◌,
}

-- `QK` and `BLOCK_BYTES`
abbrev pub qk : ℕ
qk = 32

abbrev pub block_bytes : ℕ
block_bytes = 18

-- `row_bytes`, with its assertion.
unfoldable pub row_bytes : ℕ → Option ℕ
row_bytes k = if k % qk == 0 then some (k / qk * block_bytes) else none

-- `&xs[at..at + n]`
unfoldable pub window : {A : Type 0} → List A → ℕ → ℕ → Option (List A)
window xs at zero = if leb at (length xs) then some [] else none
window xs at (suc n) = get_elem? xs at >>= λ x. window xs (suc at) n >>= λ l. some (x ∷ l)

-- The elements from `at` on, replaced by those of a list as far as there are any.
unfoldable pub overwrite : List ℕ → ℕ → List ℕ → List ℕ
overwrite [] at new = []
overwrite (x ∷ xs) (suc at) new = x ∷ overwrite xs at new
overwrite (x ∷ xs) zero [] = x ∷ xs
overwrite (x ∷ xs) zero (y ∷ new) = y ∷ overwrite xs zero new

-- `dst[at..at + new.len()].copy_from_slice(new)`
unfoldable pub put : List ℕ → ℕ → List ℕ → Option (List ℕ)
put dst at new = if leb (at + length new) (length dst) then some (overwrite dst at new) else none

unfoldable pub q4r_scales_bytes : ℕ → ℕ
q4r_scales_bytes k = let n = k / qk * 2 in (n + 15) / 16 * 16

unfoldable pub q4r_row_bytes : ℕ → ℕ
q4r_row_bytes k = q4r_scales_bytes k + k / qk * 16

-- A block: the bytes of its scale and its bytes of nibbles.
abbrev pub Block : Type 0
Block = List ℕ × List ℕ

-- A block of a row of `chunks_exact(BLOCK_BYTES)`.
unfoldable pub q4_block : List ℕ → ℕ → Option Block
q4_block row b = window row (b * 18) 2 >>= λ d. window row (b * 18 + 2) 16 >>= λ qs. some (d, qs)

-- A block of a repacked row.
unfoldable pub q4r_block : List ℕ → ℕ → ℕ → Option Block
q4r_block row k b =
    window row (b * 2) 2 >>= λ d. window row (q4r_scales_bytes k + b * 16) 16 >>= λ qs. some (d, qs)

-- The loop of `repack_row_q4r`: so many blocks, from a block on.
unfoldable pub repack_from : List ℕ → ℕ → ℕ → ℕ → List ℕ → Option (List ℕ)
repack_from src qs_off zero b dst = some dst
repack_from src qs_off (suc n) b dst = q4_block src b >>= λ blk. put dst (b * 2) blk.0 >>= λ scaled.
    put scaled (qs_off + b * 16) blk.1 >>= λ written. repack_from src qs_off n (b + 1) written

unfoldable pub repack_row_q4r : List ℕ → List ℕ → ℕ → Option (List ℕ)
repack_row_q4r src dst k = row_bytes k >>= λ rb.
    if not (length src == rb) || not (length dst == q4r_row_bytes k)
    then none
    else repack_from src (q4r_scales_bytes k) (k / qk) 0 dst

-- The rows of `repack_q4r` in ft-model/src/lib.rs: so many, from a row on.
unfoldable pub repack_rows : List ℕ → ℕ → ℕ → ℕ → ℕ → Option (List ℕ)
repack_rows src rb k zero r = some []
repack_rows src rb k (suc n) r = window src (r * rb) rb >>= λ row.
    repack_row_q4r row (replicate (q4r_row_bytes k) 0) k >>= λ packed.
    repack_rows src rb k n (r + 1) >>= λ rows. some (packed ++ rows)

-- `repack_q4r`. Chunks of no bytes are a panic.
unfoldable pub repack_q4r : List ℕ → ℕ → ℕ → Option (List ℕ)
repack_q4r src n_rows k = row_bytes k >>= λ rb.
    if not (length src == n_rows * rb) || q4r_row_bytes k == 0
    then none
    else repack_rows src rb k n_rows 0
