-- ===== src/Gguf/File/Data.antt =====
-- `Gguf::tensor_data`.
use free_token_rs.Prelude.{
  ℕ, ◌+◌, ◌-◌, ◌%◌, ◌≤◌, ◌<◌, ◌≡◌, refl, ◌⊎◌, inl, inr, true, false, some, arith, ltb, length, take,
  drop, Bool-cases, u64_mod,
}
use free_token_rs.Text.{Text}
use free_token_rs.Gguf.Outcome.{Outcome, ok, bail, panic, out_of_bounds, Bytes}
use free_token_rs.Gguf.File.{TensorInfo, Gguf, get, tensor, data_between, tensor_data}

-- What is returned of `n` bytes that begin at `a`.
pub record Extent (mmap : Bytes) (n a : ℕ) (o : Outcome Bytes) : Type 0 where
  pub inside : a + n ≤ length mmap → o ≡ ok (take n (drop a mmap))
  pub outside : length mmap < a + n → a + n < u64_mod → o ≡ bail out_of_bounds
  pub wrapped : u64_mod ≤ a + n → (o ≡ bail out_of_bounds) ⊎ (o ≡ panic)

data_between-Extent :
    (mmap : Bytes) (n a : ℕ)
    → n < u64_mod
    → a < u64_mod
    → length mmap < u64_mod
    → Extent mmap n a (data_between mmap a ((a + n) % u64_mod))
unfolding data_between
data_between-Extent mmap n a small low fits =
    let b = (a + n) % u64_mod in
    record {
      inside = λ h.
          let e : b ≡ a + n = omega arith in
          let d : a + n - a ≡ n = omega arith in
          let enough : ltb (length mmap) (a + n) ≡ false = ground arith in
          let goes : ltb (a + n) a ≡ false = ground arith in rw (e, enough, goes, d) refl;
      outside = λ h plain.
          let e : b ≡ a + n = omega arith in
          let short : ltb (length mmap) (a + n) ≡ true = ground arith in rw (e, short) refl;
      wrapped = λ h. elim (Bool-cases (ltb (length mmap) b)) [
        | inl short ↦ rw short (inl refl)
        | inr enough ↦ let back : ltb b a ≡ true = ground arith in rw (enough, back) (inr refl)
      ];
    }

tensor_data_found :
    (g : Gguf) (name : Text) (t : TensorInfo)
    → get g.tensors name ≡ some t
    → let a = (g.data_start + t.offset) % u64_mod in
      tensor_data g name ≡ data_between g.mmap a ((a + t.nbytes) % u64_mod)
unfolding tensor_data tensor
tensor_data_found g name t found = rw (found, tensor_data, tensor) refl

-- The data of a tensor that the table has, of fewer than 2 ^ 64 bytes, in a file as short, begin
-- at the sum of the start of the data and the offset, as it wraps: if they end in the file,
-- `tensor_data` returns exactly these bytes; otherwise it is an error, or possibly a panic if
-- their end is past the largest `u64`.
pub tensor_data-Extent :
    (g : Gguf) (name : Text) (t : TensorInfo)
    → get g.tensors name ≡ some t
    → t.nbytes < u64_mod
    → length g.mmap < u64_mod
    → Extent g.mmap t.nbytes ((g.data_start + t.offset) % u64_mod) (tensor_data g name)
tensor_data-Extent g name t found small fits =
    let a = (g.data_start + t.offset) % u64_mod in
    rw (tensor_data_found g name t found)
      (data_between-Extent g.mmap t.nbytes a small (omega arith) fits)
