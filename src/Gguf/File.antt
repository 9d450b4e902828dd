-- ===== src/Gguf/File.antt =====
-- `block_layout` and `Gguf` of ft-gguf/src/lib.rs. The mapped file is its list of bytes.
pub mod Forward
pub mod Opened
pub mod Data
pub mod Sized
use free_token_rs.Prelude.{
  ℕ, zero, suc, ◌+◌, ◌-◌, ◌*◌, ◌/◌, ◌%◌, Bool, not, ◌&&◌, Option, none, some, List, [], ◌∷◌, ◌++◌,
  ◌==◌, leb, ltb, if◌then◌else◌, length, u64_mod,
}
use free_token_rs.Text.{Text, codes, text_eq}
use free_token_rs.Gguf.Outcome.{
  Error, Outcome, ok, bail, panic, stuck, Bytes, M, pure, fail, lift, ◌>>=◌, ◌>>◌, slice,
  take_bytes, loop, not_gguf, bad_version, unsupported_ggml_type, not_divisible, not_found,
  out_of_bounds,
}
use free_token_rs.Gguf.Value.{Value, as_u64}
use free_token_rs.Gguf.Reader.{read_u32, read_u64, read_string, read_value}

-- `HashMap::insert`: the newest entry of a key stands first.
abbrev pub insert {ℓ} : {A : Type ℓ} → List (Text × A) → Text → A → List (Text × A)
insert m key v = (key, v) ∷ m

-- `HashMap::get`
unfoldable pub get {ℓ} : {A : Type ℓ} → List (Text × A) → Text → Option A
get [] key = none
get ((k, v) ∷ m) key = if text_eq k key then some v else get m key

-- The elements and the bytes of a block of each type.
unfoldable pub block_layout : ℕ → Outcome (ℕ × ℕ)
block_layout ggml_type =
    if ggml_type == 0
    then ok (1, 4)
    else if ggml_type == 1
    then ok (1, 2)
    else if ggml_type == 2
    then ok (32, 18)
    else if ggml_type == 3
    then ok (32, 20)
    else if ggml_type == 6
    then ok (32, 22)
    else if ggml_type == 7
    then ok (32, 24)
    else if ggml_type == 8
    then ok (32, 34)
    else if ggml_type == 10
    then ok (256, 84)
    else if ggml_type == 11
    then ok (256, 110)
    else if ggml_type == 12
    then ok (256, 144)
    else if ggml_type == 13
    then ok (256, 176)
    else if ggml_type == 14
    then ok (256, 210)
    else if ggml_type == 16
    then ok (256, 66)
    else if ggml_type == 30
    then ok (1, 2)
    else bail (unsupported_ggml_type ggml_type)

pub record TensorInfo : Type 0 where
  pub dims : List ℕ
  pub ggml_type : ℕ
  pub offset : ℕ
  pub nbytes : ℕ

pub record Gguf : Type 0 where
  pub mmap : Bytes
  pub meta : List (Text × Value)
  pub tensors : List (Text × TensorInfo)
  pub data_start : ℕ

-- `dims.iter().product()`
unfoldable pub product_from : ℕ → List ℕ → ℕ
product_from acc [] = acc
product_from acc (d ∷ dims) = product_from (acc * d % u64_mod) dims

unfoldable pub product : List ℕ → ℕ
product dims = product_from 1 dims

-- One round of the loop over the metadata.
unfoldable pub read_entry : ℕ → List (Text × Value) → M (List (Text × Value))
read_entry fuel meta = do
  key ← read_string
  ty ← read_u32
  v ← read_value fuel ty
  pure (insert meta key v)

-- The size of a tensor: the check that blocks fill it, and the bytes of them.
unfoldable pub tensor_bytes : ℕ → ℕ × ℕ → M ℕ
tensor_bytes nelems (be, bb) =
    if nelems % be == 0 then pure (nelems / be * bb % u64_mod) else fail (not_divisible nelems be)

-- One round of the loop over the tensors.
unfoldable pub read_tensor : List (Text × TensorInfo) → M (List (Text × TensorInfo))
read_tensor tensors = do
  name ← read_string
  n_dims ← read_u32
  dims ← loop n_dims (λ dims. read_u64 >>= λ d. pure (dims ++ d ∷ [])) []
  ggml_type ← read_u32
  offset ← read_u64
  layout ← lift (block_layout ggml_type)
  nbytes ← tensor_bytes (product dims) layout
  pure (
      insert tensors name
        (record { dims = dims; ggml_type = ggml_type; offset = offset; nbytes = nbytes }))

-- "GGUF"
unfoldable pub check_magic : Bytes → M (Unit {0})
check_magic magic = if text_eq magic (codes "GGUF") then pure tt else fail not_gguf

unfoldable pub check_version : ℕ → M (Unit {0})
check_version version =
    if leb 2 version && leb version 3 then pure tt else fail (bad_version version)

-- The value of `general.alignment`, or 32.
unfoldable pub alignment_of : List (Text × Value) → ℕ
alignment_of meta = elim (get meta (codes "general.alignment")) [
  | none ↦ 32
  | some v ↦ elim (as_u64 v) [ none ↦ 32 | some alignment ↦ alignment ]
]

-- `pos.div_ceil(alignment) * alignment`, which panics if the alignment is 0.
unfoldable pub align_up : ℕ → ℕ → Outcome ℕ
align_up pos alignment =
    if alignment == 0 then panic else ok ((pos + (alignment - 1)) / alignment * alignment % u64_mod)

-- The reads of `Gguf::open`.
unfoldable pub read_file : ℕ → M (List (Text × Value) × List (Text × TensorInfo))
read_file fuel = do
  magic ← take_bytes 4
  check_magic magic
  version ← read_u32
  check_version version
  n_tensors ← read_u64
  n_kv ← read_u64
  meta ← loop n_kv (read_entry fuel) []
  tensors ← loop n_tensors read_tensor []
  pure (meta, tensors)

-- The end of `Gguf::open`: the file with its tables and the start of its data.
unfoldable pub with_start :
    Bytes → List (Text × Value) → List (Text × TensorInfo) → Outcome ℕ → Outcome Gguf
with_start buf meta tensors (ok data_start) =
    ok (record { mmap = buf; meta = meta; tensors = tensors; data_start = data_start })
with_start buf meta tensors (bail e) = bail e
with_start buf meta tensors panic = panic
with_start buf meta tensors stuck = stuck

unfoldable pub load :
    Bytes → Outcome ((List (Text × Value) × List (Text × TensorInfo)) × ℕ) → Outcome Gguf
load buf (ok ((meta, tensors), pos)) =
    with_start buf meta tensors (align_up pos (alignment_of meta))
load buf (bail e) = bail e
load buf panic = panic
load buf stuck = stuck

-- `Gguf::open` on the bytes of a file. Each array that holds another costs bytes, so the number of
-- bytes bounds the nesting.
unfoldable pub open_file : Bytes → Outcome Gguf
open_file buf = load buf (read_file (length buf) buf 0)

unfoldable pub tensor : Gguf → Text → Outcome TensorInfo
tensor g name = elim (get g.tensors name) [ none ↦ bail not_found | some t ↦ ok t ]

-- The bytes from `a` to `b`, if the file has as many.
unfoldable pub data_between : Bytes → ℕ → ℕ → Outcome Bytes
data_between mmap a b = if ltb (length mmap) b then bail out_of_bounds else slice mmap a b

unfoldable pub tensor_data : Gguf → Text → Outcome Bytes
tensor_data g name = elim (tensor g name) [
  | ok t ↦
      let a = (g.data_start + t.offset) % u64_mod in
      data_between g.mmap a ((a + t.nbytes) % u64_mod)
  | bail e ↦ bail e
  | panic ↦ panic
  | stuck ↦ stuck
]
