-- ===== src/Gguf/Tests.antt =====
-- Runs of the reader of ft-gguf/src/lib.rs on the file of its test and on broken ones.
use free_token_rs.Prelude.{
  ℕ, ◌+◌, ◌-◌, ◌^◌, ◌<◌, ◌≡◌, refl, true, false, some, [], ◌∷◌, ◌++◌, arith, length, replicate,
  u64_mod,
}
use free_token_rs.Text.{codes, text_eq}
use free_token_rs.Gguf.Outcome.{ok, bail, panic, truncated, Bytes, take_bytes, loop}
use free_token_rs.Gguf.Utf8.{is_utf8}
use free_token_rs.Gguf.Value.{Value, Values, nil, cons, push, to_signed, nonneg, as_u64, as_str}
use free_token_rs.Gguf.Reader.{read_uint, read_string, read_item, read_array, read_value}
use free_token_rs.Gguf.Reader.Take.{Taken, take_bytes-Taken}
use free_token_rs.Gguf.Reader.Encoding.{to_le_bytes, Encodes, EncodesAll}
use free_token_rs.Gguf.Reader.RoundTrip.{read_value-Encodes}
use free_token_rs.Gguf.File.{
  Gguf, get, block_layout, product_from, product, tensor_bytes, read_entry, read_tensor,
  check_magic, check_version, alignment_of, align_up, read_file, with_start, load, open_file,
  tensor, data_between, tensor_data,
}
use free_token_rs.Gguf.File.Opened.{Opened}
use free_token_rs.Gguf.File.Sized.{IsSized, open_file-IsSized}
use free_token_rs.Gguf.File.Data.{Extent, tensor_data-Extent}

reader : Unit {0}
unfolding take_bytes loop is_utf8 push to_signed nonneg as_u64 as_str read_uint read_string
    read_item read_array read_value to_le_bytes
reader = tt

program : Unit {0}
unfolding reader text_eq get block_layout product_from product tensor_bytes read_entry read_tensor
    check_magic check_version alignment_of align_up read_file with_start load open_file tensor
    data_between tensor_data
program = tt

utf8 :
    (is_utf8 (0x68 ∷ 0xC3 ∷ 0xA9 ∷ 0xE2 ∷ 0x96 ∷ 0x81 ∷ []) ≡ true)
    × (is_utf8 (0xC3 ∷ []) ≡ false)
    × (is_utf8 (0xED ∷ 0xA0 ∷ 0x80 ∷ []) ≡ false)
unfolding is_utf8
utf8 = (refl, refl, refl)

-- The tables of the test's file, for an alignment and an offset.
abbrev tables : ℕ → ℕ → Bytes
tables alignment offset =
    codes "GGUF"
    ++ to_le_bytes 4 3
    ++ to_le_bytes 8 1
    ++ to_le_bytes 8 1
    ++ to_le_bytes 8 17
    ++ codes "general.alignment"
    ++ to_le_bytes 4 4
    ++ to_le_bytes 4 alignment
    ++ to_le_bytes 8 1
    ++ codes "t"
    ++ to_le_bytes 4 2
    ++ to_le_bytes 8 64
    ++ to_le_bytes 8 2
    ++ to_le_bytes 4 2
    ++ to_le_bytes 8 offset

abbrev file : Bytes
file = tables 32 0 ++ replicate 30 0 ++ replicate 72 0xAB

abbrev opened : Gguf
opened = record {
  mmap = file;
  meta = (codes "general.alignment", Value.u32 32) ∷ [];
  tensors = (codes "t", record { dims = 64 ∷ 2 ∷ []; ggml_type = 2; offset = 0; nbytes = 72 }) ∷ [];
  data_start = 128;
}

parses_handcrafted_file : open_file file ≡ ok opened
unfolding program
parses_handcrafted_file = refl

reads_its_data : tensor_data opened (codes "t") ≡ ok (replicate 72 0xAB)
unfolding program
reads_its_data = refl

-- An alignment of 0 divides by it.
no_alignment : open_file (tables 0 0) ≡ panic
unfolding program
no_alignment = refl

-- A key that claims 2 ^ 64 - 1 bytes.
huge_key :
    open_file (
      codes "GGUF"
      ++ to_le_bytes 4 3
      ++ to_le_bytes 8 0
      ++ to_le_bytes 8 1
      ++ to_le_bytes 8 (2 ^ 64 - 1))
    ≡ panic
unfolding program
huge_key = refl

short_key :
    open_file
      (codes "GGUF" ++ to_le_bytes 4 3 ++ to_le_bytes 8 0 ++ to_le_bytes 8 1 ++ to_le_bytes 8 99)
    ≡ bail (truncated 32 99)
unfolding program
short_key = refl

file_fits : length file < u64_mod
unfolding reader
file_fits = omega arith

the_tensor :
    get opened.tensors (codes "t")
    ≡ some (record { dims = 64 ∷ 2 ∷ []; ggml_type = 2; offset = 0; nbytes = 72 })
unfolding program
the_tensor = refl

open_file-IsSized_example :
    IsSized (record { dims = 64 ∷ 2 ∷ []; ggml_type = 2; offset = 0; nbytes = 72 })
open_file-IsSized_example =
    open_file-IsSized file opened (codes "t")
      (record { dims = 64 ∷ 2 ∷ []; ggml_type = 2; offset = 0; nbytes = 72 })
      parses_handcrafted_file the_tensor

tensor_data-Extent_example : Extent file 72 128 (tensor_data opened (codes "t"))
tensor_data-Extent_example =
    tensor_data-Extent opened (codes "t")
      (record { dims = 64 ∷ 2 ∷ []; ggml_type = 2; offset = 0; nbytes = 72 }) the_tensor
      (omega arith) file_fits

take_bytes-Taken_example : Taken 4 file 0 (take_bytes 4 file 0)
take_bytes-Taken_example = take_bytes-Taken 4 file 0 (omega arith) (omega arith) file_fits

abbrev two_strings : Values
two_strings = cons (Value.str (codes "ab")) (cons (Value.str (codes "c")) nil)

abbrev array_bytes : Bytes
array_bytes =
    to_le_bytes 4 8
    ++ (to_le_bytes 8 2
        ++ ((to_le_bytes 8 2 ++ codes "ab") ++ ((to_le_bytes 8 1 ++ codes "c") ++ [])))

two_strings-Encodes : Encodes 9 (Value.arr two_strings) array_bytes
unfolding is_utf8
two_strings-Encodes =
    Encodes.arr 8 two_strings
      ((to_le_bytes 8 2 ++ codes "ab") ++ ((to_le_bytes 8 1 ++ codes "c") ++ [])) (omega arith)
      (omega arith)
      (EncodesAll.item 8 (Value.str (codes "ab")) (cons (Value.str (codes "c")) nil)
        (to_le_bytes 8 2 ++ codes "ab") ((to_le_bytes 8 1 ++ codes "c") ++ [])
        (Encodes.str (codes "ab") refl (omega arith))
        (EncodesAll.item 8 (Value.str (codes "c")) nil (to_le_bytes 8 1 ++ codes "c") []
          (Encodes.str (codes "c") refl (omega arith)) (EncodesAll.none 8)))

array_fits : length (7 ∷ array_bytes ++ (9 ∷ [])) < 100
unfolding reader
array_fits = omega arith

read_value-Encodes_example :
    read_value 100 9 ((7 ∷ []) ++ (array_bytes ++ (9 ∷ []))) 1
    ≡ ok (Value.arr two_strings, 1 + length array_bytes)
read_value-Encodes_example =
    read_value-Encodes (7 ∷ []) array_bytes (9 ∷ []) 100 9 (Value.arr two_strings)
      two_strings-Encodes (omega (arith, array_fits)) (omega (arith, array_fits))
