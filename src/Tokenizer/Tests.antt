-- ===== src/Tokenizer/Tests.antt =====
-- Runs of the tokenizer, on a small vocabulary with a token for each byte.
use free_token_rs.Prelude.{
  ℕ, zero, suc, ◌≡◌, ◌<◌, refl, sym, ap, ◌∙◌, inl, inr, ◌⊎◌, Bool, true, false, none, some, List,
  [], ◌∷◌, ◌++◌, arith, Option-cases, Bool-cases, err, ok, drop, not, ◌&&◌, check_below, checked,
}
use free_token_rs.Text.{Text, codes, text_eq, eq_of_text_eq, starts_with, ends_with, find, drop-nil}
use free_token_rs.Chars.{char_bytes, bytes, more_of, bits_of, chars_from, chars}
use free_token_rs.Gguf.Value.{str, u32, arr, Values, nil, cons, as_str, as_u64}
use free_token_rs.Gguf.File.{Gguf, get}
use free_token_rs.Gguf.Utf8.{lead, next_state}
use free_token_rs.Openai.Utf8.{lossy}
use free_token_rs.Tokenizer.{
  Ranks, rank_of, Tokenizer, missing_tokens, text_of, texts_of, number, split_last, read_merges,
  array_of, get_id, merges_of, with_vocab, from_gguf,
}
use free_token_rs.Tokenizer.Bpe.{
  mark, normalize, better, best_pair, merge_at, merge_loop, pieces_of, hex_digit, byte_name,
  byte_ids, piece_ids, all_ids, encode,
}
use free_token_rs.Tokenizer.Decode.{
  hex_value, parse_hex, byte_of_piece, unmark_space, piece_bytes, decode_bytes, decode,
}
use free_token_rs.Tokenizer.Specials.{
  earlier, first_special, special_ids, before_ids, specials_loop, encode_with_specials,
}
use free_token_rs.Tokenizer.Merge.{First, Unranked, best_pair-First, Merged, pieces_of-Merged}
use free_token_rs.Tokenizer.Vocab.{Has, IsVocab, from_gguf-IsVocab}
use free_token_rs.Tokenizer.Known.{IsComplete}
use free_token_rs.Tokenizer.Whole.{IsPlain, decode-encode_with_specials}

program : Unit {0}
unfolding text_eq starts_with ends_with find char_bytes bytes more_of bits_of chars_from chars
    as_str as_u64 get lead next_state lossy rank_of text_of texts_of number split_last read_merges
    array_of get_id merges_of with_vocab from_gguf normalize better best_pair merge_at merge_loop
    pieces_of hex_digit byte_name byte_ids piece_ids all_ids encode hex_value parse_hex
    byte_of_piece unmark_space piece_bytes decode_bytes decode earlier first_special special_ids
    before_ids specials_loop encode_with_specials check_below
program = tt

-- The names of the bytes below `n`, the greatest first.
byte_names : ℕ → List Text
byte_names zero = []
byte_names (suc n) = byte_name n ∷ byte_names n

values : List Text → Values
values [] = nil
values (s ∷ texts) = cons (str (bytes s)) (values texts)

abbrev entries : List Text
entries =
    (mark ∷ [])
    ∷ codes "h"
    ∷ codes "i"
    ∷ codes "hi"
    ∷ codes "<|turn>"
    ∷ codes "<turn|>"
    ∷ byte_names 256

abbrev file : Gguf
file = record {
  mmap = [];
  meta =
      (codes "tokenizer.ggml.tokens", arr (values entries))
      ∷ (codes "tokenizer.ggml.merges", arr (values (codes "h i" ∷ codes "no_space" ∷ [])))
      ∷ (codes "tokenizer.ggml.bos_token_id", u32 2)
      ∷ (codes "tokenizer.ggml.eos_token_id", u32 1)
      ∷ [];
  tensors = [];
  data_start = 0;
}

abbrev small : Tokenizer
small = record {
  vocab = entries;
  id_of = number entries 0 [];
  merge_rank = ((codes "h", codes "i"), 0) ∷ [];
  bos = 2;
  eos = 1;
  eot = some 5;
}

from_file : from_gguf file ≡ ok small
unfolding program byte_names values
from_file = refl

empty_file : from_gguf (record file { meta = [] }) ≡ err missing_tokens
unfolding program
empty_file = refl

merged : encode small (codes "hi hi") ≡ 3 ∷ 0 ∷ 3 ∷ []
unfolding program byte_names
merged = refl

-- `é` has no token: its two bytes have.
fallback : encode small (0xE9 ∷ []) ≡ 66 ∷ 92 ∷ []
unfolding program byte_names
fallback = refl

turns : encode_with_specials small (codes "<|turn>hi<turn|>") ≡ 4 ∷ 3 ∷ 5 ∷ []
unfolding program byte_names
turns = refl

back : decode small (4 ∷ 3 ∷ 0 ∷ 66 ∷ 92 ∷ []) ≡ some (codes "<|turn>hi " ++ 0xC3 ∷ 0xA9 ∷ [])
unfolding program byte_names
back = refl

beyond : decode small (262 ∷ []) ≡ none
unfolding program byte_names
beyond = refl

best_pair-First_example :
    let ranks : Ranks = ((codes "h", codes "i"), 7) ∷ [] in
    let pieces = codes "h" ∷ codes "i" ∷ codes "h" ∷ [] in
    ((best_pair ranks pieces 0 none ≡ none) × Unranked ranks pieces)
    ⊎ ((r : ℕ) × (i : ℕ) × (best_pair ranks pieces 0 none ≡ some (r, i)) × First ranks pieces i r)
best_pair-First_example =
    best_pair-First (((codes "h", codes "i"), 7) ∷ []) (codes "h" ∷ codes "i" ∷ codes "h" ∷ [])

pieces_of-Merged_example :
    Merged small.merge_rank (normalize (codes "hi hi")) (pieces_of small.merge_rank (codes "hi hi"))
pieces_of-Merged_example = pieces_of-Merged small.merge_rank (codes "hi hi")

from_gguf-IsVocab_example : IsVocab small
unfolding byte_names
from_gguf-IsVocab_example = from_gguf-IsVocab file small from_file (omega arith)

small-IsVocab : IsVocab small
unfolding byte_names
small-IsVocab = from_gguf-IsVocab file small from_file (omega arith)

has_id : ℕ → Bool
has_id b = elim (get small.id_of (byte_name b)) [ some id ↦ true | none ↦ false ]

id_table : check_below has_id 256 ≡ true
unfolding program byte_names has_id
id_table = refl

small-of_byte : (b : ℕ) → b < 256 → Has small.id_of (byte_name b)
unfolding has_id
small-of_byte b lt = elim (Option-cases (get small.id_of (byte_name b))) [
  | inl none_at ↦ absurd (ground (arith, none_at, checked has_id 256 b id_table lt))
  | inr known ↦ known
]

hi_id : get small.id_of (codes "hi") ≡ some 3
unfolding program byte_names
hi_id = refl

mark_id : get small.id_of (mark ∷ []) ≡ some 0
unfolding program byte_names
mark_id = refl

small-of_merge :
    (a b : Text) (r : ℕ) → rank_of small.merge_rank a b ≡ some r → Has small.id_of (a ++ b)
unfolding rank_of
small-of_merge a b r e = elim (Bool-cases (text_eq (codes "h") a)) [
  | inr other ↦ absurd (ground (arith, e, other))
  | inl first ↦ elim (Bool-cases (text_eq (codes "i") b)) [
    | inr other ↦ absurd (ground (arith, e, first, other))
    | inl second ↦ (
      3,
      ap (get small.id_of) (
            ap (λ x. x ++ b) (sym (eq_of_text_eq (codes "h") a first))
            ∙ ap (λ x. codes "h" ++ x) (sym (eq_of_text_eq (codes "i") b second)))
          ∙ hi_id,
    )
  ]
]

small-IsComplete : IsComplete small
small-IsComplete = record {
  vocab = small-IsVocab;
  of_byte = small-of_byte;
  of_mark = (0, mark_id);
  of_merge = small-of_merge;
}

-- No suffix of the text begins with `<0x`.
nowhere : Text → Bool
nowhere [] = true
nowhere (c ∷ s) = not (starts_with (c ∷ s) (codes "<0x")) && nowhere s

nowhere-NoByteName :
    (s : Text) → nowhere s ≡ true → (q : ℕ) → starts_with (drop q s) (codes "<0x") ≡ false
unfolding nowhere starts_with
nowhere-NoByteName [] h q = ap (λ l. starts_with l (codes "<0x")) (drop-nil q)
nowhere-NoByteName (c ∷ s) h zero = ground (arith, h)
nowhere-NoByteName (c ∷ s) h (suc q) = nowhere-NoByteName s (ground (arith, h)) q

turn_text-IsPlain : IsPlain (codes "<|turn>hi")
unfolding normalize nowhere starts_with
turn_text-IsPlain = record {
  scalars = ground arith;
  unmarked = ground arith;
  clear = nowhere-NoByteName (normalize (codes "<|turn>hi")) refl;
}

decode-encode_with_specials_example :
    decode small (encode_with_specials small (codes "<|turn>hi")) ≡ some (bytes (codes "<|turn>hi"))
decode-encode_with_specials_example =
    decode-encode_with_specials small small-IsComplete (codes "<|turn>hi") turn_text-IsPlain
