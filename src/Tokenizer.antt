-- ===== src/Tokenizer.antt =====
-- `Tokenizer` of ft-model/src/tokenizer.rs: its vocabulary from the metadata of a GGUF file,
-- byte-pair encoding with a fallback to bytes, and decoding.
pub mod Bpe
pub mod Decode
pub mod Merge
pub mod Specials
pub mod Vocab
pub mod Known
pub mod RoundTrip
pub mod First
pub mod Splice
pub mod Whole
mod Tests
use Prim.Native.String.{String}
use free_token_rs.Prelude.{
  ℕ, zero, suc, ◌+◌, ◌-◌, ◌*◌, ◌/◌, ◌%◌, Bool, true, false, ◌&&◌, Option, none, some, List, [], ◌∷◌,
  ◌++◌, map, ◌==◌, leb, ltb, if◌then◌else◌, length, take, drop, get_elem?, ◌>>=◌, Result, err, ok,
  u32_mod,
}
use free_token_rs.Text.{Text, codes, is_empty, text_eq, starts_with, ends_with, find}
use free_token_rs.Chars.{bytes, chars}
use free_token_rs.Gguf.Value.{Value, arr, Values, nil, cons, as_str, as_u64}
use free_token_rs.Gguf.File.{Gguf, insert, get}
use free_token_rs.Gguf.Utf8.{start}
use free_token_rs.Openai.Utf8.{lossy}

abbrev pub Ids : Type 0
Ids = List (Text × ℕ)

-- The ranks of pairs of pieces: the newest entry of a key stands first.
abbrev pub Ranks : Type 0
Ranks = List ((Text × Text) × ℕ)

unfoldable pub rank_of : Ranks → Text → Text → Option ℕ
rank_of [] a b = none
rank_of (((l, r), rank) ∷ ranks) a b =
    if text_eq l a && text_eq r b then some rank else rank_of ranks a b

pub record Tokenizer : Type 0 where
  pub vocab : List Text
  pub id_of : Ids
  pub merge_rank : Ranks
  pub bos : ℕ
  pub eos : ℕ
  pub eot : Option ℕ

-- `as_str().unwrap_or_default()`; strings of a file are well-formed bytes.
unfoldable pub text_of : Value → Text
text_of v = elim (as_str v) [ some s ↦ chars s | none ↦ [] ]

unfoldable pub texts_of : Values → List Text
texts_of nil = []
texts_of (cons v vs) = text_of v ∷ texts_of vs

-- `vocab.iter().enumerate().map(|(i, s)| (s.clone(), i as u32)).collect()`, from position `i`.
unfoldable pub number : List Text → ℕ → Ids → Ids
number [] i ids = ids
number (s ∷ vocab) i ids = number vocab (i + 1) (insert ids s (i % u32_mod))

-- The parts before and after the last space: `m.rfind(' ')`.
unfoldable pub split_last : Text → Option (Text × Text)
split_last [] = none
split_last (c ∷ s) = elim (split_last s) [
  | some (l, r) ↦ some (c ∷ l, r)
  | none ↦ if c == b' ' then some ([], s) else none
]

unfoldable pub read_merges : List Text → ℕ → Ranks → Ranks
read_merges [] rank ranks = ranks
read_merges (m ∷ merges) rank ranks =
    read_merges merges (rank + 1)
      (elim (split_last m) [ some (l, r) ↦ ((l, r), rank % u32_mod) ∷ ranks | none ↦ ranks ])

-- The array under a key of the metadata, if there is one.
unfoldable pub array_of : Gguf → String → Option Values
array_of g key = elim (get g.meta (codes key)) [ some (arr vs) ↦ some vs | _ ↦ none ]

unfoldable pub get_id : Gguf → String → Option ℕ
get_id g key = get g.meta (codes key) >>= λ v. as_u64 v >>= λ n. some (n % u32_mod)

pub data TokenizerError : Type 0 where
  missing_tokens missing_bos missing_eos : TokenizerError

unfoldable pub merges_of : Gguf → List Text
merges_of g = elim (array_of g "tokenizer.ggml.merges") [ some vs ↦ texts_of vs | none ↦ [] ]

-- The end of `from_gguf`, with the vocabulary.
unfoldable pub with_vocab : Gguf → List Text → Result TokenizerError Tokenizer
with_vocab g vocab =
    let id_of = number vocab 0 [] in
    elim (get_id g "tokenizer.ggml.bos_token_id") [
      | none ↦ err missing_bos
      | some bos ↦ elim (get_id g "tokenizer.ggml.eos_token_id") [
        | none ↦ err missing_eos
        | some eos ↦ ok (record {
          vocab = vocab;
          id_of = id_of;
          merge_rank = read_merges (merges_of g) 0 [];
          bos = bos;
          eos = eos;
          eot = get id_of (codes "<turn|>");
        })
      ]
    ]

unfoldable pub from_gguf : Gguf → Result TokenizerError Tokenizer
from_gguf g = elim (array_of g "tokenizer.ggml.tokens") [
  | none ↦ err missing_tokens
  | some vs ↦ with_vocab g (texts_of vs)
]
