-- ===== src/Tokenizer/Specials.antt =====
-- `encode_with_specials` and `chat_prompt` of ft-model/src/tokenizer.rs: the special tokens of a
-- text are looked up, and what stands between them is encoded.
use free_token_rs.Prelude.{
  ℕ, zero, suc, ◌+◌, Option, none, some, List, [], ◌∷◌, ◌++◌, ltb, if◌then◌else◌, length, take,
  drop,
}
use free_token_rs.Text.{Text, codes, find}
use free_token_rs.Gguf.File.{get}
use free_token_rs.Tokenizer.{Tokenizer}
use free_token_rs.Tokenizer.Bpe.{encode}

abbrev pub specials : List Text
specials =
    codes "<|turn>"
    ∷ codes "<turn|>"
    ∷ codes "<|channel>"
    ∷ codes "<channel|>"
    ∷ codes "<|think|>"
    ∷ codes "<bos>"
    ∷ codes "<eos>"
    ∷ []

-- The special `sp` at a position, if that is before the first one so far.
unfoldable pub earlier : Option ℕ → Text → Option (ℕ × Text) → Option (ℕ × Text)
earlier none sp first = first
earlier (some pos) sp none = some (pos, sp)
earlier (some pos) sp (some (fp, s)) = if ltb pos fp then some (pos, sp) else some (fp, s)

unfoldable pub first_special : Text → List Text → Option (ℕ × Text) → Option (ℕ × Text)
unfolding earlier
first_special rest [] first = first
first_special rest (sp ∷ sps) first = first_special rest sps (earlier (find rest sp) sp first)

-- What a special token adds.
unfoldable pub special_ids : Tokenizer → Text → List ℕ
special_ids t sp = elim (get t.id_of sp) [ some id ↦ id ∷ [] | none ↦ encode t sp ]

unfoldable pub before_ids : Tokenizer → Text → ℕ → List ℕ
before_ids t rest pos = if ltb 0 pos then encode t (take pos rest) else []

-- The `while`, with fuel for its rounds.
unfoldable pub specials_loop : Tokenizer → ℕ → Text → List ℕ
specials_loop t zero rest = []
specials_loop t (suc fuel) [] = []
specials_loop t (suc fuel) (c ∷ rest) = elim (first_special (c ∷ rest) specials none) [
  | none ↦ encode t (c ∷ rest)
  | some (pos, sp) ↦
      before_ids t (c ∷ rest) pos
      ++ (special_ids t sp ++ specials_loop t fuel (drop (pos + length sp) (c ∷ rest)))
]

unfoldable pub encode_with_specials : Tokenizer → Text → List ℕ
encode_with_specials t text = specials_loop t (length text) text

unfoldable pub chat_prompt : Text → Text
chat_prompt user =
    codes "<|turn>user"
    ++ 10
      ∷ (user
          ++ (codes "<turn|>"
              ++ 10
                ∷ (codes "<|turn>model"
                    ++ 10 ∷ (codes "<|channel>thought" ++ 10 ∷ codes "<channel|>"))))
