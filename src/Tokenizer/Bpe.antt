-- ===== src/Tokenizer/Bpe.antt =====
-- `encode` of ft-model/src/tokenizer.rs: pairs of pieces are merged, the least rank first.
use free_token_rs.Prelude.{
  ℕ, zero, suc, ◌+◌, ◌-◌, ◌/◌, ◌%◌, Option, none, some, List, [], ◌∷◌, ◌++◌, map, ◌==◌, ltb,
  if◌then◌else◌, length,
}
use free_token_rs.Text.{Text, codes}
use free_token_rs.Chars.{bytes}
use free_token_rs.Gguf.File.{get}
use free_token_rs.Tokenizer.{Ids, Ranks, rank_of, Tokenizer}

-- U+2581, the mark for a space
abbrev pub mark : ℕ
mark = 0x2581

unfoldable pub mark_space : ℕ → ℕ
mark_space c = if c == b' ' then mark else c

-- `text.replace(' ', "\u{2581}")`
unfoldable pub normalize : Text → Text
unfolding mark_space
normalize text = map mark_space text

-- The pair at `i` if its rank is less than that of the best one so far.
unfoldable pub better : Option ℕ → ℕ → Option (ℕ × ℕ) → Option (ℕ × ℕ)
better none i best = best
better (some r) i none = some (r, i)
better (some r) i (some (br, bi)) = if ltb r br then some (r, i) else some (br, bi)

-- The loop over the pairs, from the one at `i` on.
unfoldable pub best_pair : Ranks → List Text → ℕ → Option (ℕ × ℕ) → Option (ℕ × ℕ)
unfolding better
best_pair ranks [] i best = best
best_pair ranks (a ∷ []) i best = best
best_pair ranks (a ∷ b ∷ pieces) i best =
    best_pair ranks (b ∷ pieces) (i + 1) (better (rank_of ranks a b) i best)

-- The pieces with those at `i` and `i + 1` made one.
unfoldable pub merge_at : List Text → ℕ → List Text
merge_at [] i = []
merge_at (a ∷ []) zero = a ∷ []
merge_at (a ∷ b ∷ pieces) zero = (a ++ b) ∷ pieces
merge_at (a ∷ pieces) (suc i) = a ∷ merge_at pieces i

-- The `loop`, which ends when no pair has a rank.
unfoldable pub merge_loop : Ranks → ℕ → List Text → List Text
merge_loop ranks zero pieces = pieces
merge_loop ranks (suc fuel) pieces = elim (best_pair ranks pieces 0 none) [
  | none ↦ pieces
  | some (r, i) ↦ merge_loop ranks fuel (merge_at pieces i)
]

unfoldable pub pieces_of : Ranks → Text → List Text
pieces_of ranks text =
    let pieces = map (λ c. c ∷ []) (normalize text) in merge_loop ranks (length pieces) pieces

unfoldable pub hex_digit : ℕ → ℕ
hex_digit d = if ltb d 10 then b'0' + d else b'A' + (d - 10)

-- `format!("<0x{b:02X}>")`
unfoldable pub byte_name : ℕ → Text
unfolding hex_digit
byte_name b = codes "<0x" ++ hex_digit (b / 16) ∷ hex_digit (b % 16) ∷ codes ">"

-- The fallback: the ids of the bytes that have one.
unfoldable pub byte_ids : Ids → List ℕ → List ℕ
byte_ids ids [] = []
byte_ids ids (b ∷ s) =
    let rest = byte_ids ids s in elim (get ids (byte_name b)) [ some id ↦ id ∷ rest | none ↦ rest ]

unfoldable pub piece_ids : Ids → Text → List ℕ
piece_ids ids p = elim (get ids p) [ some id ↦ id ∷ [] | none ↦ byte_ids ids (bytes p) ]

unfoldable pub all_ids : Ids → List Text → List ℕ
all_ids ids [] = []
all_ids ids (p ∷ pieces) = piece_ids ids p ++ all_ids ids pieces

unfoldable pub encode : Tokenizer → Text → List ℕ
encode t text = all_ids t.id_of (pieces_of t.merge_rank text)
