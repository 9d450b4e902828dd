-- ===== src/Tokenizer/Decode.antt =====
-- `decode_bytes` and `decode` of ft-model/src/tokenizer.rs. An id beyond the vocabulary panics.
use free_token_rs.Prelude.{
  ℕ, ◌+◌, ◌-◌, ◌*◌, Bool, ◌&&◌, Option, none, some, List, [], ◌∷◌, ◌++◌, map, ◌==◌, leb,
  if◌then◌else◌, length, take, drop, get_elem?, ◌>>=◌,
}
use free_token_rs.Text.{Text, codes, starts_with, ends_with}
use free_token_rs.Chars.{bytes}
use free_token_rs.Gguf.Utf8.{start}
use free_token_rs.Openai.Utf8.{lossy}
use free_token_rs.Tokenizer.{Tokenizer}
use free_token_rs.Tokenizer.Bpe.{mark}

abbrev between : ℕ → ℕ → ℕ → Bool
between lo c hi = leb lo c && leb c hi

unfoldable pub hex_value : ℕ → Option ℕ
hex_value c =
    if between b'0' c b'9'
    then some (c - b'0')
    else if between b'A' c b'F'
    then some (c - b'A' + 10)
    else if between b'a' c b'f'
    then some (c - b'a' + 10)
    else none

-- `u8::from_str_radix(s, 16)` for at most two characters; a plus sign may stand first.
unfoldable pub parse_hex : Text → Option ℕ
unfolding hex_value
parse_hex (a ∷ []) = hex_value a
parse_hex (a ∷ b ∷ []) =
    if a == b'+'
    then hex_value b
    else (hex_value a >>= λ hi. hex_value b >>= λ lo. some (hi * 16 + lo))
parse_hex _ = none

-- The byte that a piece of the form `<0xXX>` stands for.
unfoldable pub byte_of_piece : Text → Option ℕ
byte_of_piece piece =
    if length (bytes piece) == 6 && (starts_with piece (codes "<0x") && ends_with piece (codes ">"))
    then parse_hex (take (length piece - 4) (drop 3 piece))
    else none

unfoldable pub unmark_space : ℕ → ℕ
unmark_space c = if c == mark then b' ' else c

-- The bytes of one token.
unfoldable pub piece_bytes : Text → List ℕ
piece_bytes piece = elim (byte_of_piece piece) [
  | some b ↦ b ∷ []
  | none ↦ bytes (map unmark_space piece)
]

unfoldable pub decode_bytes : Tokenizer → List ℕ → Option (List ℕ)
decode_bytes t [] = some []
decode_bytes t (id ∷ ids) = get_elem? t.vocab id >>= λ piece.
    decode_bytes t ids >>= λ rest. some (piece_bytes piece ++ rest)

-- The text, as its bytes.
unfoldable pub decode : Tokenizer → List ℕ → Option (List ℕ)
decode t ids = decode_bytes t ids >>= λ s. some (lossy start [] s)
