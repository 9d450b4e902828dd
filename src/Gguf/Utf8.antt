-- ===== src/Gguf/Utf8.antt =====
-- The check of `String::from_utf8`: well-formed UTF-8, byte by byte.
use free_token_rs.Prelude.{
  ℕ, zero, suc, Bool, false, ◌&&◌, Option, none, some, List, [], ◌∷◌, leb, ltb, ◌==◌, if◌then◌else◌,
}

-- How many bytes the character still wants, and the range of the next one.
pub record State : Type 0 where
  pub need : ℕ
  pub low : ℕ
  pub high : ℕ

abbrev state : ℕ → ℕ → ℕ → Option State
state need low high = some (record { need = need; low = low; high = high })

abbrev pub start : State
start = record { need = 0; low = 0x80; high = 0xBF }

abbrev between : ℕ → ℕ → ℕ → Bool
between lo b hi = leb lo b && leb b hi

-- The first byte of a character.
unfoldable pub lead : ℕ → Option State
lead b =
    if ltb b 0x80
    then state 0 0x80 0xBF
    else if between 0xC2 b 0xDF
    then state 1 0x80 0xBF
    else if b == 0xE0
    then state 2 0xA0 0xBF
    else if b == 0xED
    then state 2 0x80 0x9F
    else if between 0xE1 b 0xEF
    then state 2 0x80 0xBF
    else if b == 0xF0
    then state 3 0x90 0xBF
    else if between 0xF1 b 0xF3
    then state 3 0x80 0xBF
    else if b == 0xF4
    then state 3 0x80 0x8F
    else none

unfoldable pub next_state : State → ℕ → Option State
next_state s b = elim s.need [
  | zero ↦ lead b
  | suc need ↦ if between s.low b s.high then state need 0x80 0xBF else none
]

unfoldable pub valid_from : Option State → List ℕ → Bool
valid_from none bytes = false
valid_from (some s) [] = s.need == 0
valid_from (some s) (b ∷ bytes) = valid_from (next_state s b) bytes

unfoldable pub is_utf8 : List ℕ → Bool
unfolding lead next_state valid_from
is_utf8 bytes = valid_from (some start) bytes
