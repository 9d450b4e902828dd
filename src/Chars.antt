-- ===== src/Chars.antt =====
-- Characters and their UTF-8, as `str::chars` and `str::bytes` of the standard library give them.
-- A character is its code point.
pub mod Encoding
use free_token_rs.Prelude.{
  ℕ, zero, suc, ◌+◌, ◌*◌, ◌/◌, ◌%◌, List, [], ◌∷◌, ◌++◌, true, false, ltb, if◌then◌else◌,
}
use free_token_rs.Text.{Text}

-- The bytes of a character.
unfoldable pub char_bytes : ℕ → List ℕ
char_bytes c =
    if ltb c 0x80
    then c ∷ []
    else if ltb c 0x800
    then (0xC0 + c / 64) ∷ (0x80 + c % 64) ∷ []
    else if ltb c 0x10000
    then (0xE0 + c / 4096) ∷ (0x80 + c / 64 % 64) ∷ (0x80 + c % 64) ∷ []
    else (0xF0 + c / 262144) ∷ (0x80 + c / 4096 % 64) ∷ (0x80 + c / 64 % 64) ∷ (0x80 + c % 64) ∷ []

-- `s.bytes()`
unfoldable pub bytes : Text → List ℕ
bytes [] = []
bytes (c ∷ s) = char_bytes c ++ bytes s

-- How many bytes follow the first one of a character, and the bits that the first one holds.
unfoldable pub more_of : ℕ → ℕ
more_of b = if ltb b 0xE0 then 1 else if ltb b 0xF0 then 2 else 3

unfoldable pub bits_of : ℕ → ℕ
bits_of b = if ltb b 0xE0 then b % 32 else if ltb b 0xF0 then b % 16 else b % 8

-- `s.chars()`, of a `str`: of bytes that are well-formed. `need` more bytes belong to a character
-- whose bits so far are `held`.
unfoldable pub chars_from : ℕ → ℕ → List ℕ → Text
chars_from need held [] = []
chars_from zero held (b ∷ s) = elim (ltb b 0x80) [
  | true ↦ b ∷ chars_from 0 0 s
  | false ↦ chars_from (more_of b) (bits_of b) s
]
chars_from (suc zero) held (b ∷ s) = (held * 64 + b % 64) ∷ chars_from 0 0 s
chars_from (suc (suc need)) held (b ∷ s) = chars_from (suc need) (held * 64 + b % 64) s

unfoldable pub chars : List ℕ → Text
unfolding chars_from
chars s = chars_from 0 0 s
