-- ===== src/Server/Numerals.antt =====
-- The numerals that ft-model/src/bin/serve.rs formats, and `new_id`.
use free_token_rs.Prelude.{
  ℕ, zero, suc, ◌+◌, ◌-◌, ◌/◌, ◌%◌, true, false, [], ◌∷◌, ◌++◌, ltb, u64_mod, if◌then◌else◌, length,
  replicate,
}
use free_token_rs.Text.{Text, codes}

-- A digit, as `{:x}` writes it.
unfoldable pub digit : ℕ → ℕ
digit d = if ltb d 10 then b'0' + d else b'a' + (d - 10)

-- The digits of a number before those that are there, on fuel.
unfoldable pub digits : ℕ → ℕ → ℕ → Text → Text
digits base zero n later = later
digits base (suc fuel) n later = elim (ltb n base) [
  | true ↦ digit n ∷ later
  | false ↦ digits base fuel (n / base) (digit (n % base) ∷ later)
]

-- `{}` of a `usize`, which has at most twenty digits.
unfoldable pub decimal : ℕ → Text
decimal n = digits 10 20 n []

-- `{:x}` of a `u64`
unfoldable pub hex : ℕ → Text
hex n = digits 16 16 n []

-- `{:06x}` of a `u64`
unfoldable pub hex_6 : ℕ → Text
hex_6 n = let ds = hex n in replicate (6 - length ds) (b'0') ++ ds

-- The identifier, given the time and `SEQ`, and what `SEQ` is then.
unfoldable pub new_id : Text → ℕ → ℕ → Text × ℕ
new_id prefix now seq = (prefix ++ codes "-" ++ hex now ++ hex_6 seq, (seq + 1) % u64_mod)
