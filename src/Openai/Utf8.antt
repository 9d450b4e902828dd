-- ===== src/Openai/Utf8.antt =====
-- `Utf8Stream` of ft-model/src/openai.rs: it makes text of the bytes of tokens and holds back the
-- part of a character that is not complete. Texts are lists of their UTF-8 bytes.
pub mod Run
pub mod Lossy
pub mod Stream
mod Tests
use free_token_rs.Prelude.{
  ℕ, zero, suc, ◌+◌, Bool, Option, none, some, List, [], ◌∷◌, ◌++◌, ◌==◌, if◌then◌else◌, length,
  take, drop, ◌>>=◌,
}
use free_token_rs.Gguf.Utf8.{State, start, lead, next_state, is_utf8}

-- What `std::str::from_utf8` returns: no error, or an error with its `valid_up_to`, that has no
-- `error_len` (the text ends within a character) or has one.
pub data Checked : Type 0 where
  whole : Checked
  incomplete : ℕ → Checked
  invalid : ℕ → Checked

-- The check from byte `i` on, where the last character ended at `up`.
unfoldable pub check_from : State → ℕ → ℕ → List ℕ → Checked
check_from s i up [] = if s.need == 0 then whole else incomplete up
check_from s i up (b ∷ bytes) = elim (next_state s b) [
  | none ↦ invalid up
  | some s' ↦ check_from s' (i + 1) (if s'.need == 0 then i + 1 else up) bytes
]

abbrev pub from_utf8 : List ℕ → Checked
from_utf8 bytes = check_from start 0 0 bytes

-- U+FFFD
abbrev pub replacement : List ℕ
replacement = 0xEF ∷ 0xBF ∷ 0xBD ∷ []

-- `String::from_utf8_lossy`, after the bytes `held` of a character: a character that is not
-- completed is replaced.
unfoldable pub lossy : State → List ℕ → List ℕ → List ℕ
lossy s held [] = if s.need == 0 then [] else replacement
lossy s held (b ∷ bytes) =
    let after : List ℕ → State → List ℕ = λ held s'. elim s'.need [
      | zero ↦ held ++ b ∷ lossy start [] bytes
      | suc n ↦ lossy s' (held ++ b ∷ []) bytes
    ] in
    elim (next_state s b) [
      | some s' ↦ after held s'
      | none ↦ elim s.need [
        | zero ↦ replacement ++ lossy start [] bytes
        | suc n ↦ elim (lead b) [
          | none ↦ replacement ++ replacement ++ lossy start [] bytes
          | some s' ↦ replacement ++ after [] s'
        ]
      ]
    ]

-- The bytes that are held back.
pub record Utf8Stream : Type 0 where
  pub pending : List ℕ

-- `String::from_utf8(...).unwrap()`
unfoldable pub unwrap_utf8 : List ℕ → Option (List ℕ)
unwrap_utf8 bytes = if is_utf8 bytes then some bytes else none

unfoldable pub split_valid : List ℕ → ℕ → Option (Utf8Stream × List ℕ)
split_valid pending valid = unwrap_utf8 (take valid pending) >>= λ text.
    some (record { pending = drop valid pending }, text)

-- The `match` of `push`, on what was held back and the new bytes.
unfoldable pub emit : List ℕ → Checked → Option (Utf8Stream × List ℕ)
emit pending whole = split_valid pending (length pending)
emit pending (incomplete up) = split_valid pending up
emit pending (invalid up) = some (record { pending = [] }, lossy start [] pending)

unfoldable pub push : Utf8Stream → List ℕ → Option (Utf8Stream × List ℕ)
push u bytes = let pending = u.pending ++ bytes in emit pending (from_utf8 pending)

unfoldable pub finish : Utf8Stream → Utf8Stream × List ℕ
finish u = (record { pending = [] }, lossy start [] u.pending)
