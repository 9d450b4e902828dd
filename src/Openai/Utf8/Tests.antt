-- ===== src/Openai/Utf8/Tests.antt =====
-- Runs of `Utf8Stream`.
use free_token_rs.Prelude.{ℕ, ◌<◌, ◌≡◌, refl, ◌⊎◌, true, false, some, List, [], ◌∷◌, ◌++◌, length}
use free_token_rs.Gguf.Utf8.{lead, next_state, is_utf8}
use free_token_rs.Openai.Utf8.{
  check_from, lossy, Utf8Stream, unwrap_utf8, split_valid, emit, push, finish,
}
use free_token_rs.Openai.Utf8.Stream.{held, feed, push-Emits, feed-joined}

program : Unit {0}
unfolding lead next_state is_utf8 check_from lossy unwrap_utf8 split_valid emit push finish
program = tt

-- A character of two bytes in two pieces.
abbrev cut : List (List ℕ)
cut = (0x68 ∷ 0xC3 ∷ []) ∷ (0xA9 ∷ []) ∷ []

first_half : push (held []) (0x68 ∷ 0xC3 ∷ []) ≡ some (held (0xC3 ∷ []), 0x68 ∷ [])
unfolding program
first_half = refl

-- With an invalid byte before it, the first byte of a character is not held back but replaced.
not_held :
    push (held []) (0xFF ∷ 0xC3 ∷ []) ≡ some (held [], 0xEF ∷ 0xBF ∷ 0xBD ∷ 0xEF ∷ 0xBF ∷ 0xBD ∷ [])
unfolding program
not_held = refl

-- A byte that breaks a character off is read again.
broken_off :
    push (held (0xE2 ∷ 0x82 ∷ [])) (0x41 ∷ []) ≡ some (held [], 0xEF ∷ 0xBF ∷ 0xBD ∷ 0x41 ∷ [])
unfolding program
broken_off = refl

rest_replaced : finish (held (0xE2 ∷ [])) ≡ (held [], 0xEF ∷ 0xBF ∷ 0xBD ∷ [])
unfolding program
rest_replaced = refl

push-Emits_example :
    (u' : Utf8Stream) × (text : List ℕ) × (push (held (0xC3 ∷ [])) (0xA9 ∷ []) ≡ some (u', text))
    × (is_utf8 text ≡ true)
    × (length u'.pending < 4)
    × ((text ++ u'.pending ≡ 0xC3 ∷ 0xA9 ∷ [])
        ⊎ ((u'.pending ≡ []) × ((t : List ℕ) → is_utf8 (0xC3 ∷ 0xA9 ∷ t) ≡ false)))
push-Emits_example = push-Emits (held (0xC3 ∷ [])) (0xA9 ∷ [])

feed-joined_example : feed (held []) cut ≡ some (0x68 ∷ 0xC3 ∷ 0xA9 ∷ [])
unfolding program
feed-joined_example = feed-joined cut refl
