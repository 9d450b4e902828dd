-- ===== src/Openai/Stop.antt =====
-- `StopMatcher` of ft-model/src/openai.rs: stop sequences over streamed text.
pub mod Find
pub mod Hold
pub mod Push
pub mod Stream
use free_token_rs.Prelude.{
  ℕ, zero, suc, ◌+◌, ◌-◌, Bool, true, false, ◌&&◌, Option, none, some, List, [], ◌∷◌, ◌++◌, min,
  ltb, if◌then◌else◌, length, take, drop,
}
use free_token_rs.Text.{Text, find, ends_with}

pub record StopMatcher : Type 0 where
  pub stops : List Text
  pub buf : Text

unfoldable pub new : List Text → StopMatcher
new stops = record { stops = stops; buf = [] }

-- The smaller of two positions, where there are any.
abbrev pub min_position : Option ℕ → Option ℕ → Option ℕ
min_position none r = r
min_position (some p) none = some p
min_position (some p) (some q) = some (min p q)

-- `stops.iter().filter_map(|s| buf.find(s)).min()`
unfoldable pub first_stop : List Text → Text → Option ℕ
first_stop [] buf = none
first_stop (s ∷ stops) buf = min_position (find buf s) (first_stop stops buf)

-- The loop over the prefixes of one stop sequence, of `i` characters and of the `n - 1` next lengths.
unfoldable pub hold_prefixes : Text → Text → ℕ → ℕ → ℕ → ℕ
hold_prefixes buf s i zero hold = hold
hold_prefixes buf s i (suc n) hold =
    hold_prefixes buf s (i + 1) n (if ltb hold i && ends_with buf (take i s) then i else hold)

-- The longest suffix of the buffer that is a proper prefix of some stop sequence.
unfoldable pub hold_back : Text → List Text → ℕ → ℕ
hold_back buf [] hold = hold
hold_back buf (s ∷ stops) hold = hold_back buf stops (hold_prefixes buf s 1 (length s - 1) hold)

-- The end of `push`, when no stop sequence is in the buffer.
unfoldable pub emit_safe : StopMatcher → Text → StopMatcher × Text × Bool
emit_safe m buf =
    let cut = length buf - hold_back buf m.stops 0 in
    (record m { buf = drop cut buf }, take cut buf, false)

unfoldable pub push : StopMatcher → Text → StopMatcher × Text × Bool
push m text =
    let buf = m.buf ++ text in
    elim m.stops [
      | [] ↦ (record m { buf = [] }, buf, false)
      | _ ∷ _ ↦ elim (first_stop m.stops buf) [
        | some pos ↦ (record m { buf = [] }, take pos buf, true)
        | none ↦ emit_safe m buf
      ]
    ]

unfoldable pub finish : StopMatcher → StopMatcher × Text
finish m = (record m { buf = [] }, m.buf)
