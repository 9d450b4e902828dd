-- ===== src/Openai/Stop/Push.antt =====
-- The laws of one `push`.
use free_token_rs.Prelude.{
  ℕ, ◌-◌, ◌<◌, ◌≡◌, refl, subst, ◌⊎◌, inl, inr, Bool, true, false, List, [], ◌∷◌, ◌++◌, append-nil,
  arith, Option-cases, length, take, drop, length-take, take-append-drop,
}
use free_token_rs.Text.{Text, drop-append_lt}
use free_token_rs.Openai.Stop.{StopMatcher, hold_back, first_stop, emit_safe, push}
use free_token_rs.Openai.Stop.Find.{
  stop_at, FirstAt, StopFree, FirstStop, AllNonempty, first_stop_lem,
}
use free_token_rs.Openai.Stop.Hold.{stop_at_before_hold}

-- The first stop sequence in the buffer ends the output before it.
pub record Hit (stops : List Text) (buf out : Text) : Type 0 where
  pub pos : ℕ
  pub first : FirstAt stops buf pos
  pub emitted : out ≡ take pos buf

-- No stop sequence is in the buffer. The output and what is kept make it up, and no stop
-- sequence will begin in the output, whatever text follows.
pub record Clear (stops : List Text) (buf out kept : Text) : Type 0 where
  pub split : out ++ kept ≡ buf
  pub clear : StopFree stops buf
  pub safe : (t : Text) (q : ℕ) → q < length out → stop_at stops (drop q (buf ++ t)) ≡ false

cut-Clear :
    (stops : List Text) (buf : Text)
    → StopFree stops buf
    → let cut = length buf - hold_back buf stops 0 in Clear stops buf (take cut buf) (drop cut buf)
cut-Clear stops buf free = record {
  split = take-append-drop (length buf - hold_back buf stops 0) buf;
  clear = free;
  safe = λ t q lt.
      let cut = length buf - hold_back buf stops 0 in
      let short : q < cut = omega (arith, length-take cut buf) in
      rw (drop-append_lt q buf t (omega arith))
        (ground (arith, stop_at_before_hold buf t stops q 0 (omega arith), free q));
}

-- What one `push` onto `buf` leaves.
abbrev pub Pushed : List Text → Text → StopMatcher × Text × Bool → Type 0
Pushed stops buf r =
    (r.0.stops ≡ stops)
    × (((r.2 ≡ true) × (r.0.buf ≡ []) × Hit stops buf r.1)
        ⊎ ((r.2 ≡ false) × Clear stops buf r.1 r.0.buf))

push-Pushed_at :
    (stops : List Text) (before text : Text)
    → AllNonempty stops
    → Pushed stops (before ++ text) (push (record { stops = stops; buf = before }) text)
unfolding push emit_safe
push-Pushed_at [] before text ne = (
  refl,
  inr (
    refl,
    record { split = append-nil (before ++ text); clear = λ q. refl; safe = λ t q lt. refl },
  ),
)
push-Pushed_at (s ∷ stops) before text ne =
    let buf = before ++ text in
    let first = first_stop_lem (s ∷ stops) buf ne in
    elim (Option-cases (first_stop (s ∷ stops) buf)) [
      | inl clear ↦
          let free : StopFree (s ∷ stops) buf = subst (FirstStop (s ∷ stops) buf) clear first in
          rw (clear, push) (refl, inr (refl, cut-Clear (s ∷ stops) buf free))
      | inr (p, found) ↦
          let at : FirstAt (s ∷ stops) buf p = subst (FirstStop (s ∷ stops) buf) found first in
          rw (found, push) (refl, inl (refl, refl, record { pos = p; first = at; emitted = refl }))
    ]

-- `push` keeps the stop sequences, none of them empty. Either it hits: it emits what stands before
-- the first stop sequence of the buffered text, and empties the buffer. Or no stop sequence is in
-- the buffered text: it emits a part in which none can begin any more, whatever text follows, and
-- keeps the rest.
pub push-Pushed :
    (m : StopMatcher) (text : Text)
    → AllNonempty m.stops
    → Pushed m.stops (m.buf ++ text) (push m text)
push-Pushed m text ne = push-Pushed_at m.stops m.buf text ne
