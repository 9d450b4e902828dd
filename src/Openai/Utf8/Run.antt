-- ===== src/Openai/Utf8/Run.antt =====
-- Runs of the UTF-8 automaton, and what the check and the lossy decoding are in terms of them.
use mathlib.Core.Option.{some-injective}
use free_token_rs.Prelude.{
  ℕ, zero, suc, ◌+◌, ◌≤◌, ◌<◌, ◌≡◌, refl, sym, ap, subst, ◌∙◌, inl, inr, ◌⊎◌, true, false, Option,
  none, some, List, [], ◌∷◌, ◌++◌, ◌==◌, arith, Option-cases, length, length-append, append_assoc,
  append-nil,
}
use free_token_rs.Gguf.Utf8.{State, start, lead, next_state, valid_from, is_utf8}
use free_token_rs.Openai.Utf8.{Checked, whole, incomplete, invalid, check_from, from_utf8}

unfoldable pub run : State → List ℕ → Option State
run s [] = some s
run s (b ∷ bytes) = elim (next_state s b) [ none ↦ none | some s' ↦ run s' bytes ]

pub ℕ-cases : (n : ℕ) → (n ≡ 0) ⊎ ((m : ℕ) × (n ≡ suc m))
ℕ-cases zero = inl refl
ℕ-cases (suc m) = inr (m, refl)

-- The state after one more byte: it wants fewer bytes, and is the first one if it wants none.
abbrev pub Steps : State → State → Type 0
Steps s s' =
    (s'.need ≡ 0 → s' ≡ start) × (s.need ≡ 0 → s'.need ≤ 3) × (0 < s.need → s'.need + 1 ≡ s.need)

lead-eq-some : (b : ℕ) (s : State) → lead b ≡ some s → (s.need ≡ 0 → s ≡ start) × (s.need ≤ 3)
unfolding lead
lead-eq-some b s h = (λ e. ground (arith, e), ground arith)

pub next_state-eq-some : (s : State) (b : ℕ) (s' : State) → next_state s b ≡ some s' → Steps s s'
unfolding next_state
next_state-eq-some s b s' h = elim (ℕ-cases s.need) [
  | inl z ↦
      let first = lead-eq-some b s' (rw (z, next_state) at h) in
      (first.0, λ e. first.1, λ lt. absurd (omega arith))
  | inr (n, e) ↦
      let h' = rw (e, next_state) at h in
      (λ z. ground (arith, h', z), λ z. absurd (omega arith), λ lt. ground (arith, h'))
]

pub run-append :
    (s : State) (xs ys : List ℕ)
    → run s (xs ++ ys) ≡ elim (run s xs) [ none ↦ none | some s' ↦ run s' ys ]
unfolding run
run-append s [] ys = refl
run-append s (x ∷ xs) ys = elim (Option-cases (next_state s x)) [
  | inl stuck ↦ rw (stuck, run) refl
  | inr (s', on) ↦ rw (on, run) (run-append s' xs ys)
]

valid_from-run :
    (s : State) (bytes : List ℕ) → run s bytes ≡ some start → valid_from (some s) bytes ≡ true
unfolding run valid_from
valid_from-run s [] h =
    subst (λ t. valid_from (some t) [] ≡ true) (sym (some-injective s start h)) refl
valid_from-run s (b ∷ bytes) h = elim (Option-cases (next_state s b)) [
  | inl stuck ↦ absurd (ground (arith, stuck, h))
  | inr (s', on) ↦ rw (on, valid_from) (valid_from-run s' bytes (rw (on, run) at h))
]

-- A text is well-formed if the automaton ends in its first state.
pub is_utf8-run : (bytes : List ℕ) → run start bytes ≡ some start → is_utf8 bytes ≡ true
unfolding is_utf8
is_utf8-run bytes h = valid_from-run start bytes h

-- If the text is well-formed, the automaton ends in its first state.
run-valid_from :
    (s : State) (bytes : List ℕ)
    → (s.need ≡ 0 → s ≡ start)
    → valid_from (some s) bytes ≡ true
    → run s bytes ≡ some start
unfolding run valid_from
run-valid_from s [] first h = ap some (first (ground (arith, h)))
run-valid_from s (b ∷ bytes) first h = elim (Option-cases (next_state s b)) [
  | inl stuck ↦ absurd (ground (arith, stuck, h))
  | inr (s', on) ↦
      rw (on, run)
        (run-valid_from s' bytes (next_state-eq-some s b s' on).0 (rw (on, valid_from) at h))
]

pub run-is_utf8 : (bytes : List ℕ) → is_utf8 bytes ≡ true → run start bytes ≡ some start
unfolding is_utf8
run-is_utf8 bytes h = run-valid_from start bytes (λ e. refl) h

-- What the check finds in a text, whose characters before position `up` are complete and whose
-- `held` bytes after it are a part of one.
abbrev pub Found : List ℕ → Checked → Type 0
Found bytes whole = run start bytes ≡ some start
Found bytes (incomplete up) =
    (text : List ℕ) × (rest : List ℕ) × (s : State) × (bytes ≡ text ++ rest)
    × (length text ≡ up)
    × (run start text ≡ some start)
    × (run start rest ≡ some s)
    × (0 < s.need)
    × (length rest + s.need ≤ 4)
Found bytes (invalid up) = run start bytes ≡ none

-- The automaton after the bytes `held` of a character.
pub record Within (held : List ℕ) (s : State) : Type 0 where
  pub ran : run start held ≡ some s
  pub first : s.need ≡ 0 → (s ≡ start) × (held ≡ [])
  pub short : 0 < s.need → length held + s.need ≤ 4

pub Within-start : Within [] start
unfolding run
Within-start = record { ran = refl; first = λ e. (refl, refl); short = λ lt. absurd (omega arith) }

run-snoc :
    (held : List ℕ) (s : State) (b : ℕ) (o : Option State)
    → run start held ≡ some s
    → next_state s b ≡ o
    → run start (held ++ b ∷ []) ≡ o
unfolding run
run-snoc held s b o ran on = run-append start held (b ∷ []) ∙ rw ran (rw (on, run) (one o))
  where
    one : (o : Option State) → elim o as (λ x. Option State) [ none ↦ none | some s' ↦ some s' ] ≡ o
    one none = refl
    one (some s') = refl

-- One more byte: the character is complete, or still is not.
pub Within-step :
    (held : List ℕ) (s : State) (b : ℕ) (s' : State)
    → Within held s
    → next_state s b ≡ some s'
    → ((s'.need ≡ 0) × (run start (held ++ b ∷ []) ≡ some start))
      ⊎ ((0 < s'.need) × Within (held ++ b ∷ []) s')
Within-step held s b s' w on =
    let steps = next_state-eq-some s b s' on in
    let ran = run-snoc held s b (some s') w.ran on in
    elim (ℕ-cases s'.need) [
      | inl z ↦ inl (z, ran ∙ ap some (steps.0 z))
      | inr (m, e) ↦ inr (
        omega arith,
        record {
          ran = ran;
          first = λ z. absurd (omega arith);
          short = λ lt. elim (ℕ-cases s.need) [
            | inl z ↦
                let none_held = ap (length {A = ℕ}) (w.first z).1 in
                omega (arith, length-append held (b ∷ []), none_held, steps.1 z)
            | inr (n, more) ↦
                omega
                  (arith, length-append held (b ∷ []), steps.2 (omega arith), w.short (omega arith))
          ];
        },
      )
    ]

pub run_text :
    (text rest : List ℕ) → run start text ≡ some start → run start (text ++ rest) ≡ run start rest
run_text text rest h = run-append start text rest ∙ rw h refl

run_held :
    (held bytes : List ℕ) (s : State)
    → run start held ≡ some s
    → run start (held ++ bytes) ≡ run s bytes
run_held held bytes s h = run-append start held bytes ∙ rw h refl

check_from-Found :
    (bytes text held : List ℕ) (s : State) (i up : ℕ)
    → Within held s
    → run start text ≡ some start
    → length text ≡ up
    → up + length held ≡ i
    → Found (text ++ (held ++ bytes)) (check_from s i up bytes)
unfolding check_from run
check_from-Found [] text held s i up w t at at_i = elim (ℕ-cases s.need) [
  | inl z ↦
      rw (z, check_from)
        (run_text text (held ++ []) t ∙ run_held held [] s w.ran ∙ ap some (w.first z).0)
  | inr (n, more) ↦
      let wants : (s.need == 0) ≡ false = ground (arith, more) in
      rw (wants, check_from)
        (
          text,
          held,
          s,
          ap (λ l. text ++ l) (append-nil held),
          at,
          t,
          w.ran,
          omega arith,
          w.short (omega arith),
        )
]
check_from-Found (b ∷ bytes) text held s i up w t at at_i = elim (Option-cases (next_state s b)) [
  | inl stuck ↦
      rw (stuck, check_from)
        (run_text text (held ++ b ∷ bytes) t
          ∙ run_held held (b ∷ bytes) s w.ran
          ∙ rw (stuck, run) refl)
  | inr (s', on) ↦ elim (Within-step held s b s' w on) [
    | inl (z, done) ↦
        let on' = on ∙ ap some ((next_state-eq-some s b s' on).0 z) in
        let joined =
          append_assoc text (held ++ b ∷ []) bytes
          ∙ ap (λ l. text ++ l) (append_assoc held (b ∷ []) bytes) in
        rw (on', check_from)
          (subst (λ l. Found l (check_from start (i + 1) (i + 1) bytes)) joined
            (check_from-Found bytes (text ++ (held ++ b ∷ [])) [] start (i + 1) (i + 1) Within-start
              (run_text text (held ++ b ∷ []) t ∙ done)
              (omega (arith, length-append text (held ++ b ∷ []), length-append held (b ∷ [])))
              (omega arith)))
    | inr (more, w') ↦
        let wants : (s'.need == 0) ≡ false = ground (arith, more) in
        rw (on, wants, check_from)
          (subst (λ l. Found (text ++ l) (check_from s' (i + 1) up bytes))
            (append_assoc held (b ∷ []) bytes)
            (check_from-Found bytes text (held ++ b ∷ []) s' (i + 1) up w' t at
              (omega (arith, length-append held (b ∷ [])))))
  ]
]

pub from_utf8-Found : (bytes : List ℕ) → Found bytes (from_utf8 bytes)
unfolding run
from_utf8-Found bytes = check_from-Found bytes [] [] start 0 0 Within-start refl refl (omega arith)
