-- ===== src/Chars/Encoding.antt =====
-- Characters are read back from their bytes, which are well-formed; and reading goes through a
-- well-formed text piece by piece.
use mathlib.Core.Option.{some-injective}
use free_token_rs.Prelude.{
  ℕ, zero, suc, ◌+◌, ◌*◌, ◌%◌, ◌≤◌, ◌<◌, ◌≡◌, refl, sym, subst, ap, ◌∙◌, inl, inr, ◌⊎◌, some, List,
  [], ◌∷◌, ◌++◌, Bool-cases, Option-cases, true, arith, ltb, if◌then◌else◌, All, append_assoc,
}
use free_token_rs.Text.{Text}
use free_token_rs.Gguf.Utf8.{State, start, lead, next_state, is_utf8}
use free_token_rs.Openai.Utf8.Run.{run, run_text, next_state-eq-some, is_utf8-run}
use free_token_rs.Chars.{char_bytes, bytes, more_of, bits_of, chars_from, chars}

-- The code points that a `char` can be.
abbrev pub IsScalar : ℕ → Type 0
IsScalar c = (c < 0xD800) ⊎ ((0xE000 ≤ c) × (c < 0x110000))

chars_from-char_bytes :
    (c : ℕ) (s : List ℕ) → IsScalar c → chars_from 0 0 (char_bytes c ++ s) ≡ c ∷ chars_from 0 0 s
unfolding char_bytes chars_from more_of bits_of
chars_from-char_bytes c s ok = ground arith

pub chars-bytes : (s : Text) → All IsScalar s → chars (bytes s) ≡ s
unfolding chars bytes
chars-bytes [] ok = refl
chars-bytes (c ∷ s) ok = chars_from-char_bytes c (bytes s) ok.0 ∙ ap (◌∷◌ c) (chars-bytes s ok.1)

run-char_bytes : (c : ℕ) → IsScalar c → run start (char_bytes c) ≡ some start
unfolding char_bytes run next_state lead
run-char_bytes c ok = ground arith

pub run-bytes : (s : Text) → All IsScalar s → run start (bytes s) ≡ some start
unfolding bytes run
run-bytes [] ok = refl
run-bytes (c ∷ s) ok = run_text (char_bytes c) (bytes s) (run-char_bytes c ok.0) ∙ run-bytes s ok.1

pub is_utf8-bytes : (s : Text) → All IsScalar s → is_utf8 (bytes s) ≡ true
is_utf8-bytes s ok = is_utf8-run (bytes s) (run-bytes s ok)

pub bytes-append : (s t : Text) → bytes (s ++ t) ≡ bytes s ++ bytes t
unfolding bytes
bytes-append [] t = refl
bytes-append (c ∷ s) t =
    ap (λ l. char_bytes c ++ l) (bytes-append s t)
    ∙ sym (append_assoc (char_bytes c) (bytes s) (bytes t))

lead-need : (b : ℕ) (s : State) → lead b ≡ some s → s.need ≡ (if ltb b 0x80 then 0 else more_of b)
unfolding lead more_of
lead-need b s h = ground arith

next_need : (s s' : State) (b : ℕ) → s.need ≡ 0 → next_state s b ≡ some s' → lead b ≡ some s'
unfolding next_state
next_need s s' b z h = rw (z, next_state) at h

held_zero : (held : ℕ) (b : List ℕ) → chars_from 0 held b ≡ chars_from 0 0 b
unfolding chars_from
held_zero held [] = refl
held_zero held (x ∷ b) = refl

-- The next byte of a text that the automaton accepts.
next_of :
    (s : State) (x : ℕ) (a : List ℕ)
    → run s (x ∷ a) ≡ some start
    → (s' : State) × (next_state s x ≡ some s') × (run s' a ≡ some start)
unfolding run
next_of s x a h = elim (Option-cases (next_state s x)) [
  | inl stuck ↦ absurd (ground (arith, stuck, h))
  | inr (s', on) ↦ (s', on, rw (on, run) at h)
]

chars_from-append :
    (a b : List ℕ) (s : State) (need held : ℕ)
    → s.need ≡ need
    → run s a ≡ some start
    → chars_from need held (a ++ b) ≡ chars_from need held a ++ chars_from 0 0 b
unfolding chars_from run
chars_from-append [] b s need held e h =
    let z : 0 ≡ need = sym (ap (λ t. t.need) (some-injective s start h)) ∙ e in
    subst (λ n. chars_from n held b ≡ chars_from 0 0 b) z (held_zero held b)
chars_from-append (x ∷ a) b s zero held e h =
    let (s', on, h') = next_of s x a h in
    let need' = lead-need x s' (next_need s s' x e on) in
    elim (Bool-cases (ltb x 0x80)) [
      | inl small ↦
          let z : s'.need ≡ 0 = ground (arith, need', small) in
          rw (small, chars_from) (ap (◌∷◌ x) (chars_from-append a b s' 0 0 z h'))
      | inr big ↦
          let m : s'.need ≡ more_of x = ground (arith, need', big) in
          rw (big, chars_from) (chars_from-append a b s' (more_of x) (bits_of x) m h')
    ]
chars_from-append (x ∷ a) b s (suc zero) held e h =
    let (s', on, h') = next_of s x a h in
    let steps = next_state-eq-some s x s' on in
    let z : s'.need ≡ 0 = omega (arith, steps.2 (omega arith)) in
    ap (◌∷◌ (held * 64 + x % 64)) (chars_from-append a b s' 0 0 z h')
chars_from-append (x ∷ a) b s (suc (suc need)) held e h =
    let (s', on, h') = next_of s x a h in
    let steps = next_state-eq-some s x s' on in
    let m : s'.need ≡ suc need = omega (arith, steps.2 (omega arith)) in
    chars_from-append a b s' (suc need) (held * 64 + x % 64) m h'

pub chars-append : (a b : List ℕ) → run start a ≡ some start → chars (a ++ b) ≡ chars a ++ chars b
unfolding chars
chars-append a b h = chars_from-append a b start 0 0 refl h
