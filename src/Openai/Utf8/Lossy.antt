-- ===== src/Openai/Utf8/Lossy.antt =====
-- The lossy decoding: it keeps a well-formed text, and what it makes is always well-formed.
use mathlib.Core.Option.{some-injective}
use free_token_rs.Prelude.{
  ℕ, zero, suc, ◌≡◌, refl, sym, ap, subst, ◌∙◌, inl, inr, false, none, some, List, [], ◌∷◌, ◌++◌,
  ◌==◌, arith, Option-cases, append_assoc,
}
use free_token_rs.Gguf.Utf8.{State, start, lead, next_state}
use free_token_rs.Openai.Utf8.{replacement, lossy}
use free_token_rs.Openai.Utf8.Run.{
  run, ℕ-cases, Within, Within-start, Within-step, run_text, next_state-eq-some,
}

wanting :
    (m n : ℕ) (x y : List ℕ) → m ≡ suc n → elim m as (λ k. List ℕ) [ zero ↦ x | suc k ↦ y ] ≡ y
wanting zero n x y e = absurd (omega arith)
wanting (suc m) n x y e = refl

lossy-cons :
    (bytes held : List ℕ) (s s' : State) (b n : ℕ)
    → next_state s b ≡ some s'
    → s'.need ≡ suc n
    → lossy s held (b ∷ bytes) ≡ lossy s' (held ++ b ∷ []) bytes
unfolding lossy
lossy-cons bytes held s s' b n on e = rw (on, lossy) (wanting s'.need n _ _ e)

pub lossy_whole :
    (bytes held : List ℕ) (s : State)
    → Within held s
    → run s bytes ≡ some start
    → lossy s held bytes ≡ held ++ bytes
unfolding lossy run
lossy_whole [] held s w h =
    let z : s.need ≡ 0 = ap (λ t. t.need) (some-injective s start h) in
    rw (z, lossy) (ap (λ l. l ++ []) (sym (w.first z).1))
lossy_whole (b ∷ bytes) held s w h = elim (Option-cases (next_state s b)) [
  | inl stuck ↦ absurd (ground (arith, stuck, h))
  | inr (s', on) ↦
      let h' = rw (on, run) at h in
      elim (Within-step held s b s' w on) [
        | inl (z, done) ↦
            let first = (next_state-eq-some s b s' on).0 z in
            rw (on, z, lossy)
              (ap (λ l. held ++ b ∷ l)
                (lossy_whole bytes [] start Within-start
                  (subst (λ t. run t bytes ≡ some start) first h')))
        | inr (more, w') ↦ elim (ℕ-cases s'.need) [
          | inl z ↦ absurd (omega arith)
          | inr (n, e) ↦
              lossy-cons bytes held s s' b n on e
              ∙ lossy_whole bytes (held ++ b ∷ []) s' w' h'
              ∙ append_assoc held (b ∷ []) bytes
        ]
      ]
]

run_replacement :
    (rest : List ℕ) → run start rest ≡ some start → run start (replacement ++ rest) ≡ some start
unfolding run next_state lead
run_replacement rest h = h

next_state-start : (b : ℕ) → next_state start b ≡ lead b
unfolding next_state
next_state-start b = refl

-- A byte that does not go on with a character is read again as the first of one.
lossy_broken :
    (bytes held : List ℕ) (s : State) (b n : ℕ)
    → next_state s b ≡ none
    → s.need ≡ suc n
    → lossy s held (b ∷ bytes) ≡ replacement ++ lossy start [] (b ∷ bytes)
unfolding lossy
lossy_broken bytes held s b n stuck e = elim (Option-cases (lead b)) [
  | inl none_at ↦
      let first = next_state-start b ∙ none_at in rw (stuck, e, none_at, first, lossy) refl
  | inr (s', at) ↦ let first = next_state-start b ∙ at in rw (stuck, e, at, first, lossy) refl
]

abbrev Keeps : List ℕ → Type 0
Keeps bytes =
    (held : List ℕ) (s : State) → Within held s → run start (lossy s held bytes) ≡ some start

Keeps-some :
    (bytes held : List ℕ) (s s' : State) (b : ℕ)
    → Keeps bytes
    → Within held s
    → next_state s b ≡ some s'
    → run start (lossy s held (b ∷ bytes)) ≡ some start
unfolding lossy
Keeps-some bytes held s s' b keeps w on = elim (Within-step held s b s' w on) [
  | inl (z, done) ↦
      let rest = lossy start [] bytes in
      rw (on, z, lossy)
        (ap (run start) (sym (append_assoc held (b ∷ []) rest))
          ∙ run_text (held ++ b ∷ []) rest done
          ∙ keeps [] start Within-start)
  | inr (more, w') ↦ elim (ℕ-cases s'.need) [
    | inl z ↦ absurd (omega arith)
    | inr (n, e) ↦
        ap (run start) (lossy-cons bytes held s s' b n on e) ∙ keeps (held ++ b ∷ []) s' w'
  ]
]

Keeps-start :
    (bytes : List ℕ) (b : ℕ) → Keeps bytes → run start (lossy start [] (b ∷ bytes)) ≡ some start
unfolding lossy
Keeps-start bytes b keeps = elim (Option-cases (next_state start b)) [
  | inl stuck ↦ rw (stuck, lossy) (run_replacement _ (keeps [] start Within-start))
  | inr (s', on) ↦ Keeps-some bytes [] start s' b keeps Within-start on
]

pub run-lossy : (bytes : List ℕ) → Keeps bytes
unfolding lossy run
run-lossy [] held s w = elim (ℕ-cases s.need) [
  | inl z ↦ rw (z, lossy) refl
  | inr (n, e) ↦
      let wants : (s.need == 0) ≡ false = ground (arith, e) in
      rw (wants, lossy) (run_replacement [] refl)
]
run-lossy (b ∷ bytes) held s w = elim (Option-cases (next_state s b)) [
  | inl stuck ↦ elim (ℕ-cases s.need) [
    | inl z ↦ rw (stuck, z, lossy) (run_replacement _ (run-lossy bytes [] start Within-start))
    | inr (n, e) ↦
        ap (run start) (lossy_broken bytes held s b n stuck e)
        ∙ run_replacement _ (Keeps-start bytes b (run-lossy bytes))
  ]
  | inr (s', on) ↦ Keeps-some bytes held s s' b (run-lossy bytes) w on
]
