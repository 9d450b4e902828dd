-- ===== src/Openai/Stop/Hold.antt =====
-- The text that `push` holds back.
use native.Mathlib.Decide.{ℕ_discrete}
use free_token_rs.Prelude.{
  ℕ, zero, suc, ◌+◌, ◌-◌, ◌≤◌, ◌<◌, ◌≡◌, sym, subst, inl, inr, true, ◌&&◌, List, [], ◌∷◌, ◌++◌,
  arith, ltb, if◌then◌else◌, length, take, drop, length-take, length-drop,
}
use free_token_rs.Text.{Text, text_eq_refl, starts_with, starts_with-append, ends_with}
use free_token_rs.Openai.Stop.{hold_prefixes, hold_back}
use free_token_rs.Openai.Stop.Find.{stop_at}

hold_prefixes-ge : (buf s : Text) (i n hold : ℕ) → hold ≤ hold_prefixes buf s i n hold
unfolding hold_prefixes
hold_prefixes-ge buf s i zero hold = omega arith
hold_prefixes-ge buf s i (suc n) hold = ground (
  arith,
  hold_prefixes-ge buf s (i + 1) n (if ltb hold i && ends_with buf (take i s) then i else hold),
)

hold_back-ge : (buf : Text) (stops : List Text) (hold : ℕ) → hold ≤ hold_back buf stops hold
unfolding hold_back
hold_back-ge buf [] hold = omega arith
hold_back-ge buf (s ∷ stops) hold = omega (
  arith,
  hold_prefixes-ge buf s 1 (length s - 1) hold,
  hold_back-ge buf stops (hold_prefixes buf s 1 (length s - 1) hold),
)

ends_with-le : (t s : Text) → ends_with t s ≡ true → length s ≤ length t
unfolding ends_with
ends_with-le t s h = ground arith

-- Nothing is held back that the buffer does not hold.
hold_prefixes-le :
    (buf s : Text) (i n hold : ℕ)
    → hold ≤ length buf
    → i + n ≤ length s + 1
    → hold_prefixes buf s i n hold ≤ length buf
unfolding hold_prefixes
hold_prefixes-le buf s i zero hold h b = h
hold_prefixes-le buf s i (suc n) hold h b =
    hold_prefixes-le buf s (i + 1) n (if ltb hold i && ends_with buf (take i s) then i else hold)
      (ground (arith, ends_with-le buf (take i s), length-take i s)) (omega arith)

pub hold_back-le :
    (buf : Text) (stops : List Text) (hold : ℕ)
    → hold ≤ length buf
    → hold_back buf stops hold ≤ length buf
unfolding hold_back
hold_back-le buf [] hold h = h
hold_back-le buf (s ∷ stops) hold h =
    hold_back-le buf stops (hold_prefixes buf s 1 (length s - 1) hold)
      (hold_prefixes-le buf s 1 (length s - 1) hold h (omega arith))

-- Every proper prefix that ends the buffer is held back.
hold_prefixes-covers :
    (buf s : Text) (i n hold j : ℕ)
    → i ≤ j
    → j < i + n
    → ends_with buf (take j s) ≡ true
    → j ≤ hold_prefixes buf s i n hold
unfolding hold_prefixes
hold_prefixes-covers buf s i zero hold j lo hi e = absurd (omega arith)
hold_prefixes-covers buf s i (suc n) hold j lo hi e =
    let hold' = if ltb hold i && ends_with buf (take i s) then i else hold in
    elim (ℕ_discrete i j) [
      | yes same ↦
          let e' : ends_with buf (take i s) ≡ true =
            subst (λ x. ends_with buf (take x s) ≡ true) (sym same) e in
          let kept : i ≤ hold' = ground arith in
          omega (arith, hold_prefixes-ge buf s (i + 1) n hold')
      | no other ↦ hold_prefixes-covers buf s (i + 1) n hold' j (omega arith) (omega arith) e
    ]

ends_with-drop :
    (buf s : Text) (q : ℕ)
    → q < length buf
    → take (length (drop q buf)) s ≡ drop q buf
    → ends_with buf (take (length buf - q) s) ≡ true
unfolding ends_with
ends_with-drop buf s q lt e =
    let n : length (drop q buf) ≡ length buf - q = length-drop q buf in
    let e' : take (length buf - q) s ≡ drop q buf = subst (λ k. take k s ≡ drop q buf) n e in
    let at : length buf - (length buf - q) ≡ q = omega arith in
    rw (e', n, at) (ground (arith, text_eq_refl (drop q buf)))

-- A stop sequence that begins before the held text is in the buffer, whatever text follows.
stop_before_hold :
    (buf t s : Text) (q held : ℕ)
    → hold_prefixes buf s 1 (length s - 1) held + q < length buf
    → starts_with (drop q buf ++ t) s ≡ true
    → starts_with (drop q buf) s ≡ true
stop_before_hold buf t s q held lt e = elim (starts_with-append (drop q buf) t s e) [
  | inl here ↦ here
  | inr (short, prefix) ↦ absurd (
      omega (
        arith,
        length-drop q buf,
        hold_prefixes-covers buf s 1 (length s - 1) held (length buf - q) (omega arith)
            (omega (arith, length-drop q buf)) (ends_with-drop buf s q (omega arith) prefix),
      ))
]

pub stop_at_before_hold :
    (buf t : Text) (stops : List Text) (q held : ℕ)
    → hold_back buf stops held + q < length buf
    → stop_at stops (drop q buf ++ t) ≡ true
    → stop_at stops (drop q buf) ≡ true
unfolding hold_back
stop_at_before_hold buf t [] q held lt e = e
stop_at_before_hold buf t (s ∷ stops) q held lt e =
    let held' = hold_prefixes buf s 1 (length s - 1) held in
    ground (
      arith,
      hold_back-ge buf stops held',
      stop_before_hold buf t s q held (omega (arith, hold_back-ge buf stops held')),
      stop_at_before_hold buf t stops q held' lt,
    )
