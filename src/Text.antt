-- ===== src/Text.antt =====
-- The `str` operations that the crates call, over texts as lists of characters or of bytes. For a
-- text of characters positions count characters; the source counts bytes, which orders them alike.
use Prim.Native.Char.{code}
use Prim.Native.String.{String}
use native.Mathlib.Numerals.{add-one}
use free_token_rs.Prelude.{
  ℕ, zero, suc, ◌+◌, ◌-◌, ◌≤◌, ◌<◌, ◌≡◌, ◌≢◌, refl, ◌⊎◌, inl, inr, Bool, true, false, ◌&&◌, Option,
  none, some, List, [], ◌∷◌, ◌++◌, arith, leb, ◌==◌, if◌then◌else◌, Bool-cases, length, take, drop,
}

abbrev pub Text : Type 0
Text = List ℕ

-- A literal of ASCII characters.
abbrev pub codes : String → Text
codes String.[] = []
codes (String.◌∷◌ c s) = code c ∷ codes s

-- `s.is_empty()`
abbrev pub is_empty : Text → Bool
is_empty [] = true
is_empty (c ∷ s) = false

unfoldable pub text_eq : Text → Text → Bool
text_eq [] [] = true
text_eq [] (d ∷ t) = false
text_eq (c ∷ s) [] = false
text_eq (c ∷ s) (d ∷ t) = c == d && text_eq s t

-- `t.starts_with(s)`
unfoldable pub starts_with : Text → Text → Bool
starts_with t [] = true
starts_with [] (c ∷ s) = false
starts_with (d ∷ t) (c ∷ s) = c == d && starts_with t s

-- `t.find(s)`
unfoldable pub find : Text → Text → Option ℕ
find [] s = if starts_with [] s then some 0 else none
find (d ∷ t) s =
    if starts_with (d ∷ t) s
    then some 0
    else elim (find t s) [ none ↦ none | some p ↦ some (p + 1) ]

-- `t.ends_with(s)`
unfoldable pub ends_with : Text → Text → Bool
ends_with t s = leb (length s) (length t) && text_eq (drop (length t - length s) t) s

pub text_eq_refl : (s : Text) → text_eq s s ≡ true
unfolding text_eq
text_eq_refl [] = refl
text_eq_refl (c ∷ s) = ground (arith, text_eq_refl s)

pub eq_of_text_eq : (s t : Text) → text_eq s t ≡ true → s ≡ t
unfolding text_eq
eq_of_text_eq [] [] h = refl
eq_of_text_eq [] (d ∷ t) h = ground arith
eq_of_text_eq (c ∷ s) [] h = ground arith
eq_of_text_eq (c ∷ s) (d ∷ t) h = ground (arith, eq_of_text_eq s t)

-- A prefix of `x ++ t` is one of `x`, or goes beyond `x` and begins with it.
pub starts_with-append :
    (x t s : Text)
    → starts_with (x ++ t) s ≡ true
    → (starts_with x s ≡ true) ⊎ ((length x < length s) × (take (length x) s ≡ x))
unfolding starts_with
starts_with-append x t [] h = inl refl
starts_with-append [] t (c ∷ s) h = inr (omega arith, refl)
starts_with-append (d ∷ x) t (c ∷ s) h = ground (arith, starts_with-append x t s)

-- What `find` returns: the first position at which the text goes on with `s`.
abbrev pub Finds : Text → Text → Option ℕ → Type 0
Finds t s none = (q : ℕ) → s ≢ [] → starts_with (drop q t) s ≡ false
Finds t s (some p) =
    (starts_with (drop p t) s ≡ true)
    × ((q : ℕ) → q < p → starts_with (drop q t) s ≡ false)
    × (p ≤ length t)

pub drop-nil : (q : ℕ) → drop {A = ℕ} q [] ≡ []
drop-nil zero = refl
drop-nil (suc q) = refl

pub drop-append_lt : (q : ℕ) (xs ys : Text) → q ≤ length xs → drop q (xs ++ ys) ≡ drop q xs ++ ys
drop-append_lt zero xs ys h = refl
drop-append_lt (suc q) [] ys h = absurd (omega arith)
drop-append_lt (suc q) (x ∷ xs) ys h = drop-append_lt q xs ys (omega arith)

before-cons :
    (d p : ℕ) (t s : Text)
    → starts_with (d ∷ t) s ≡ false
    → ((q : ℕ) → q < p → starts_with (drop q t) s ≡ false)
    → (q : ℕ) → q < p + 1
    → starts_with (drop q (d ∷ t)) s ≡ false
before-cons d p t s miss before zero lt = miss
before-cons d p t s miss before (suc q) lt = before q (omega arith)

Finds-cons :
    (d : ℕ) (t s : Text) (r : Option ℕ)
    → starts_with (d ∷ t) s ≡ false
    → Finds t s r
    → Finds (d ∷ t) s (elim r [ none ↦ none | some p ↦ some (p + 1) ])
Finds-cons d t s none miss f =
    λ q ne. elim q as (λ q. starts_with (drop q (d ∷ t)) s ≡ false) [ zero ↦ miss | suc q ↦ f q ne ]
Finds-cons d t s (some p) miss f = (rw (add-one p) f.0, before-cons d p t s miss f.1, omega arith)

pub find-Finds : (t s : Text) → Finds t s (find t s)
unfolding find
find-Finds [] s = elim (Bool-cases (starts_with [] s)) [
  | inl hit ↦ rw hit (hit, (λ q lt. absurd (omega arith)), omega arith)
  | inr miss ↦ rw miss (λ q ne. rw (drop-nil q) miss)
]
find-Finds (d ∷ t) s = elim (Bool-cases (starts_with (d ∷ t) s)) [
  | inl hit ↦ rw hit (hit, (λ q lt. absurd (omega arith)), omega arith)
  | inr miss ↦ rw miss (Finds-cons d t s (find t s) miss (find-Finds t s))
]
