-- ===== src/Openai/Stop/Find.antt =====
-- Where the stop sequences stand in a text.
use free_token_rs.Prelude.{
  ℕ, ◌≤◌, ◌<◌, ◌≡◌, ◌≢◌, refl, ◌⊎◌, inl, inr, Bool, true, false, ◌||◌, Option, none, some, List, [],
  ◌∷◌, arith, min, All, length, drop,
}
use free_token_rs.Text.{Text, starts_with, find, Finds, find-Finds}
use free_token_rs.Openai.Stop.{min_position, first_stop}

-- Some stop sequence begins the text.
abbrev pub stop_at : List Text → Text → Bool
stop_at [] t = false
stop_at (s ∷ stops) t = starts_with t s || stop_at stops t

-- `p` is the first position at which a stop sequence stands.
abbrev pub FirstAt : List Text → Text → ℕ → Type 0
FirstAt stops t p =
    (stop_at stops (drop p t) ≡ true)
    × ((q : ℕ) → q < p → stop_at stops (drop q t) ≡ false)
    × (p ≤ length t)

-- No stop sequence stands anywhere in the text.
abbrev pub StopFree : List Text → Text → Type 0
StopFree stops t = (q : ℕ) → stop_at stops (drop q t) ≡ false

abbrev pub AllNonempty : List Text → Type 0
AllNonempty = All (λ s. s ≢ [])

abbrev pub FirstStop : List Text → Text → Option ℕ → Type 0
FirstStop stops t none = StopFree stops t
FirstStop stops t (some p) = FirstAt stops t p

min-cases : (p q : ℕ) → ((min p q ≡ p) × (p ≤ q)) ⊎ ((min p q ≡ q) × (q ≤ p))
min-cases p q = omega arith

min_position-FirstStop :
    (s : Text) (stops : List Text) (t : Text) (r r' : Option ℕ)
    → s ≢ []
    → Finds t s r
    → FirstStop stops t r'
    → FirstStop (s ∷ stops) t (min_position r r')
min_position-FirstStop s stops t none none ne f g = λ q. ground (arith, f q ne, g q)
min_position-FirstStop s stops t none (some q) ne f g =
    (ground (arith, g.0, f q ne), (λ j lt. ground (arith, f j ne, g.1 j lt)), g.2)
min_position-FirstStop s stops t (some p) none ne f g =
    (ground (arith, f.0), (λ j lt. ground (arith, f.1 j lt, g j)), f.2)
min_position-FirstStop s stops t (some p) (some q) ne f g = elim (min-cases p q) [
  | inl (e, le) ↦
      rw e (ground (arith, f.0), (λ j lt. ground (arith, f.1 j lt, g.1 j (omega arith))), f.2)
  | inr (e, le) ↦
      rw e (ground (arith, g.0), (λ j lt. ground (arith, f.1 j (omega arith), g.1 j lt)), g.2)
]

pub first_stop_lem :
    (stops : List Text) (t : Text) → AllNonempty stops → FirstStop stops t (first_stop stops t)
unfolding first_stop
first_stop_lem [] t ne = λ q. refl
first_stop_lem (s ∷ stops) t ne =
    min_position-FirstStop s stops t (find t s) (first_stop stops t) ne.0 (find-Finds t s)
      (first_stop_lem stops t ne.1)
