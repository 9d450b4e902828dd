-- ===== src/Dispatch/Copies.antt =====
-- The copies of a step: their slots, and what the slots hold after them.
use free_token_rs.Prelude.{
  ℕ, zero, suc, ◌≡◌, ◌≢◌, refl, ap, ◌∙◌, ◌⊎◌, inl, inr, Option, some, List, [], ◌∷◌, map, arith,
  ◌==◌, if◌then◌else◌, All, Among, Distinct, take, Bool-cases,
}
use free_token_rs.SlotCache.{ExpertKey}
use free_token_rs.Dispatch.{slot_of, slots_of, settle}

slot_of_self : (misses : List (ℕ × ℕ)) (e s : ℕ) → slot_of ((e, s) ∷ misses) e ≡ some s
unfolding slot_of
slot_of_self misses e s = ground arith

slot_of_ne :
    (misses : List (ℕ × ℕ)) (e s x : ℕ) → e ≢ x → slot_of ((e, s) ∷ misses) x ≡ slot_of misses x
unfolding slot_of
slot_of_ne misses e s x ne = ground arith

-- Each miss is found, if the missing experts are distinct.
slot_of_each :
    (misses : List (ℕ × ℕ))
    → Distinct (map (λ p. p.0) misses)
    → All (λ p. slot_of misses (p.0) ≡ some (p.1)) misses
slot_of_each [] d = tt
slot_of_each ((e, s) ∷ misses) d =
    (slot_of_self misses e s, later misses d.0 (slot_of_each misses d.1))
  where
    later :
        (rest : List (ℕ × ℕ))
        → All (λ y. e ≢ y) (map (λ p. p.0) rest)
        → All (λ p. slot_of misses (p.0) ≡ some (p.1)) rest
        → All (λ p. slot_of ((e, s) ∷ misses) (p.0) ≡ some (p.1)) rest
    later [] ne h = tt
    later (p ∷ rest) ne h = (slot_of_ne misses e s (p.0) ne.0 ∙ h.0, later rest ne.1 h.1)

-- The slots of the first `k` misses.
slots_of-take :
    (misses part : List (ℕ × ℕ)) (k : ℕ)
    → All (λ p. slot_of misses (p.0) ≡ some (p.1)) part
    → slots_of misses (take k (map (λ p. p.0) part)) ≡ some (take k part)
unfolding slots_of
slots_of-take misses part zero h = refl
slots_of-take misses [] (suc k) h = refl
slots_of-take misses (p ∷ part) (suc k) h = rw (h.0, slots_of-take misses part k h.1) refl

pub slots_of_lem :
    (misses : List (ℕ × ℕ)) (k : ℕ)
    → Distinct (map (λ p. p.0) misses)
    → slots_of misses (take k (map (λ p. p.0) misses)) ≡ some (take k misses)
slots_of_lem misses k d = slots_of-take misses misses k (slot_of_each misses d)

-- After copies that put only `k` into `s`, one of them at least or `k` before, `s` holds `k`.
pub settle_lem :
    (held : ℕ → Option ExpertKey) (copies : List (ℕ × ExpertKey)) (s : ℕ) (k : ExpertKey)
    → All (λ p. p.0 ≡ s → p.1 ≡ k) copies
    → (held s ≡ some k) ⊎ Among (s, k) copies
    → settle held copies s ≡ some k
unfolding settle
settle_lem held [] s k only (inl e) = e
settle_lem held [] s k only (inr m) = absurd m
settle_lem held ((t, j) ∷ copies) s k only before =
    settle_lem (λ u. if u == t then some j else held u) copies s k only.1 (step before)
  where
    step :
        (held s ≡ some k) ⊎ Among (s, k) ((t, j) ∷ copies)
        → ((if s == t then some j else held s) ≡ some k) ⊎ Among (s, k) copies
    step (inr (inr m)) = inr m
    step (inr (inl e)) = inl (ground arith)
    step (inl e) = elim (Bool-cases (s == t)) [
      | inl same ↦ let at : t ≡ s = ground arith in inl (rw same (ap some (only.0 at)))
      | inr other ↦ inl (rw other e)
    ]
