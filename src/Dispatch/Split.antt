-- ===== src/Dispatch/Split.antt =====
-- The parts of a step: what is fetched, what the CPU computes, and what forgetting leaves mapped.
use free_token_rs.Prelude.{
  ℕ, zero, suc, ◌≡◌, ◌≢◌, refl, sym, ap, ◌∙◌, inl, inr, true, false, some, List, [], ◌∷◌, map,
  arith, Option-cases, All, Among, take, drop,
}
use free_token_rs.SlotCache.{ExpertKey, SlotCache, forget}
use free_token_rs.SlotCache.Misses.{keyed}
use free_token_rs.SlotCache.Invariant.{IsValid}
use free_token_rs.SlotCache.Forget.{forget-IsValid, forget_absent, forget-eq-some}
use free_token_rs.Dispatch.{forget_all, contains}

-- A key that is mapped after the experts were forgotten was mapped before, and is none of them.
pub forget_all_lem :
    (c : SlotCache) (layer : ℕ) (experts : List ℕ)
    → IsValid c
    → (c' : SlotCache) × (forget_all c layer experts ≡ some c')
      × IsValid c'
      × (c'.tick ≡ c.tick)
      × (c'.capacity ≡ c.capacity)
      × ((k : ExpertKey) (s : ℕ)
          → c'.map k ≡ some s
          → (c.map k ≡ some s) × All (λ e. k ≢ (layer, e)) experts)
unfolding forget_all
forget_all_lem c layer [] h = (c, refl, h, refl, refl, λ k s was. (was, tt))
forget_all_lem c layer (e ∷ experts) h =
    let (c1, run, valid, tick, size, old) = first in
    let (c', rest, valid', tick', size', kept) = forget_all_lem c1 layer experts valid in
    (
      c',
      rw (run, rest) refl,
      valid',
      tick' ∙ tick,
      size' ∙ size,
      λ k s now.
          let (before, none_of) = kept k s now in
          let (was, other) = old k s before in (was, (other, none_of)),
    )
  where
    first :
        (c1 : SlotCache) × (forget c layer e ≡ some c1)
        × IsValid c1
        × (c1.tick ≡ c.tick)
        × (c1.capacity ≡ c.capacity)
        × ((k : ExpertKey) (s : ℕ) → c1.map k ≡ some s → (c.map k ≡ some s) × (k ≢ (layer, e)))
    first = elim (Option-cases (c.map (layer, e))) [
      | inl miss ↦ (
        c,
        forget_absent c layer e miss,
        h,
        refl,
        refl,
        λ k s was. (was, λ eq. ground (arith, ap c.map eq)),
      )
      | inr (t, hit) ↦
          let (c1, run, valid, gone, others, _, _) = forget-IsValid c layer e t h hit in
          (
            c1,
            run,
            valid,
            (forget-eq-some c c1 layer e t h hit run).0,
            (forget-eq-some c c1 layer e t h hit run).1,
            λ k s now.
                let other : k ≢ (layer, e) = λ eq. ground (arith, ap c1.map eq) in
                elim (others k) [ inl same ↦ (sym same ∙ now, other) | inr eq ↦ absurd (other eq) ],
          )
    ]

pub map-take {ℓ κ} :
    {A : Type ℓ} {B : Type κ} (f : A → B) (n : ℕ) (xs : List A)
    → map f (take n xs) ≡ take n (map f xs)
map-take f zero xs = refl
map-take f (suc n) [] = refl
map-take f (suc n) (x ∷ xs) = ap (◌∷◌ (f x)) (map-take f n xs)

pub All-take {ℓ κ} :
    {A : Type ℓ} (P : A → Type κ) (n : ℕ) (xs : List A) → All P xs → All P (take n xs)
All-take P zero xs h = tt
All-take P (suc n) [] h = tt
All-take P (suc n) (x ∷ xs) h = (h.0, All-take P n xs h.1)

-- What stands in a list of misses by their keys is copied, or is an expert that is not fetched.
pub keyed-cases :
    (layer n : ℕ) (misses : List (ℕ × ℕ)) (k : ExpertKey) (s : ℕ)
    → All (λ e. k ≢ (layer, e)) (drop n (map (λ p. p.0) misses))
    → Among {A = ExpertKey × ℕ} (k, s) (keyed layer misses)
    → Among {A = ℕ × ExpertKey} (s, k) (map (λ p. (p.1, (layer, p.0))) (take n misses))
keyed-cases layer n [] k s other m = absurd m
keyed-cases layer zero (p ∷ misses) k s other (inl e) = absurd (other.0 (ap (λ x. x.0) e))
keyed-cases layer zero (p ∷ misses) k s other (inr m) =
    absurd (keyed-cases layer zero misses k s other.1 m)
keyed-cases layer (suc n) (p ∷ misses) k s other (inl e) = inl (ap (λ x. (x.1, x.0)) e)
keyed-cases layer (suc n) (p ∷ misses) k s other (inr m) =
    inr (keyed-cases layer n misses k s other m)

-- `contains` holds of each element, and of nothing else.
pub contains-each : (xs : List ℕ) → All (λ e. contains xs e ≡ true) xs
unfolding contains
contains-each [] = tt
contains-each (x ∷ xs) = (self x xs, later xs (contains-each xs))
  where
    self : (x : ℕ) (xs : List ℕ) → contains (x ∷ xs) x ≡ true
    self x xs = ground arith

    later :
        (ys : List ℕ)
        → All (λ e. contains xs e ≡ true) ys
        → All (λ e. contains (x ∷ xs) e ≡ true) ys
    later [] h = tt
    later (y ∷ ys) h = (ground (arith, h.0), later ys h.1)

pub contains_ne : (xs : List ℕ) (e : ℕ) → All (λ x. x ≢ e) xs → contains xs e ≡ false
unfolding contains
contains_ne [] e h = refl
contains_ne (x ∷ xs) e h = ground (arith, h.0, contains_ne xs e h.1)
