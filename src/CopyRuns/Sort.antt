-- ===== src/CopyRuns/Sort.antt =====
-- The sort of `plan_runs`: ordered, and a rearrangement.
use mathlib.Core.List.{Perm}
use mathlib.Core.List.Perm
use free_token_rs.Prelude.{
  ℕ, ◌+◌, ◌≤◌, ◌≢◌, sym, inl, inr, List, [], ◌∷◌, map, All, Distinct, arith, leb, Bool-cases,
}
use free_token_rs.CopyRuns.{insert_by_key, sort_by_key}

-- The keys begin at `n` or later and grow by `d` at least.
abbrev pub Ascending : ℕ → ℕ → List (ℕ × ℕ) → Type 0
Ascending d n [] = Unit {0}
Ascending d n (m ∷ misses) = (n ≤ m.0) × Ascending d (m.0 + d) misses

abbrev pub keys : List (ℕ × ℕ) → List ℕ
keys = map (λ m. m.0)

insert_by_key-Perm :
    (m : ℕ × ℕ) (misses : List (ℕ × ℕ)) → Perm (insert_by_key m misses) (m ∷ misses)
unfolding insert_by_key
insert_by_key-Perm m [] = Perm.refl (m ∷ [])
insert_by_key-Perm m (m' ∷ misses) = elim (Bool-cases (leb m.0 m'.0)) [
  | inl le ↦ rw le (Perm.refl (m ∷ m' ∷ misses))
  | inr gt ↦ rw gt (Perm.trans (Perm.cons m' (insert_by_key-Perm m misses)) (Perm.swap m m' misses))
]

pub sort_by_key-Perm : (misses : List (ℕ × ℕ)) → Perm (sort_by_key misses) misses
unfolding sort_by_key
sort_by_key-Perm [] = Perm.nil
sort_by_key-Perm (m ∷ misses) =
    Perm.trans (insert_by_key-Perm m (sort_by_key misses)) (Perm.cons m (sort_by_key-Perm misses))

insert_by_key-Ascending :
    (n : ℕ) (m : ℕ × ℕ) (misses : List (ℕ × ℕ))
    → n ≤ m.0
    → Ascending 0 n misses
    → Ascending 0 n (insert_by_key m misses)
unfolding insert_by_key
insert_by_key-Ascending n m [] h a = (h, tt)
insert_by_key-Ascending n m (m' ∷ misses) h a = elim (Bool-cases (leb m.0 m'.0)) [
  | inl le ↦ rw le (h, (ground arith, a.1))
  | inr gt ↦ rw gt (a.0, insert_by_key-Ascending (m'.0 + 0) m misses (ground arith) a.1)
]

pub sort_by_key-Ascending : (misses : List (ℕ × ℕ)) → Ascending 0 0 (sort_by_key misses)
unfolding sort_by_key
sort_by_key-Ascending [] = tt
sort_by_key-Ascending (m ∷ misses) =
    insert_by_key-Ascending 0 m (sort_by_key misses) (omega arith) (sort_by_key-Ascending misses)

insert_by_key-All {ℓ} :
    (P : ℕ → Type ℓ) (m : ℕ × ℕ) (misses : List (ℕ × ℕ))
    → P m.0
    → All P (keys misses)
    → All P (keys (insert_by_key m misses))
unfolding insert_by_key
insert_by_key-All P m [] h k = (h, tt)
insert_by_key-All P m (m' ∷ misses) h k = elim (Bool-cases (leb m.0 m'.0)) [
  | inl le ↦ rw le (h, k)
  | inr gt ↦ rw gt (k.0, insert_by_key-All P m misses h k.1)
]

pub sort_by_key-All {ℓ} :
    (P : ℕ → Type ℓ) (misses : List (ℕ × ℕ))
    → All P (keys misses)
    → All P (keys (sort_by_key misses))
unfolding sort_by_key
sort_by_key-All P [] h = tt
sort_by_key-All P (m ∷ misses) h =
    insert_by_key-All P m (sort_by_key misses) h.0 (sort_by_key-All P misses h.1)

insert_by_key-Distinct :
    (m : ℕ × ℕ) (misses : List (ℕ × ℕ))
    → All (λ k. m.0 ≢ k) (keys misses)
    → Distinct (keys misses)
    → Distinct (keys (insert_by_key m misses))
unfolding insert_by_key
insert_by_key-Distinct m [] h d = (tt, tt)
insert_by_key-Distinct m (m' ∷ misses) h d = elim (Bool-cases (leb m.0 m'.0)) [
  | inl le ↦ rw le (h, d)
  | inr gt ↦ rw gt (
    insert_by_key-All (λ k. m'.0 ≢ k) m misses (λ e. h.0 (sym e)) d.0,
    insert_by_key-Distinct m misses h.1 d.1,
  )
]

sort_by_key-Distinct :
    (misses : List (ℕ × ℕ)) → Distinct (keys misses) → Distinct (keys (sort_by_key misses))
unfolding sort_by_key
sort_by_key-Distinct [] d = tt
sort_by_key-Distinct (m ∷ misses) d =
    insert_by_key-Distinct m (sort_by_key misses) (sort_by_key-All (λ k. m.0 ≢ k) misses d.0)
      (sort_by_key-Distinct misses d.1)

strictly :
    (n : ℕ) (misses : List (ℕ × ℕ))
    → Ascending 0 n misses
    → Distinct (keys misses)
    → Ascending 1 n misses
strictly n [] a d = tt
strictly n (m ∷ []) a d = (a.0, tt)
strictly n (m ∷ m' ∷ misses) a d =
    let rest = strictly (m.0 + 0) (m' ∷ misses) a.1 d.1 in
    let ne = d.0.0 in (a.0, (omega arith, rest.1))

pub sort_by_key_strict :
    (misses : List (ℕ × ℕ)) → Distinct (keys misses) → Ascending 1 0 (sort_by_key misses)
sort_by_key_strict misses d =
    strictly 0 (sort_by_key misses) (sort_by_key-Ascending misses) (sort_by_key-Distinct misses d)
