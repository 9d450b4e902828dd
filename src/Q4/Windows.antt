-- ===== src/Q4/Windows.antt =====
-- Parts of a row, and writes into others.
use free_token_rs.Prelude.{
  ℕ, zero, suc, ◌+◌, ◌≤◌, ◌<◌, ◌≡◌, refl, ap, ◌∙◌, inl, inr, ◌⊎◌, some, List, [], ◌∷◌, ◌++◌, arith,
  length, get_elem?, get_elem?-total, Option-cases,
}
use free_token_rs.Q4.{window, overwrite}

module _ {A : Type 0} where
  pub window_total :
      (xs : List A) (at n : ℕ)
      → at + n ≤ length xs
      → (l : List A) × (window xs at n ≡ some l) × (length l ≡ n)
  unfolding window
  window_total xs at zero h = ([], ground arith, refl)
  window_total xs at (suc n) h =
      let (x, e) = get_elem?-total xs at (omega arith) in
      let (l, is, len) = window_total xs (suc at) n (omega arith) in
      (x ∷ l, rw (e, is) refl, omega arith)

  window-cons : (x : A) (xs : List A) (at n : ℕ) → window (x ∷ xs) (suc at) n ≡ window xs at n
  unfolding window
  window-cons x xs at zero = ground arith
  window-cons x xs at (suc n) = elim (Option-cases (get_elem? xs at)) [
    | inl beyond ↦ rw beyond refl
    | inr (y, there) ↦ rw (there, window-cons x xs (suc at) n) refl
  ]

  -- A window behind a list, and that list.
  pub window-behind :
      (pre xs : List A) (at n : ℕ) → window (pre ++ xs) (length pre + at) n ≡ window xs at n
  window-behind [] xs at n = ap (λ i. window xs i n) (omega arith)
  window-behind (x ∷ pre) xs at n =
      ap (λ i. window (x ∷ pre ++ xs) i n) (omega arith)
      ∙ window-cons x (pre ++ xs) (length pre + at) n
      ∙ window-behind pre xs at n

  pub window-front : (xs rest : List A) → window (xs ++ rest) 0 (length xs) ≡ some xs
  unfolding window
  window-front [] rest = ground arith
  window-front (x ∷ xs) rest =
      rw (window-cons x (xs ++ rest) 0 (length xs), window-front xs rest) refl

pub length-overwrite :
    (xs : List ℕ) (at : ℕ) (new : List ℕ) → length (overwrite xs at new) ≡ length xs
unfolding overwrite
length-overwrite [] at new = refl
length-overwrite (x ∷ xs) (suc at) new = ap suc (length-overwrite xs at new)
length-overwrite (x ∷ xs) zero [] = refl
length-overwrite (x ∷ xs) zero (y ∷ new) = ap suc (length-overwrite xs zero new)

get-overwrite_before :
    (xs : List ℕ) (at : ℕ) (new : List ℕ) (i : ℕ)
    → i < at
    → get_elem? (overwrite xs at new) i ≡ get_elem? xs i
unfolding overwrite
get-overwrite_before xs zero new i h = absurd (omega arith)
get-overwrite_before [] (suc at) new i h = refl
get-overwrite_before (x ∷ xs) (suc at) new zero h = refl
get-overwrite_before (x ∷ xs) (suc at) new (suc i) h =
    get-overwrite_before xs at new i (omega arith)

get-overwrite_after :
    (xs : List ℕ) (at : ℕ) (new : List ℕ) (i : ℕ)
    → at + length new ≤ i
    → get_elem? (overwrite xs at new) i ≡ get_elem? xs i
unfolding overwrite
get-overwrite_after [] at new i h = refl
get-overwrite_after (x ∷ xs) (suc at) new zero h = absurd (omega arith)
get-overwrite_after (x ∷ xs) (suc at) new (suc i) h = get-overwrite_after xs at new i (omega arith)
get-overwrite_after (x ∷ xs) zero [] i h = refl
get-overwrite_after (x ∷ xs) zero (y ∷ new) zero h = absurd (omega arith)
get-overwrite_after (x ∷ xs) zero (y ∷ new) (suc i) h =
    get-overwrite_after xs zero new i (omega arith)

get-overwrite_other :
    (xs : List ℕ) (at : ℕ) (new : List ℕ) (i : ℕ)
    → (i < at) ⊎ (at + length new ≤ i)
    → get_elem? (overwrite xs at new) i ≡ get_elem? xs i
get-overwrite_other xs at new i (inl before) = get-overwrite_before xs at new i before
get-overwrite_other xs at new i (inr after) = get-overwrite_after xs at new i after

-- A window of what was written is what was written.
pub window-overwrite :
    (xs : List ℕ) (at : ℕ) (new : List ℕ)
    → at + length new ≤ length xs
    → window (overwrite xs at new) at (length new) ≡ some new
unfolding window overwrite
window-overwrite [] at [] h = ground arith
window-overwrite [] at (y ∷ new) h = absurd (omega arith)
window-overwrite (x ∷ xs) (suc at) new h =
    window-cons x (overwrite xs at new) at (length new) ∙ window-overwrite xs at new (omega arith)
window-overwrite (x ∷ xs) zero [] h = ground arith
window-overwrite (x ∷ xs) zero (y ∷ new) h =
    rw
      (
        window-cons y (overwrite xs zero new) 0 (length new),
        window-overwrite xs zero new (omega arith),
      )
      refl

-- A window that a write does not touch is as before.
pub window-overwrite_other :
    (xs : List ℕ) (at : ℕ) (new : List ℕ) (from n : ℕ)
    → (from + n ≤ at) ⊎ (at + length new ≤ from)
    → window (overwrite xs at new) from n ≡ window xs from n
unfolding window
window-overwrite_other xs at new from zero apart = rw (length-overwrite xs at new) refl
window-overwrite_other xs at new from (suc n) apart =
    rw
      (
        get-overwrite_other xs at new from (omega arith),
        window-overwrite_other xs at new (suc from) n (omega arith),
      )
      refl
