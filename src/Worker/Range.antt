-- ===== src/Worker/Range.antt =====
-- The numbers of the slots: what a rearrangement of them keeps.
use mathlib.Core.Logic.Or
use mathlib.Core.List.Perm
use mathlib.Core.List.{
  Mem, Nodup, Pairwise, Perm, not-mem-nil, mem-cons_self, mem-cons_of_mem, eq-or-mem_of_mem-cons,
}
use native.Mathlib.Decide.{dec_lt}
use free_token_rs.Prelude.{
  ℕ, zero, suc, ◌+◌, ◌≤◌, ◌<◌, ◌≢◌, ◌⊎◌, inl, inr, List, [], ◌∷◌, ◌++◌, arith, All, All-left,
  Distinct,
}
use free_token_rs.Worker.{upto}

All-of_mem {ℓ κ} : {A : Type ℓ} (P : A → Type κ) (l : List A) → ((x : A) → Mem x l → P x) → All P l
All-of_mem P [] h = tt
All-of_mem P (x ∷ l) h = (h x mem-cons_self, All-of_mem P l (λ y m. h y (mem-cons_of_mem x m)))

not_in_upto : (x k n : ℕ) → (x < k) ⊎ (k + n ≤ x) → ¬ Mem x (upto k n)
unfolding upto
not_in_upto x k zero out m = not-mem-nil m
not_in_upto x k (suc n) out m =
    Or.elim (λ x y. absurd x) (eq-or-mem_of_mem-cons m) (λ e. ground arith)
      (not_in_upto x (k + 1) n (ground arith))

upto-Nodup : (k n : ℕ) → Nodup (upto k n)
unfolding upto
upto-Nodup k zero = Pairwise.nil
upto-Nodup k (suc n) =
    Pairwise.cons (λ x m e. not_in_upto x (k + 1) n (inl (omega arith)) m) (upto-Nodup (k + 1) n)

Distinct-of_Nodup : (l : List ℕ) → Nodup l → Distinct l
Distinct-of_Nodup [] n = tt
Distinct-of_Nodup (x ∷ l) (Pairwise.cons h n) = (All-of_mem (λ y. x ≢ y) l h, Distinct-of_Nodup l n)

-- A rearrangement of the numbers below `n`.
pub dealt-Distinct : (l : List ℕ) (n : ℕ) → Perm l (upto 0 n) → Distinct l
dealt-Distinct l n p = Distinct-of_Nodup l (Perm.nodup (Perm.symm p) (upto-Nodup 0 n))

pub dealt-All : (l : List ℕ) (n : ℕ) → Perm l (upto 0 n) → All (λ x. x < n) l
dealt-All l n p =
    All-of_mem (λ x. x < n) l
      λ x m. elim (dec_lt x n) [
        | yes lt ↦ lt
        | no ge ↦ absurd (not_in_upto x 0 n (inr (omega arith)) ((Perm.mem_iff p).0 m))
      ]

pub Distinct-left : (xs ys : List ℕ) → Distinct (xs ++ ys) → Distinct xs
Distinct-left [] ys d = tt
Distinct-left (x ∷ xs) ys d = (All-left (λ y. x ≢ y) xs ys d.0, Distinct-left xs ys d.1)
