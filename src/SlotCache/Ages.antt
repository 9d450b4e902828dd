-- ===== src/SlotCache/Ages.antt =====
-- Bounds on the ages of the slots, and how many of them were touched at a tick.
use free_token_rs.Prelude.{
  ℕ, suc, zero, ◌+◌, ◌≤◌, ◌<◌, ◌≡◌, List, [], ◌∷◌, arith, ◌==◌, if◌then◌else◌, length, set,
  replicate,
}

abbrev pub AllGe : ℕ → List ℕ → Type 0
AllGe a [] = Unit {0}
AllGe a (u ∷ us) = (a ≤ u) × AllGe a us

abbrev pub AllGt : ℕ → List ℕ → Type 0
AllGt a [] = Unit {0}
AllGt a (u ∷ us) = (a < u) × AllGt a us

abbrev pub AllLe : ℕ → List ℕ → Type 0
AllLe a [] = Unit {0}
AllLe a (u ∷ us) = (u ≤ a) × AllLe a us

pub AllGe-mono : (a b : ℕ) (us : List ℕ) → a ≤ b → AllGe b us → AllGe a us
AllGe-mono a b [] h all = tt
AllGe-mono a b (u ∷ us) h all = (omega arith, AllGe-mono a b us h all.1)

pub AllLe-mono : (a b : ℕ) (us : List ℕ) → a ≤ b → AllLe a us → AllLe b us
AllLe-mono a b [] h all = tt
AllLe-mono a b (u ∷ us) h all = (omega arith, AllLe-mono a b us h all.1)

pub AllLe-set : (a : ℕ) (us : List ℕ) (i v : ℕ) → v ≤ a → AllLe a us → AllLe a (set us i v)
AllLe-set a [] i v h all = tt
AllLe-set a (u ∷ us) zero v h all = (h, all.1)
AllLe-set a (u ∷ us) (suc i) v h all = (all.0, AllLe-set a us i v h all.1)

pub AllLe-replicate : (a n : ℕ) → AllLe a (replicate n 0)
AllLe-replicate a zero = tt
AllLe-replicate a (suc n) = (omega arith, AllLe-replicate a n)

-- How many slots were last used at the tick.
abbrev pub touched : ℕ → List ℕ → ℕ
touched t [] = 0
touched t (u ∷ us) = (if u == t then 1 else 0) + touched t us

pub touched-fresh : (a t : ℕ) (us : List ℕ) → AllLe a us → a < t → touched t us ≡ 0
touched-fresh a t [] all h = omega arith
touched-fresh a t (u ∷ us) all h = ground (arith, touched-fresh a t us all.1 h)

pub touched-set : (t : ℕ) (us : List ℕ) (i : ℕ) → touched t (set us i t) ≤ touched t us + 1
touched-set t [] i = omega arith
touched-set t (u ∷ us) zero = ground arith
touched-set t (u ∷ us) (suc i) = ground (arith, touched-set t us i)

touched_all : (t : ℕ) (us : List ℕ) → AllGe t us → AllLe t us → touched t us ≡ length us
touched_all t [] ge le = omega arith
touched_all t (u ∷ us) ge le = ground (arith, touched_all t us ge.1 le.1)

-- If some slot was not touched at tick `t`, the least age is below `t`.
pub least-lt : (a t : ℕ) (us : List ℕ) → AllGe a us → AllLe t us → touched t us < length us → a < t
least-lt a t us ge le h =
    ground (arith, λ (l : t ≤ a). touched_all t us (AllGe-mono t a us l ge) le)
