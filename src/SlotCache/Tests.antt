-- ===== src/SlotCache/Tests.antt =====
-- Runs of `SlotCache`, those of the tests in ft-core/src/lib.rs among them.
use free_token_rs.Prelude.{
  ℕ, ◌+◌, ◌%◌, ◌≡◌, refl, ◌⊎◌, Option, none, some, List, [], ◌∷◌, ◌++◌, arith, map, All, length,
  get_elem?, u64_mod, ◌>>=◌,
}
use free_token_rs.SlotCache.{
  ExpertKey, SlotCache, Lookup, new, scan, take_lru_slot, touch_hits, evict, admit, admit_all,
  lookup, forget,
}
use free_token_rs.SlotCache.Ages.{AllGe}
use free_token_rs.SlotCache.Scan.{IsFull, Victim, take_lru_slot-Victim}
use free_token_rs.SlotCache.Invariant.{IsValid, new-IsValid}
use free_token_rs.SlotCache.Hits.{hits_of, missing_of}
use free_token_rs.SlotCache.Admit.{admitted, admitted-IsValid}
use free_token_rs.SlotCache.Results.{
  lookup-IsValid, lookup_serves, admit_evicts_oldest, lookup_overfull,
}
use free_token_rs.SlotCache.Forget.{forget-IsValid}

program : Unit {0}
unfolding new scan take_lru_slot touch_hits evict admit admit_all lookup forget
program = tt

-- The hits and misses of the last of a row of calls.
abbrev outcomes : SlotCache → List (ℕ × List ℕ) → Option Lookup
outcomes c [] = none
outcomes c ((layer, experts) ∷ []) = lookup c layer experts >>= λ r. some r.1
outcomes c ((layer, experts) ∷ l ∷ rest) = lookup c layer experts >>= λ r. outcomes r.0 (l ∷ rest)

cold_then_hits :
    outcomes (new 8) ((0, 3 ∷ 1 ∷ 4 ∷ []) ∷ (0, 3 ∷ 1 ∷ 4 ∷ []) ∷ [])
    ≡ some (record { hits = (3, 0) ∷ (1, 1) ∷ (4, 2) ∷ []; misses = [] })
unfolding program
cold_then_hits = refl

lru_across_layers :
    outcomes
      (new 2)
      ((0, 10 ∷ []) ∷ (1, 20 ∷ []) ∷ (0, 10 ∷ []) ∷ (2, 30 ∷ []) ∷ (0, 10 ∷ []) ∷ (1, 20 ∷ []) ∷ [])
    ≡ some (record { hits = []; misses = (20, 1) ∷ [] })
unfolding program
lru_across_layers = refl

no_slots : lookup (new 0) 0 (1 ∷ []) ≡ none
unfolding program
no_slots = refl

-- One slot, held by expert 3 of layer 0.
abbrev one : SlotCache
one = admitted (new 1) (0, 3) 0 none

one-IsValid : IsValid one
unfolding new
one-IsValid =
    admitted-IsValid (new 1) (0, 3) 0 none (new-IsValid 1 (omega arith)) refl refl (omega arith)

new-IsValid_example : IsValid (new 1862)
new-IsValid_example = new-IsValid 1862 (omega arith)

take_lru_slot-Victim_example :
    (v : ℕ) × (take_lru_slot one ≡ some v) × Victim one.slots one.last_used v
unfolding new
take_lru_slot-Victim_example =
    take_lru_slot-Victim one refl (omega arith) (omega arith) (omega arith)

lookup-IsValid_example :
    (c' : SlotCache) × (r : Lookup) × (lookup one 0 (3 ∷ 4 ∷ []) ≡ some (c', r))
    × IsValid c'
    × (r.hits ≡ hits_of one.map 0 (3 ∷ 4 ∷ []))
    × (map (λ p. p.0) r.misses ≡ missing_of one.map 0 (3 ∷ 4 ∷ []))
    × (length r.hits + length r.misses ≡ 2)
    × (c'.hits_total ≡ (one.hits_total + length r.hits) % u64_mod)
    × (c'.misses_total ≡ (one.misses_total + length r.misses) % u64_mod)
unfolding new
lookup-IsValid_example =
    lookup-IsValid one 0 (3 ∷ 4 ∷ []) one-IsValid (omega arith) (omega arith) (omega arith)

lookup_serves_example :
    (c' : SlotCache) × (r : Lookup) × (lookup (new 2) 7 (3 ∷ 1 ∷ []) ≡ some (c', r))
    × All (λ p. c'.map (7, p.0) ≡ some p.1) (r.hits ++ r.misses)
unfolding new
lookup_serves_example =
    lookup_serves (new 2) 7 (3 ∷ 1 ∷ []) (new-IsValid 2 (omega arith)) (omega arith) (omega arith)
      (omega arith) (omega arith)

admit_evicts_oldest_example :
    (◌≡◌ {A = ℕ} 0 0)
    × IsFull one.slots
    × (a : ℕ) × (get_elem? one.last_used 0 ≡ some a)
    × AllGe a one.last_used
unfolding program
admit_evicts_oldest_example =
    admit_evicts_oldest one (admitted one (0, 4) 0 (some (0, 3))) 0 4 0 (0, 3) 0 one-IsValid
      (omega arith) (omega arith) refl refl refl refl

lookup_overfull_example :
    (c' : SlotCache) × (r : Lookup) × (lookup one 0 (3 ∷ 4 ∷ []) ≡ some (c', r))
    × (r.hits ≡ (3, 0) ∷ [])
    × (r.misses ≡ (4, 0) ∷ [])
    × (c'.map (0, 3) ≡ none)
unfolding new evict
lookup_overfull_example = lookup_overfull one 0 3 4 0 one-IsValid (omega arith) refl refl refl

forget-IsValid_example :
    (c' : SlotCache) × (forget one 0 3 ≡ some c')
    × IsValid c'
    × (c'.map (0, 3) ≡ none)
    × ((j : ExpertKey) → (c'.map j ≡ one.map j) ⊎ (j ≡ (0, 3)))
    × (get_elem? c'.slots 0 ≡ some none)
    × (get_elem? c'.last_used 0 ≡ some 0)
unfolding new
forget-IsValid_example = forget-IsValid one 0 3 0 one-IsValid refl
