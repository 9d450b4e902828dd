-- ===== src/Dispatch.antt =====
-- How `forward_batch` of ft-model/src/lib.rs routes the experts of a sequence: to the cached slots,
-- to the host's bank, or to the CPU; and `split_misses` of ft-core/src/lib.rs.
pub mod Copies
pub mod Split
pub mod Route
pub mod Batch
mod Tests
use free_token_rs.Prelude.{
  ℕ, ◌+◌, zero, suc, Bool, true, false, ◌||◌, Option, none, some, List, [], ◌∷◌, ◌++◌, map, min,
  ◌==◌, if◌then◌else◌, length, take, drop, ◌>>=◌,
}
use free_token_rs.SlotCache.{ExpertKey, SlotCache, Lookup, lookup, forget}

-- `split_misses`: a parameter says what `(n * fraction).round() as usize` is for each `n`.
unfoldable pub split_misses : (ℕ → ℕ) → List ℕ → List ℕ × List ℕ
split_misses rounded misses =
    let k = min (rounded (length misses)) (length misses) in (take k misses, drop k misses)

-- `self.moe.cache.forget(l, e)` for each expert that the CPU computes.
unfoldable pub forget_all : SlotCache → ℕ → List ℕ → Option SlotCache
forget_all c layer [] = some c
forget_all c layer (e ∷ experts) = forget c layer e >>= λ c'. forget_all c' layer experts

-- `lk.misses.iter().find(|&&(me, _)| me == e).unwrap().1`
unfoldable pub slot_of : List (ℕ × ℕ) → ℕ → Option ℕ
slot_of [] e = none
slot_of ((me, slot) ∷ misses) e = if me == e then some slot else slot_of misses e

unfoldable pub slots_of : List (ℕ × ℕ) → List ℕ → Option (List (ℕ × ℕ))
slots_of misses [] = some []
slots_of misses (e ∷ experts) =
    slot_of misses e >>= λ slot. slots_of misses experts >>= λ rest. some ((e, slot) ∷ rest)

-- `fetch_set.contains(&e)`
unfoldable pub contains : List ℕ → ℕ → Bool
contains [] e = false
contains (x ∷ xs) e = (x == e) || contains xs e

-- Where a pair reads the weights of its expert: in the host's bank, or in a slot of the cache.
pub data Base : Type 0 where
  host : ExpertKey → Base
  vram : ℕ → Base

-- A pair that the GPU computes, of a sequence and an expert. Its router weight is a float.
pub record Pair : Type 0 where
  pub seq : ℕ
  pub expert : ℕ
  pub base : Base

unfoldable pub pair_for : ℕ → ℕ → List ℕ → ℕ × ℕ → Pair
pair_for layer i fetch_set (e, cslot) = record {
  seq = i;
  expert = e;
  base = if contains fetch_set e then host (layer, e) else vram cslot;
}

-- What one sequence adds: the cache, the copies from the bank into slots, the pairs for the GPU,
-- and the experts that the CPU computes.
pub record Routed : Type 0 where
  pub cache : SlotCache
  pub copies : List (ℕ × ExpertKey)
  pub pairs : List Pair
  pub cpu : List ℕ

-- The rest of the body of the loop, after `lookup`.
unfoldable pub route_with : ℕ → ℕ → SlotCache → Lookup → List ℕ × List ℕ → Option Routed
route_with layer i c lk (fetch_ids, cpu_ids) = forget_all c layer cpu_ids >>= λ c'.
    slots_of lk.misses fetch_ids >>= λ fetched. some (record {
      cache = c';
      copies = map (λ p. (p.1, (layer, p.0))) fetched;
      pairs = map (pair_for layer i fetch_ids) (lk.hits ++ fetched);
      cpu = cpu_ids;
    })

unfoldable pub route_seq : (ℕ → ℕ) → ℕ → ℕ → List ℕ → SlotCache → Option Routed
route_seq rounded layer i ids c = lookup c layer ids >>= λ r.
    route_with layer i (r.0) (r.1) (split_misses rounded (map (λ p. p.0) (r.1).misses))

-- The loop over the sequences of the batch.
unfoldable pub route_batch :
    (ℕ → ℕ) → ℕ → ℕ → List (List ℕ) → SlotCache → Option (SlotCache × List Routed)
route_batch rounded layer i [] c = some (c, [])
route_batch rounded layer i (ids ∷ all_ids) c = route_seq rounded layer i ids c >>= λ r.
    route_batch rounded layer (i + 1) all_ids r.cache >>= λ rest. some (rest.0, r ∷ rest.1)

-- What the slots of the cache hold once the copies are done, in their order.
unfoldable pub settle : (ℕ → Option ExpertKey) → List (ℕ × ExpertKey) → ℕ → Option ExpertKey
settle held [] s = held s
settle held ((t, k) ∷ copies) s = settle (λ u. if u == t then some k else held u) copies s
