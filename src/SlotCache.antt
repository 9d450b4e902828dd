-- ===== src/SlotCache.antt =====
-- `SlotCache` of ft-core/src/lib.rs: the cache that maps (layer, expert) to a GPU slot and evicts
-- the least recently used one. A call that may panic returns an `Option`. The hash map is a
-- function from keys; a slot without a key is free.
pub mod Ages
pub mod Scan
pub mod Invariant
pub mod Admit
pub mod Hits
pub mod Misses
pub mod Serve
pub mod Results
pub mod Forget
mod Tests
use free_token_rs.Prelude.{
  ℕ, zero, suc, ◌+◌, ◌-◌, ◌%◌, Bool, ◌&&◌, Option, none, some, List, [], ◌∷◌, ltb, ◌==◌,
  if◌then◌else◌, length, get_elem?, replicate, store, ◌>>=◌, u32_mod, u64_mod,
}

abbrev pub ExpertKey : Type 0
ExpertKey = ℕ × ℕ

abbrev pub key_eq : ExpertKey → ExpertKey → Bool
key_eq k j = (k.0 == j.0) && (k.1 == j.1)

abbrev pub Slots : Type 0
Slots = List (Option ExpertKey)

-- `HashMap<ExpertKey, u32>`, with its `insert` and `remove`.
abbrev pub SlotMap : Type 0
SlotMap = ExpertKey → Option ℕ

abbrev pub insert : SlotMap → ExpertKey → ℕ → SlotMap
insert m k s j = if key_eq k j then some s else m j

abbrev pub remove : SlotMap → ExpertKey → SlotMap
remove m k j = if key_eq k j then none else m j

pub record SlotCache : Type 0 where
  pub capacity : ℕ
  pub map : SlotMap
  pub slots : Slots
  pub last_used : List ℕ
  pub tick : ℕ
  pub hits_total : ℕ
  pub misses_total : ℕ

pub record Lookup : Type 0 where
  pub hits : List (ℕ × ℕ)
  pub misses : List (ℕ × ℕ)

unfoldable pub new : ℕ → SlotCache
new capacity = record {
  capacity = capacity;
  map = λ _. none;
  slots = replicate capacity none;
  last_used = replicate capacity 0;
  tick = 0;
  hits_total = 0;
  misses_total = 0;
}

-- The loop of `take_lru_slot` from index `i` on.
unfoldable pub scan : Slots → List ℕ → ℕ → ℕ → ℕ → Option ℕ
scan [] ages i best best_age = some (best % u32_mod)
scan (none ∷ slots) ages i best best_age = some (i % u32_mod)
scan (some k ∷ slots) [] i best best_age = none
scan (some k ∷ slots) (age ∷ ages) i best best_age =
    scan slots ages (i + 1) (if ltb age best_age then i else best)
      (if ltb age best_age then age else best_age)

unfoldable pub take_lru_slot : SlotCache → Option ℕ
take_lru_slot c = scan c.slots c.last_used 0 0 (u64_mod - 1)

-- The first loop of `lookup`: the cache with its hits touched, the hits, and the missing experts.
unfoldable pub touch_hits : SlotCache → ℕ → List ℕ → Option (SlotCache × List (ℕ × ℕ) × List ℕ)
touch_hits c layer [] = some (c, [], [])
touch_hits c layer (e ∷ experts) = elim (c.map (layer, e)) [
  | some slot ↦ do
    ages ← store c.last_used slot c.tick
    (c', hits, missing) ← touch_hits (record c { last_used = ages }) layer experts
    some (c', (e, slot) ∷ hits, missing)
  | none ↦ do (c', hits, missing) ← touch_hits c layer experts; some (c', hits, e ∷ missing)
]

-- `if let Some(old) = slots[slot].take() { map.remove(&old) }`
unfoldable pub evict : SlotMap → Option ExpertKey → SlotMap
evict m none = m
evict m (some old) = remove m old

-- The body of the second loop of `lookup`: one missing expert takes the least recently used slot.
unfoldable pub admit : SlotCache → ℕ → ℕ → Option (SlotCache × ℕ)
admit c layer e = do
  slot ← take_lru_slot c
  occupant ← get_elem? c.slots slot
  slots ← store c.slots slot (some (layer, e))
  ages ← store c.last_used slot c.tick
  let map = insert (evict c.map occupant) (layer, e) slot
  some (record c { map = map; slots = slots; last_used = ages }, slot)

unfoldable pub admit_all : SlotCache → ℕ → List ℕ → Option (SlotCache × List (ℕ × ℕ))
admit_all c layer [] = some (c, [])
admit_all c layer (e ∷ missing) = do
  (c', slot) ← admit c layer e
  (c'', misses) ← admit_all c' layer missing
  some (c'', (e, slot) ∷ misses)

unfoldable pub lookup : SlotCache → ℕ → List ℕ → Option (SlotCache × Lookup)
lookup c layer experts = do
  (c', hits, missing) ← touch_hits (record c { tick = (c.tick + 1) % u64_mod }) layer experts
  (c'', misses) ← admit_all c' layer missing
  let hits_total = (c''.hits_total + length hits) % u64_mod
  let misses_total = (c''.misses_total + length misses) % u64_mod
  some (
    record c'' { hits_total = hits_total; misses_total = misses_total },
    record { hits = hits; misses = misses },
  )

unfoldable pub forget : SlotCache → ℕ → ℕ → Option SlotCache
forget c layer expert = elim (c.map (layer, expert)) [
  | none ↦ some c
  | some slot ↦ do
    slots ← store c.slots slot none
    ages ← store c.last_used slot 0
    some (record c { map = remove c.map (layer, expert); slots = slots; last_used = ages })
]
