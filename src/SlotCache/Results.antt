-- ===== src/SlotCache/Results.antt =====
-- What `lookup` and its evictions promise.
use mathlib.Core.Option.{some-injective}
use native.Mathlib.Decide.{ℕ_discrete}
use free_token_rs.Prelude.{
  ℕ, ◌+◌, ◌%◌, ◌≤◌, ◌<◌, ◌≡◌, ◌≢◌, refl, sym, subst, ◌∙◌, ap, Option, none, some, List, [], ◌∷◌,
  ◌++◌, arith, map, All, All-imp, Distinct, length, length-map, get_elem?, get_elem?-lt, u64_mod,
}
use free_token_rs.SlotCache.{
  ExpertKey, SlotMap, SlotCache, Lookup, admit, admit_all, lookup, insert, evict,
}
use free_token_rs.SlotCache.Ages.{AllGe}
use free_token_rs.SlotCache.Scan.{IsFull, Victim, free, oldest}
use free_token_rs.SlotCache.Invariant.{IsValid, evict_ne, insert_ne, remove_self}
use free_token_rs.SlotCache.Hits.{hits_of, missing_of, length-hits_of, split_pair, touch_hits_lem}
use free_token_rs.SlotCache.Admit.{admitted, admit_lem}
use free_token_rs.SlotCache.Serve.{lookup-Looked, next_tick, hit_cache, hit_cache-IsValid, slot-lt}

-- A `lookup` of distinct experts, on a valid cache with at least one slot and a clock that does
-- not wrap, does not panic and leaves a valid cache. Its hits are the experts that the map held,
-- with their slots, its misses are the other experts, both in the order of the call, and the two
-- totals grow by their numbers.
pub lookup-IsValid :
    (c : SlotCache) (layer : ℕ) (experts : List ℕ)
    → IsValid c
    → c.tick + 1 < u64_mod
    → 0 < c.capacity
    → Distinct experts
    → (c' : SlotCache) × (r : Lookup) × (lookup c layer experts ≡ some (c', r))
      × IsValid c'
      × (r.hits ≡ hits_of c.map layer experts)
      × (map (λ p. p.0) r.misses ≡ missing_of c.map layer experts)
      × (length r.hits + length r.misses ≡ length experts)
      × (c'.hits_total ≡ (c.hits_total + length r.hits) % u64_mod)
      × (c'.misses_total ≡ (c.misses_total + length r.misses) % u64_mod)
lookup-IsValid c layer experts h small pos d =
    let (c', r, run, l) = lookup-Looked c layer experts h small pos d in
    let n-misses = ap length l.misses in
    let n-hits = ap length l.hits in
    (
      c',
      r,
      run,
      l.valid,
      l.hits,
      l.misses,
      omega (arith, length-hits_of c.map layer experts, length-map r.misses (λ p. p.0)),
      l.counted.0,
      l.counted.1,
    )

-- If the step's experts fit the cache, each of them is mapped afterwards to the slot that the
-- call reported for it: no miss takes the slot of a hit or of another miss of the step.
pub lookup_serves :
    (c : SlotCache) (layer : ℕ) (experts : List ℕ)
    → IsValid c
    → c.tick + 1 < u64_mod
    → 0 < c.capacity
    → Distinct experts
    → length experts ≤ c.capacity
    → (c' : SlotCache) × (r : Lookup) × (lookup c layer experts ≡ some (c', r))
      × All (λ p. c'.map (layer, p.0) ≡ some p.1) (r.hits ++ r.misses)
lookup_serves c layer experts h small pos d room =
    let (c', r, run, l) = lookup-Looked c layer experts h small pos d in
    (c', r, run, All-imp _ _ (r.hits ++ r.misses) (λ p s. s.0) (l.served room))

Victim-resident :
    (c : SlotCache) (v : ℕ) (k : ExpertKey)
    → Victim c.slots c.last_used v
    → get_elem? c.slots v ≡ some (some k)
    → IsFull c.slots × (a : ℕ) × (get_elem? c.last_used v ≡ some a) × AllGe a c.last_used
Victim-resident c v k (free at _) e = absurd (ground arith)
Victim-resident c v k (oldest a full at gt ge) e = (full, a, at, ge)

-- A resident that is not in the victim's slot keeps its slot.
admitted_keeps :
    (c : SlotCache) (k j : ExpertKey) (v s : ℕ) (o : Option ExpertKey)
    → IsValid c
    → c.map k ≡ none
    → get_elem? c.slots v ≡ some o
    → c.map j ≡ some s
    → v ≢ s
    → (admitted c k v o).map j ≡ some s
admitted_keeps c k j v s o h fresh at_v was other =
    let k-ne : k ≢ j = λ eq. ground (arith, ap c.map eq) in
    let o-ne : o ≢ some j =
      λ eq. other (some-injective v s (sym (h.held j v (at_v ∙ ap some eq)) ∙ was)) in
    insert_ne (evict c.map o) k v k-ne ∙ evict_ne c.map o j o-ne ∙ was

-- An admission that takes away a resident's slot found no slot free, and no slot was touched
-- earlier than the one it took.
pub admit_evicts_oldest :
    (c c' : SlotCache) (layer e v : ℕ) (j : ExpertKey) (s : ℕ)
    → IsValid c
    → 0 < c.capacity
    → c.tick < u64_mod
    → c.map (layer, e) ≡ none
    → admit c layer e ≡ some (c', v)
    → c.map j ≡ some s
    → c'.map j ≡ none
    → (s ≡ v) × IsFull c.slots × (a : ℕ) × (get_elem? c.last_used s ≡ some a) × AllGe a c.last_used
admit_evicts_oldest c c' layer e v j s h pos small fresh run was gone =
    let (v', o, run', at_v, v-lt, victim) = admit_lem c layer e h pos small in
    let same = some-injective (admitted c (layer, e) v' o, v') (c', v) (sym run' ∙ run) in
    let gone' : (admitted c (layer, e) v' o).map j ≡ none = ap (λ p. p.0.map j) same ∙ gone in
    let taken : v' ≡ s = elim (ℕ_discrete v' s) [
      | yes eq ↦ eq
      | no other ↦
          absurd (ground (arith, admitted_keeps c (layer, e) j v' s o h fresh at_v was other))
    ] in
    let at_s = subst (λ x. get_elem? c.slots x ≡ some (some j)) (sym taken) (h.mapped j s was) in
    let (full, a, age, ge) = Victim-resident c v' j victim at_s in
    (
      sym taken ∙ ap (λ p. p.1) same,
      full,
      a,
      subst (λ x. get_elem? c.last_used x ≡ some a) taken age,
      ge,
    )

key-ne : (m : SlotMap) (k j : ExpertKey) (s : ℕ) → m k ≡ some s → m j ≡ none → j ≢ k
key-ne m k j s was fresh eq = ground (arith, ap m eq)

evicted_gone :
    (m : SlotMap) (k j : ExpertKey) (v : ℕ) → k ≢ j → insert (evict m (some j)) k v j ≡ none
unfolding evict
evicted_gone m k j v other = insert_ne (evict m (some j)) k v other ∙ remove_self m j

-- The code's comment says that a hit of a step is never evicted by a miss of the step. With one
-- slot it is: the miss takes the slot of the hit, and the call reports that slot for both.
pub lookup_overfull :
    (c : SlotCache) (layer e e' s : ℕ)
    → IsValid c
    → c.tick + 1 < u64_mod
    → c.capacity ≡ 1
    → c.map (layer, e) ≡ some s
    → c.map (layer, e') ≡ none
    → (c' : SlotCache) × (r : Lookup) × (lookup c layer (e ∷ e' ∷ []) ≡ some (c', r))
      × (r.hits ≡ (e, s) ∷ [])
      × (r.misses ≡ (e', s) ∷ [])
      × (c'.map (layer, e) ≡ none)
unfolding lookup admit_all
lookup_overfull c layer e e' s h small one was fresh =
    let experts = e ∷ e' ∷ [] in
    let (hits, missing) = split_pair c.map layer e e' s was fresh in
    let valid = hit_cache-IsValid c layer experts h small in
    let first = touch_hits_lem (next_tick c) layer experts (slot-lt c h) in
    let (v, o, run, at_v, v-lt, _) =
      admit_lem (hit_cache c layer experts) layer e' valid (omega arith) (omega arith) in
    let at_s = h.mapped (layer, e) s was in
    let v-eq-s : v ≡ s = omega (arith, get_elem?-lt c.slots s at_s, h.slots_length) in
    let o-eq : o ≡ some (layer, e) =
      some-injective o (some (layer, e)) (sym at_v ∙ ap (get_elem? c.slots) v-eq-s ∙ at_s) in
    let other : (layer, e') ≢ (layer, e) = key-ne c.map (layer, e) (layer, e') s was fresh in
    let c' = admitted (hit_cache c layer experts) (layer, e') v o in
    (
      record c' {
        hits_total = (c.hits_total + length (hits_of c.map layer experts)) % u64_mod;
        misses_total = (c.misses_total + 1) % u64_mod;
      },
      record { hits = hits_of c.map layer experts; misses = (e', v) ∷ [] },
      rw (first, missing, run) refl,
      hits,
      ap (λ x. (e', x) ∷ []) v-eq-s,
      subst (λ x. insert (evict c.map x) (layer, e') v (layer, e) ≡ none) (sym o-eq)
          (evicted_gone c.map (layer, e') (layer, e) v other),
    )
