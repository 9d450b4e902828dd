-- ===== src/SlotCache/Serve.antt =====
-- The laws of `lookup`.
use free_token_rs.Prelude.{
  ℕ, ◌+◌, ◌%◌, ◌≤◌, ◌<◌, ◌≡◌, refl, ◌∙◌, ap, some, List, ◌++◌, arith, map, All-imp, All-append,
  All-zip, Distinct, length, get_elem?-lt, Among, ◌⊎◌, u64_mod,
}
use free_token_rs.SlotCache.{ExpertKey, SlotCache, Lookup, lookup}
use free_token_rs.SlotCache.Ages.{AllLe-mono, touched, touched-fresh}
use free_token_rs.SlotCache.Invariant.{IsValid}
use free_token_rs.SlotCache.Hits.{
  hits_of, missing_of, touch, length-touch, touch-AllLe, touched-touch, touch_each, length-hits_of,
  hits_of-mapped, missing_of-unmapped, missing_of-Distinct, touch_hits_lem,
}
use free_token_rs.SlotCache.Misses.{Served, keyed, admit_all-Admitted}

abbrev pub next_tick : SlotCache → SlotCache
next_tick c = record c { tick = (c.tick + 1) % u64_mod }

-- The cache after the first loop.
abbrev pub hit_cache : SlotCache → ℕ → List ℕ → SlotCache
hit_cache c layer experts = record (next_tick c) {
  last_used = touch (next_tick c).tick c.last_used (hits_of c.map layer experts);
}

pub slot-lt :
    (c : SlotCache)
    → IsValid c
    → (k : ExpertKey) (s : ℕ) → c.map k ≡ some s
    → s < length c.last_used
slot-lt c h k s was =
    omega (arith, h.slots_length, h.ages_length, get_elem?-lt c.slots s (h.mapped k s was))

module _ (c : SlotCache) (layer : ℕ) (experts : List ℕ) (h : IsValid c)
    (small : c.tick + 1 < u64_mod) where
  pub hit_cache-IsValid : IsValid (hit_cache c layer experts)
  hit_cache-IsValid = record {
    slots_length = h.slots_length;
    ages_length = length-touch _ c.last_used (hits_of c.map layer experts) ∙ h.ages_length;
    counted = h.counted;
    aged =
        touch-AllLe _ c.last_used (hits_of c.map layer experts)
          (AllLe-mono c.tick _ c.last_used (omega arith) h.aged);
    mapped = h.mapped;
    held = h.held;
  }

  hit_cache-Served : Served (hit_cache c layer experts) layer (hits_of c.map layer experts)
  hit_cache-Served =
      let hits = hits_of c.map layer experts in
      let held = hits_of-mapped c.map layer experts in
      All-zip _ _ hits held (
        touch_each (next_tick c).tick c.last_used hits
          (All-imp _ _ hits (λ p was. slot-lt c h (layer, p.0) p.1 was) held))

  hit_cache-touched :
      touched (hit_cache c layer experts).tick (hit_cache c layer experts).last_used
      ≤ length (hits_of c.map layer experts)
  hit_cache-touched = omega (
    arith,
    touched-touch (next_tick c).tick c.last_used (hits_of c.map layer experts),
    touched-fresh c.tick (next_tick c).tick c.last_used h.aged (omega arith),
  )

-- What one call leaves.
pub record Looked (c : SlotCache) (layer : ℕ) (experts : List ℕ) (c' : SlotCache) (r : Lookup)
    : Type 0 where
  pub valid : IsValid c'
  pub hits : r.hits ≡ hits_of c.map layer experts
  pub misses : map (λ p. p.0) r.misses ≡ missing_of c.map layer experts
  pub ticked : c'.tick ≡ c.tick + 1
  pub sized : c'.capacity ≡ c.capacity
  pub counted :
      (c'.hits_total ≡ (c.hits_total + length r.hits) % u64_mod)
      × (c'.misses_total ≡ (c.misses_total + length r.misses) % u64_mod)
  pub served : length experts ≤ c.capacity → Served c' layer (r.hits ++ r.misses)
  pub kept :
      (k : ExpertKey) (s : ℕ)
      → c'.map k ≡ some s
      → (c.map k ≡ some s) ⊎ Among (k, s) (keyed layer r.misses)

pub lookup-Looked :
    (c : SlotCache) (layer : ℕ) (experts : List ℕ)
    → IsValid c
    → c.tick + 1 < u64_mod
    → 0 < c.capacity
    → Distinct experts
    → (c' : SlotCache) × (r : Lookup) × (lookup c layer experts ≡ some (c', r))
      × Looked c layer experts c' r
unfolding lookup
lookup-Looked c layer experts h small pos d =
    let first = touch_hits_lem (next_tick c) layer experts (slot-lt c h) in
    let missing = missing_of c.map layer experts in
    let (c', misses, a) =
      admit_all-Admitted (hit_cache c layer experts) layer missing
        (hit_cache-IsValid c layer experts h small) pos (omega arith)
        (missing_of-Distinct c.map layer experts d) (missing_of-unmapped c.map layer experts) in
    let count = λ (n m : ℕ). (n + m) % u64_mod in
    let hits = hits_of c.map layer experts in
    (
      record c' {
        hits_total = (c'.hits_total + length hits) % u64_mod;
        misses_total = (c'.misses_total + length misses) % u64_mod;
      },
      record { hits = hits; misses = misses },
      rw (first, a.run) refl,
      record {
        valid = record {
          slots_length = a.valid.slots_length;
          ages_length = a.valid.ages_length;
          counted = a.valid.counted;
          aged = a.valid.aged;
          mapped = a.valid.mapped;
          held = a.valid.held;
        };
        hits = refl;
        misses = a.experts;
        ticked = omega (arith, a.ticked);
        sized = a.sized;
        counted = (
          ap (λ n. (n + length hits) % u64_mod) a.counted.0,
          ap (λ n. (n + length misses) % u64_mod) a.counted.1,
        );
        served = λ room.
            let (old, fresh) =
              a.served hits
                (omega (
                  arith,
                  hit_cache-touched c layer experts h small,
                  length-hits_of c.map layer experts,
                ))
                (hit_cache-Served c layer experts h small) in
            All-append _ hits misses old fresh;
        kept = a.kept;
      },
    )
