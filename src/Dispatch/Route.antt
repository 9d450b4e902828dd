-- ===== src/Dispatch/Route.antt =====
-- What the dispatch of one sequence does: each routed expert is computed once, from memory that
-- holds it.
use mathlib.Core.List.{Perm, map-append}
use mathlib.Core.Option.{some-injective}
use free_token_rs.Prelude.{
  ℕ, ◌+◌, ◌≤◌, ◌<◌, ◌≡◌, ◌≢◌, refl, sym, ap, subst, ◌∙◌, inl, inr, ◌⊎◌, Option, none, some, List,
  [], ◌∷◌, ◌++◌, map, min, arith, All, All-imp, All-append, All-right, All-left, All-map,
  All-of_map, All-zip, Among, Distinct, length, take, drop, take-append-drop, get_elem?,
  append_assoc, if◌then◌else◌, u64_mod,
}
use free_token_rs.SlotCache.{ExpertKey, SlotCache}
use free_token_rs.SlotCache.Hits.{
  hits_of, hits_of-mapped, missing_of-unmapped, missing_of-Distinct, experts-Perm,
}
use free_token_rs.SlotCache.Invariant.{IsValid}
use free_token_rs.SlotCache.Misses.{keyed}
use free_token_rs.SlotCache.Serve.{lookup-Looked}
use free_token_rs.Dispatch.{
  host, vram, Pair, pair_for, Routed, split_misses, route_with, route_seq, settle,
}
use free_token_rs.Dispatch.Copies.{slots_of_lem, settle_lem}
use free_token_rs.Dispatch.Split.{
  forget_all_lem, map-take, All-take, keyed-cases, contains-each, contains_ne,
}

abbrev pub Held : Type 0
Held = ℕ → Option ExpertKey

-- The slots hold what the cache says.
abbrev pub IsCoherent : SlotCache → Held → Type 0
IsCoherent c held = (k : ExpertKey) (s : ℕ) → c.map k ≡ some s → held s ≡ some k

-- A pair reads its expert: from the bank, or from a slot that holds it and is not written.
abbrev pub Reads : Held → ℕ → List (ℕ × ExpertKey) → Pair → Type 0
Reads held layer copies p =
    (p.base ≡ host (layer, p.expert))
    ⊎ ((s : ℕ) × (p.base ≡ vram s) × (held s ≡ some (layer, p.expert)) × All (λ q. q.0 ≢ s) copies)

one_key :
    (c : SlotCache)
    → IsValid c
    → (k j : ExpertKey) (s t : ℕ) → c.map k ≡ some s
    → c.map j ≡ some t
    → s ≡ t
    → k ≡ j
one_key c h k j s t at_s at_t eq = some-injective k j (
    some-injective (some k) (some j)
      (sym (h.mapped k s at_s) ∙ ap (get_elem? c.slots) eq ∙ h.mapped j t at_t))

module _ (held : Held) (c c1 : SlotCache) (layer i n : ℕ) (hits misses : List (ℕ × ℕ))
    (valid : IsValid c1) (coherent : IsCoherent c held)
    (hit : All (λ p. c.map (layer, p.0) ≡ some (p.1)) hits)
    (still : All (λ p. c1.map (layer, p.0) ≡ some (p.1)) hits)
    (fresh : All (λ p. c.map (layer, p.0) ≡ none) misses)
    (served : All (λ p. c1.map (layer, p.0) ≡ some (p.1)) misses) where
  abbrev part : List (ℕ × ℕ)
  part = take n misses

  abbrev fetch : List ℕ
  fetch = map (λ p. p.0) part

  abbrev copies : List (ℕ × ExpertKey)
  copies = map (λ p. (p.1, (layer, p.0))) part

  fetched-Reads : All (Reads held layer copies) (map (pair_for layer i fetch) part)
  unfolding pair_for
  fetched-Reads = All-map (Reads held layer copies) (pair_for layer i fetch) part (
      All-imp _ _ part (λ p yes. inl (ap (λ b. if b then host (layer, p.0) else vram (p.1)) yes))
        (All-of_map _ (λ p. p.0) part (contains-each fetch)))

  hit-Reads :
      (p : ℕ × ℕ)
      → c.map (layer, p.0) ≡ some (p.1)
      → c1.map (layer, p.0) ≡ some (p.1)
      → Reads held layer copies (pair_for layer i fetch p)
  unfolding pair_for
  hit-Reads p was now =
      let absent : All (λ x. x ≢ p.0) fetch =
        All-map _ (λ q. q.0) part
          (All-imp _ _ part
            (λ q none_at eq. ground (arith, was, none_at, ap (λ x. c.map (layer, x)) eq))
            (All-take _ n misses fresh)) in
      inr (
        p.1,
        ap (λ b. if b then host (layer, p.0) else vram (p.1)) (contains_ne fetch (p.0) absent),
        coherent (layer, p.0) (p.1) was,
        All-map _ (λ q. (q.1, (layer, q.0))) part
            (All-imp _ _ part
              (λ q at_q eq.
                let same = one_key c1 valid (layer, q.0) (layer, p.0) (q.1) (p.1) at_q.1 now eq in
                ground (arith, was, at_q.0, ap c.map same))
              (All-zip _ _ part (All-take _ n misses fresh) (All-take _ n misses served))),
      )

  pairs-Reads : All (Reads held layer copies) (map (pair_for layer i fetch) (hits ++ part))
  pairs-Reads = All-map _ (pair_for layer i fetch) (hits ++ part) (
      All-append _ hits part
        (All-imp _ _ hits (λ p h. hit-Reads p h.0 h.1) (All-zip _ _ hits hit still))
        (All-of_map _ (pair_for layer i fetch) part fetched-Reads))

  -- The copies fill the slots of the experts that stay mapped.
  settle-IsCoherent :
      (c2 : SlotCache)
      → ((k : ExpertKey) (s : ℕ)
          → c1.map k ≡ some s
          → (c.map k ≡ some s) ⊎ Among {A = ExpertKey × ℕ} (k, s) (keyed layer misses))
      → ((k : ExpertKey) (s : ℕ)
          → c2.map k ≡ some s
          → (c1.map k ≡ some s) × All (λ e. k ≢ (layer, e)) (drop n (map (λ p. p.0) misses)))
      → IsCoherent c2 (settle held copies)
  settle-IsCoherent c2 kept left k s now =
      let (mapped, other) = left k s now in
      settle_lem held copies s k
        (All-map _ (λ q. (q.1, (layer, q.0))) part
          (All-imp _ _ part (λ q at_q eq. one_key c1 valid (layer, q.0) k (q.1) s at_q mapped eq)
            (All-take _ n misses served)))
        (elim (kept k s mapped) [
          | inl before ↦ inl (coherent k s before)
          | inr among ↦ inr (keyed-cases layer n misses k s other among)
        ])

-- The experts of the pairs and those of the CPU are the hits and the misses.
routed_experts :
    (layer i n : ℕ) (fetch_set : List ℕ) (hits misses : List (ℕ × ℕ))
    → map (λ p. p.expert) (map (pair_for layer i fetch_set) (hits ++ take n misses))
        ++ drop n (map (λ p. p.0) misses)
      ≡ map (λ p. p.0) hits ++ map (λ p. p.0) misses
unfolding pair_for
routed_experts layer i n fetch_set hits misses =
    ap (λ l. l ++ drop n (map (λ p. p.0) misses))
      (experts_of (hits ++ take n misses) ∙ map-append (λ p. p.0) hits (take n misses))
    ∙ append_assoc (map (λ p. p.0) hits) _ _
    ∙ ap (λ l. map (λ p. p.0) hits ++ l)
        (ap (λ l. l ++ drop n (map (λ p. p.0) misses)) (map-take (λ p. p.0) n misses)
          ∙ take-append-drop n (map (λ p. p.0) misses))
  where
    experts_of :
        (l : List (ℕ × ℕ))
        → map (λ p. p.expert) (map (pair_for layer i fetch_set) l) ≡ map (λ p. p.0) l
    experts_of [] = refl
    experts_of (p ∷ l) = ap (◌∷◌ p.0) (experts_of l)

-- What the dispatch of one sequence leaves.
pub record Dispatched (c : SlotCache) (held : Held) (layer : ℕ) (ids : List ℕ) (r : Routed)
    : Type 0 where
  pub valid : IsValid r.cache
  pub once : Perm (map (λ p. p.expert) r.pairs ++ r.cpu) ids
  pub reads : All (Reads held layer r.copies) r.pairs
  pub coherent : IsCoherent r.cache (settle held r.copies)
  pub ticked : r.cache.tick ≡ c.tick + 1
  pub sized : r.cache.capacity ≡ c.capacity

-- The dispatch of one sequence. On a valid cache with at least one slot and a clock that does not
-- wrap, whose slots hold what it says, for distinct experts that the cache can hold: the dispatch
-- does not panic and leaves a valid cache, whose clock has moved by one and whose capacity is
-- unchanged. The experts of the GPU's pairs and those of the CPU are together the routed experts, each once. Each pair reads its expert from the bank, or from a slot
-- that holds it and that no copy of the sequence writes. After the copies the slots hold again what
-- the cache says.
pub route_seq-Dispatched :
    (rounded : ℕ → ℕ) (layer i : ℕ) (ids : List ℕ) (c : SlotCache) (held : ℕ → Option ExpertKey)
    → IsValid c
    → c.tick + 1 < u64_mod
    → 0 < c.capacity
    → Distinct ids
    → length ids ≤ c.capacity
    → IsCoherent c held
    → (r : Routed) × (route_seq rounded layer i ids c ≡ some r) × Dispatched c held layer ids r
unfolding route_seq route_with split_misses
route_seq-Dispatched rounded layer i ids c held h small pos d room coherent =
    let (c1, lk, run, looked) = lookup-Looked c layer ids h small pos d in
    let missing = map (λ p. p.0) lk.misses in
    let n = min (rounded (length missing)) (length missing) in
    let (c2, forgotten, valid, tick, size, left) =
      forget_all_lem c1 layer (drop n missing) looked.valid in
    let served =
      All-imp _ (λ p. c1.map (layer, p.0) ≡ some p.1) (lk.hits ++ lk.misses) (λ p s. s.0)
        (looked.served room) in
    let hit =
      subst (All (λ p. c.map (layer, p.0) ≡ some p.1)) (sym looked.hits)
        (hits_of-mapped c.map layer ids) in
    let fresh =
      All-of_map (λ e. c.map (layer, e) ≡ none) (λ p. p.0) lk.misses
        (subst (All (λ e. c.map (layer, e) ≡ none)) (sym looked.misses)
          (missing_of-unmapped c.map layer ids)) in
    let distinct = subst Distinct (sym looked.misses) (missing_of-Distinct c.map layer ids d) in
    let fetched = slots_of_lem lk.misses n distinct in
    let fetch = map (λ p. p.0) (take n lk.misses) in
    (
      record {
        cache = c2;
        copies = map (λ p. (p.1, (layer, p.0))) (take n lk.misses);
        pairs = map (pair_for layer i fetch) (lk.hits ++ take n lk.misses);
        cpu = drop n missing;
      },
      rw (run, forgotten, fetched, map-take (λ p. p.0) n lk.misses) refl,
      record {
        valid = valid;
        once =
            subst (λ l. Perm l ids)
              (sym (
                routed_experts layer i n fetch lk.hits lk.misses
                ∙ ap (λ l. map (λ p. p.0) l ++ missing) looked.hits
                ∙ ap (λ l. map (λ p. p.0) (hits_of c.map layer ids) ++ l) looked.misses))
              (experts-Perm c.map layer ids);
        reads =
            pairs-Reads held c c1 layer i n lk.hits lk.misses looked.valid coherent hit
              (All-left _ lk.hits lk.misses served) fresh (All-right _ lk.hits lk.misses served);
        coherent =
            settle-IsCoherent held c c1 layer i n lk.hits lk.misses looked.valid coherent hit
              (All-left _ lk.hits lk.misses served) fresh (All-right _ lk.hits lk.misses served) c2
              looked.kept left;
        ticked = tick ∙ looked.ticked;
        sized = size ∙ looked.sized;
      },
    )
