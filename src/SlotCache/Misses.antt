-- ===== src/SlotCache/Misses.antt =====
-- The second loop of `lookup`: each missing expert is admitted in turn.
use mathlib.Core.Option.{some-injective}
use free_token_rs.Prelude.{
  ℕ, ◌+◌, ◌≤◌, ◌<◌, ◌≡◌, ◌≢◌, refl, sym, ◌∙◌, ap, inl, inr, Option, none, some, List, [], ◌∷◌,
  arith, map, Option-cases, All, All-imp, Distinct, length, get_elem?, get_elem?-set_self,
  get_elem?-set_ne, u64_mod, Among, ◌⊎◌,
}
use free_token_rs.SlotCache.{ExpertKey, SlotCache, evict, admit_all}
use free_token_rs.SlotCache.Ages.{touched, touched-set, least-lt}
use free_token_rs.SlotCache.Scan.{Victim, free, oldest}
use free_token_rs.SlotCache.Invariant.{IsValid, insert_self, insert_ne, evict-eq-some, evict_ne}
use free_token_rs.SlotCache.Admit.{admitted, admit_lem, admitted-IsValid, admitted_kept}

-- Each expert is mapped to its slot, and the slot was touched at the cache's tick.
abbrev pub Served : SlotCache → ℕ → List (ℕ × ℕ) → Type 0
Served c layer =
    All (λ p. (c.map (layer, p.0) ≡ some p.1) × (get_elem? c.last_used p.1 ≡ some c.tick))

abbrev pub Unmapped : SlotCache → ℕ → List ℕ → Type 0
Unmapped c layer = All (λ e. c.map (layer, e) ≡ none)

module _ (c : SlotCache) (layer e v : ℕ) (o : Option ExpertKey) (h : IsValid c)
    (fresh : c.map (layer, e) ≡ none) (at_v : get_elem? c.slots v ≡ some o)
    (v-lt : v < c.capacity) where
  -- A key without a slot gets none, but for the admitted one.
  admitted-Unmapped :
      (rest : List ℕ)
      → All (λ y. e ≢ y) rest
      → Unmapped c layer rest
      → Unmapped (admitted c (layer, e) v o) layer rest
  admitted-Unmapped [] ne u = tt
  admitted-Unmapped (y ∷ rest) ne u = (
    insert_ne (evict c.map o) (layer, e) v (λ eq. ne.0 (ap (λ k. k.1) eq)) ∙ evict_none o y u.0,
    admitted-Unmapped rest ne.1 u.1,
  )
    where
      evict_none :
          (occupant : Option ExpertKey) (y : ℕ)
          → c.map (layer, y) ≡ none
          → evict c.map occupant (layer, y) ≡ none
      evict_none occupant y u = elim (Option-cases (evict c.map occupant (layer, y))) [
        | inl none_at ↦ none_at
        | inr (s, some_at) ↦
            absurd (ground (arith, evict-eq-some c.map occupant (layer, y) s some_at))
      ]

  Victim-ne :
      (e' s : ℕ)
      → Victim c.slots c.last_used v
      → touched c.tick c.last_used < c.capacity
      → c.map (layer, e') ≡ some s
      → get_elem? c.last_used s ≡ some c.tick
      → v ≢ s
  Victim-ne e' s (free at _) few was age eq =
      ground (arith, ap (get_elem? c.slots) eq, h.mapped (layer, e') s was)
  Victim-ne e' s (oldest a full at gt ge) few was age eq = omega (
    arith,
    some-injective a c.tick (sym at ∙ ap (get_elem? c.last_used) eq ∙ age),
    least-lt a c.tick c.last_used ge h.aged (omega (arith, h.ages_length)),
  )

  -- An admission takes no slot that was touched at this tick, if there is one that was not.
  admitted-Served :
      (pairs : List (ℕ × ℕ))
      → Victim c.slots c.last_used v
      → touched c.tick c.last_used < c.capacity
      → Served c layer pairs
      → Served (admitted c (layer, e) v o) layer pairs
  admitted-Served pairs victim few = All-imp _ _ pairs λ p was.
      let other = Victim-ne p.0 p.1 victim few was.0 was.1 in
      let k-ne : (layer, e) ≢ (layer, p.0) = λ eq. ground (arith, ap c.map eq) in
      let o-ne : o ≢ some (layer, p.0) = λ eq.
        other (some-injective v p.1 (sym (h.held (layer, p.0) v (at_v ∙ ap some eq)) ∙ was.0)) in
      (
        insert_ne (evict c.map o) (layer, e) v k-ne ∙ evict_ne c.map o (layer, p.0) o-ne ∙ was.0,
        get_elem?-set_ne c.last_used c.tick other ∙ was.1,
      )

  admitted-Served_self : Served (admitted c (layer, e) v o) layer ((e, v) ∷ [])
  admitted-Served_self = (
    (
      insert_self (evict c.map o) (layer, e) v,
      get_elem?-set_self c.last_used v c.tick (omega (arith, h.ages_length)),
    ),
    tt,
  )

-- The admitted experts by their keys.
abbrev pub keyed : ℕ → List (ℕ × ℕ) → List (ExpertKey × ℕ)
keyed layer misses = map (λ p. ((layer, p.0), p.1)) misses

-- What the second loop leaves: a valid cache, a slot for each missing expert and, if the slots
-- touched at this tick leave room, every expert served, before the loop or by it.
pub record Admitted (c : SlotCache) (layer : ℕ) (missing : List ℕ) (c' : SlotCache)
    (misses : List (ℕ × ℕ)) : Type 0 where
  pub run : admit_all c layer missing ≡ some (c', misses)
  pub valid : IsValid c'
  pub experts : map (λ p. p.0) misses ≡ missing
  pub ticked : c'.tick ≡ c.tick
  pub sized : c'.capacity ≡ c.capacity
  pub counted : (c'.hits_total ≡ c.hits_total) × (c'.misses_total ≡ c.misses_total)
  pub served :
      (pairs : List (ℕ × ℕ))
      → touched c.tick c.last_used + length missing ≤ c.capacity
      → Served c layer pairs
      → Served c' layer pairs × Served c' layer misses
  pub kept :
      (k : ExpertKey) (s : ℕ)
      → c'.map k ≡ some s
      → (c.map k ≡ some s) ⊎ Among (k, s) (keyed layer misses)

-- On a valid cache with a slot the loop admits distinct experts that the cache does not hold.
pub admit_all-Admitted :
    (c : SlotCache) (layer : ℕ) (missing : List ℕ)
    → IsValid c
    → 0 < c.capacity
    → c.tick < u64_mod
    → Distinct missing
    → Unmapped c layer missing
    → (c' : SlotCache) × (misses : List (ℕ × ℕ)) × Admitted c layer missing c' misses
unfolding admit_all
admit_all-Admitted c layer [] h pos small d u = (
  c,
  [],
  record {
    run = refl;
    valid = h;
    experts = refl;
    ticked = refl;
    sized = refl;
    counted = (refl, refl);
    served = λ pairs room served. (served, tt);
    kept = λ k s was. inl was;
  },
)
admit_all-Admitted c layer (e ∷ missing) h pos small d u =
    let (v, o, run, at_v, v-lt, victim) = admit_lem c layer e h pos small in
    let c1 = admitted c (layer, e) v o in
    let (c', misses, a) =
      admit_all-Admitted c1 layer missing (admitted-IsValid c (layer, e) v o h u.0 at_v v-lt) pos
        small d.1 (admitted-Unmapped c layer e v o h u.0 at_v v-lt missing d.0 u.1) in
    (
      c',
      (e, v) ∷ misses,
      record {
        run = rw (run, a.run) refl;
        valid = a.valid;
        experts = ap (◌∷◌ e) a.experts;
        ticked = a.ticked;
        sized = a.sized;
        counted = a.counted;
        served = λ pairs room served.
            let few = touched-set c.tick c.last_used v in
            let old =
              admitted-Served c layer e v o h u.0 at_v v-lt pairs victim (omega arith) served in
            let self = admitted-Served_self c layer e v o h u.0 at_v v-lt in
            (
              (a.served pairs (omega arith) old).0,
              (
                (a.served ((e, v) ∷ []) (omega arith) self).0.0,
                (a.served pairs (omega arith) old).1,
              ),
            );
        kept = λ k s now. elim (a.kept k s now) [
          | inr later ↦ inr (inr later)
          | inl before ↦ elim (admitted_kept c (layer, e) v o h u.0 at_v v-lt k s before) [
            | inl was ↦ inl was
            | inr (key, slot) ↦ inr (inl (ground (arith, key, slot)))
          ]
        ];
      },
    )
