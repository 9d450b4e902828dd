-- ===== src/SlotCache/Admit.antt =====
-- One missing expert gets a slot: `take_lru_slot`, the eviction and the insertion.
use mathlib.Core.Option.{some-injective}
use native.Mathlib.Decide.{ℕ_discrete}
use free_token_rs.Prelude.{
  ℕ, ◌-◌, ◌<◌, ◌≡◌, ◌≢◌, refl, sym, ap, subst, inl, inr, Option, none, some, ◌∙◌, arith, get_elem?,
  set, length-set, get_elem?-set_self, get_elem?-set_ne, get_elem?-total, store-set, u64_mod, ◌⊎◌,
}
use free_token_rs.SlotCache.{ExpertKey, SlotMap, insert, evict, SlotCache, admit}
use free_token_rs.SlotCache.Ages.{AllLe-mono, AllLe-set}
use free_token_rs.SlotCache.Scan.{Victim, Victim-lt, take_lru_slot-Victim}
use free_token_rs.SlotCache.Invariant.{
  IsValid, key_eq-cases, insert_self, insert_ne, evict-eq-some, evict_ne,
}

-- The cache after key `k` took slot `v` from its occupant `o`.
abbrev pub admitted : SlotCache → ExpertKey → ℕ → Option ExpertKey → SlotCache
admitted c k v o = record c {
  map = insert (evict c.map o) k v;
  slots = set c.slots v (some k);
  last_used = set c.last_used v c.tick;
}

-- On a valid cache with at least one slot an admission succeeds.
pub admit_lem :
    (c : SlotCache) (layer e : ℕ)
    → IsValid c
    → 0 < c.capacity
    → c.tick < u64_mod
    → (v : ℕ) × (o : Option ExpertKey) × (admit c layer e ≡ some (admitted c (layer, e) v o, v))
      × (get_elem? c.slots v ≡ some o)
      × (v < c.capacity)
      × Victim c.slots c.last_used v
unfolding admit
admit_lem c layer e h pos small =
    let (v, found, victim) =
      take_lru_slot-Victim c (h.slots_length ∙ sym h.ages_length) (omega arith) (omega arith)
        (AllLe-mono c.tick (u64_mod - 1) c.last_used (omega arith) h.aged) in
    let v-lt = Victim-lt c.slots c.last_used v (h.slots_length ∙ sym h.ages_length) victim in
    let (o, at_v) = get_elem?-total c.slots v v-lt in
    (
      v,
      o,
      rw
          (
            found,
            at_v,
            store-set c.slots v (some (layer, e)) v-lt,
            store-set c.last_used v c.tick (omega arith),
          )
          refl,
      at_v,
      omega arith,
      victim,
    )

module _ (c : SlotCache) (k : ExpertKey) (v : ℕ) (o : Option ExpertKey) (h : IsValid c)
    (fresh : c.map k ≡ none) (at_v : get_elem? c.slots v ≡ some o) (v-lt : v < c.capacity) where
  admitted-mapped :
      (j : ExpertKey) (s : ℕ)
      → (admitted c k v o).map j ≡ some s
      → get_elem? (set c.slots v (some k)) s ≡ some (some j)
  admitted-mapped j s e = elim (key_eq-cases k j) [
    | inl same ↦
        let m : SlotMap = insert (evict c.map o) k v in
        let at_k = subst (λ x. m x ≡ some s) (sym same) e in
        let v-eq-s : v ≡ s = some-injective v s (sym (insert_self (evict c.map o) k v) ∙ at_k) in
        subst (λ x. get_elem? (set c.slots v (some k)) x ≡ some (some j)) v-eq-s
          (get_elem?-set_self c.slots v (some k) (omega (arith, h.slots_length))
            ∙ ap (λ x. some (some x)) same)
    | inr (ne, differ) ↦
        let (was, kept) = evict-eq-some c.map o j s (rw differ at e) in
        let at_s = h.mapped j s was in
        get_elem?-set_ne c.slots (some k) (λ (eq : v ≡ s).
          kept (some-injective o (some j) (sym at_v ∙ ap (get_elem? c.slots) eq ∙ at_s)))
        ∙ at_s
  ]

  admitted-held :
      (j : ExpertKey) (s : ℕ)
      → get_elem? (set c.slots v (some k)) s ≡ some (some j)
      → (admitted c k v o).map j ≡ some s
  admitted-held j s e = elim (ℕ_discrete v s) [
    | yes same ↦
        let m : SlotMap = insert (evict c.map o) k v in
        let at_v' =
          subst (λ x. get_elem? (set c.slots v (some k)) x ≡ some (some j)) (sym same) e in
        let self = get_elem?-set_self c.slots v (some k) (omega (arith, h.slots_length)) in
        let k-eq-j : k ≡ j =
          some-injective k j (some-injective (some k) (some j) (sym self ∙ at_v')) in
        subst (λ x. m x ≡ some s) k-eq-j (insert_self (evict c.map o) k v ∙ ap some same)
    | no other ↦
        let at_s = sym (get_elem?-set_ne c.slots (some k) other) ∙ e in
        let was = h.held j s at_s in
        let k-ne-j : k ≢ j = λ eq. ground (arith, ap c.map eq) in
        let o-ne-j : o ≢ some j =
          λ eq. other (some-injective v s (sym (h.held j v (at_v ∙ ap some eq)) ∙ was)) in
        insert_ne (evict c.map o) k v k-ne-j ∙ evict_ne c.map o j o-ne-j ∙ was
  ]

  pub admitted-IsValid : IsValid (admitted c k v o)
  admitted-IsValid = record {
    slots_length = length-set c.slots v (some k) ∙ h.slots_length;
    ages_length = length-set c.last_used v c.tick ∙ h.ages_length;
    counted = h.counted;
    aged = AllLe-set c.tick c.last_used v c.tick (omega arith) h.aged;
    mapped = admitted-mapped;
    held = admitted-held;
  }

  -- What is mapped after an admission was mapped before, or is what was admitted.
  pub admitted_kept :
      (j : ExpertKey) (s : ℕ)
      → (admitted c k v o).map j ≡ some s
      → (c.map j ≡ some s) ⊎ ((j ≡ k) × (s ≡ v))
  admitted_kept j s e = elim (key_eq-cases k j) [
    | inl same ↦
        let m : SlotMap = insert (evict c.map o) k v in
        let at_k = subst (λ x. m x ≡ some s) (sym same) e in
        inr (sym same, some-injective s v (sym at_k ∙ insert_self (evict c.map o) k v))
    | inr (ne, differ) ↦ inl (evict-eq-some c.map o j s (rw differ at e)).0
  ]
