-- ===== src/SlotCache/Forget.antt =====
-- The laws of `forget`.
use mathlib.Core.Option.{some-injective}
use native.Mathlib.Decide.{ℕ_discrete}
use free_token_rs.Prelude.{
  ℕ, ◌<◌, ◌≡◌, refl, sym, subst, ◌∙◌, ap, ◌⊎◌, inl, inr, none, some, arith, length, length-set, set,
  store-set, get_elem?, get_elem?-set_self, get_elem?-set_ne,
}
use free_token_rs.SlotCache.{ExpertKey, SlotCache, remove, forget}
use free_token_rs.SlotCache.Ages.{AllLe-set}
use free_token_rs.SlotCache.Invariant.{IsValid, key_eq-cases, remove_self, remove_ne}
use free_token_rs.SlotCache.Serve.{slot-lt}

abbrev forgotten : SlotCache → ExpertKey → ℕ → SlotCache
forgotten c k s = record c {
  map = remove c.map k;
  slots = set c.slots s none;
  last_used = set c.last_used s 0;
}

module _ (c : SlotCache) (k : ExpertKey) (s : ℕ) (h : IsValid c) (was : c.map k ≡ some s) where
  s-lt : s < c.capacity
  s-lt = omega (arith, slot-lt c h k s was, h.ages_length)

  forgotten-mapped :
      (j : ExpertKey) (t : ℕ)
      → remove c.map k j ≡ some t
      → get_elem? (set c.slots s none) t ≡ some (some j)
  forgotten-mapped j t e = elim (key_eq-cases k j) [
    | inl same ↦
        absurd
          (ground (arith, remove_self c.map k, subst (λ x. remove c.map k x ≡ some t) (sym same) e))
    | inr (other, _) ↦
        let at_t = h.mapped j t (sym (remove_ne c.map k other) ∙ e) in
        let at_s = h.mapped k s was in
        get_elem?-set_ne c.slots none (λ (eq : s ≡ t). other (
          some-injective k j
            (some-injective (some k) (some j) (sym at_s ∙ ap (get_elem? c.slots) eq ∙ at_t))))
        ∙ at_t
  ]

  forgotten-held :
      (j : ExpertKey) (t : ℕ)
      → get_elem? (set c.slots s none) t ≡ some (some j)
      → remove c.map k j ≡ some t
  forgotten-held j t e = elim (ℕ_discrete s t) [
    | yes same ↦ absurd (
        ground (
          arith,
          get_elem?-set_self c.slots s none (omega (arith, s-lt, h.slots_length)),
          subst (λ x. get_elem? (set c.slots s none) x ≡ some (some j)) (sym same) e,
        ))
    | no other ↦
        let is = h.held j t (sym (get_elem?-set_ne c.slots none other) ∙ e) in
        remove_ne c.map k (λ eq. other (some-injective s t (sym was ∙ ap c.map eq ∙ is))) ∙ is
  ]

  forgotten-IsValid : IsValid (forgotten c k s)
  forgotten-IsValid = record {
    slots_length = length-set c.slots s none ∙ h.slots_length;
    ages_length = length-set c.last_used s 0 ∙ h.ages_length;
    counted = h.counted;
    aged = AllLe-set c.tick c.last_used s 0 (omega arith) h.aged;
    mapped = forgotten-mapped;
    held = forgotten-held;
  }

-- On a valid cache `forget` of a resident expert does not panic and leaves a valid cache. The
-- expert is no longer mapped, every other key is mapped as before, and the slot is free with age
-- zero, so that the next admission can take it.
pub forget-IsValid :
    (c : SlotCache) (layer expert s : ℕ)
    → IsValid c
    → c.map (layer, expert) ≡ some s
    → (c' : SlotCache) × (forget c layer expert ≡ some c')
      × IsValid c'
      × (c'.map (layer, expert) ≡ none)
      × ((j : ExpertKey) → (c'.map j ≡ c.map j) ⊎ (j ≡ (layer, expert)))
      × (get_elem? c'.slots s ≡ some none)
      × (get_elem? c'.last_used s ≡ some 0)
unfolding forget
forget-IsValid c layer expert s h was =
    let in_ages = slot-lt c h (layer, expert) s was in
    let in_slots : s < length c.slots = omega (arith, in_ages, h.ages_length, h.slots_length) in
    (
      forgotten c (layer, expert) s,
      rw (was, forget, store-set c.slots s none in_slots, store-set c.last_used s 0 in_ages) refl,
      forgotten-IsValid c (layer, expert) s h was,
      remove_self c.map (layer, expert),
      λ j. elim (key_eq-cases (layer, expert) j) [
        | inl same ↦ inr (sym same)
        | inr (other, _) ↦ inl (remove_ne c.map (layer, expert) other)
      ],
      get_elem?-set_self c.slots s none in_slots,
      get_elem?-set_self c.last_used s 0 in_ages,
    )

-- `forget` of an expert that is not resident changes nothing.
pub forget_absent :
    (c : SlotCache) (layer expert : ℕ)
    → c.map (layer, expert) ≡ none
    → forget c layer expert ≡ some c
unfolding forget
forget_absent c layer expert miss = rw (miss, forget) refl

-- `forget` of a resident expert leaves the clock and the capacity.
pub forget-eq-some :
    (c c' : SlotCache) (layer expert s : ℕ)
    → IsValid c
    → c.map (layer, expert) ≡ some s
    → forget c layer expert ≡ some c'
    → (c'.tick ≡ c.tick) × (c'.capacity ≡ c.capacity)
unfolding forget
forget-eq-some c c' layer expert s h was e =
    let in_ages = slot-lt c h (layer, expert) s was in
    let in_slots : s < length c.slots = omega (arith, in_ages, h.ages_length, h.slots_length) in
    let run : forget c layer expert ≡ some (forgotten c (layer, expert) s) =
      rw (was, forget, store-set c.slots s none in_slots, store-set c.last_used s 0 in_ages) refl in
    let same = some-injective (forgotten c (layer, expert) s) c' (sym run ∙ e) in
    (sym (ap (λ x. x.tick) same), sym (ap (λ x. x.capacity) same))
