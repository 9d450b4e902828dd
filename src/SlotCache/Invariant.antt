-- ===== src/SlotCache/Invariant.antt =====
-- The invariant of `SlotCache`: the map and the slots hold the same residents, one slot to a key.
use mathlib.Core.Option.{some-injective}
use free_token_rs.Prelude.{
  ℕ, ◌<◌, ◌≡◌, ◌≢◌, refl, ap, subst, ◌⊎◌, inl, inr, Bool, true, false, Option, none, some, arith,
  ==_iff, Bool-cases, length, get_elem?, get_elem?-replicate, length-replicate, replicate, u32_mod,
}
use free_token_rs.SlotCache.{ExpertKey, SlotMap, key_eq, insert, remove, evict, SlotCache, new}
use free_token_rs.SlotCache.Ages.{AllLe, AllLe-replicate}

pub record IsValid (c : SlotCache) : Type 0 where
  pub slots_length : length c.slots ≡ c.capacity
  pub ages_length : length c.last_used ≡ c.capacity
  pub counted : c.capacity < u32_mod
  pub aged : AllLe c.tick c.last_used
  pub mapped : (k : ExpertKey) (s : ℕ) → c.map k ≡ some s → get_elem? c.slots s ≡ some (some k)
  pub held : (k : ExpertKey) (s : ℕ) → get_elem? c.slots s ≡ some (some k) → c.map k ≡ some s

pub key_eq_refl : (k : ExpertKey) → key_eq k k ≡ true
key_eq_refl k = ground (arith, ==_iff k.0 k.0, ==_iff k.1 k.1)

pub key-eq_of_key_eq : (k j : ExpertKey) → key_eq k j ≡ true → k ≡ j
key-eq_of_key_eq (a, b) (c, d) h = ground arith

differ : {b : Bool} → b ≡ true → b ≡ false → ⊥
differ h k = cc

pub key_eq-cases : (k j : ExpertKey) → (k ≡ j) ⊎ ((k ≢ j) × (key_eq k j ≡ false))
key_eq-cases k j = elim (Bool-cases (key_eq k j)) [
  | inl same ↦ inl (key-eq_of_key_eq k j same)
  | inr other ↦ inr (λ e. differ (subst (λ x. key_eq k x ≡ true) e (key_eq_refl k)) other, other)
]

module _ (m : SlotMap) (k : ExpertKey) where
  pub insert_self : (s : ℕ) → insert m k s k ≡ some s
  insert_self s = rw (key_eq_refl k)

  pub insert_ne : (s : ℕ) {j : ExpertKey} → k ≢ j → insert m k s j ≡ m j
  insert_ne s {j} h = elim (key_eq-cases k j) [ inl e ↦ absurd (h e) | inr (_, e) ↦ rw e ]

  pub remove_ne : {j : ExpertKey} → k ≢ j → remove m k j ≡ m j
  remove_ne {j} h = elim (key_eq-cases k j) [ inl e ↦ absurd (h e) | inr (_, e) ↦ rw e ]

  pub remove_self : remove m k k ≡ none
  remove_self = rw (key_eq_refl k)

pub evict-eq-some :
    (m : SlotMap) (o : Option ExpertKey) (j : ExpertKey) (s : ℕ)
    → evict m o j ≡ some s
    → (m j ≡ some s) × (o ≢ some j)
unfolding evict
evict-eq-some m none j s h = (h, λ e. ground arith)
evict-eq-some m (some old) j s h = elim (key_eq-cases old j) [
  | inl e ↦ absurd (ground (arith, remove_self m j, subst (λ x. remove m x j ≡ some s) e h))
  | inr (ne, e) ↦ (rw e at h, λ e'. ne (some-injective old j e'))
]

pub evict_ne : (m : SlotMap) (o : Option ExpertKey) (j : ExpertKey) → o ≢ some j → evict m o j ≡ m j
unfolding evict
evict_ne m none j h = refl
evict_ne m (some old) j h = elim (key_eq-cases old j) [
  | inl e ↦ absurd (h (ap some e))
  | inr (ne, e) ↦ rw e
]

get_elem?-new : (n i : ℕ) (k : ExpertKey) → get_elem? (replicate n none) i ≢ some (some k)
get_elem?-new n i k h = ground (arith, get_elem?-replicate n i none (some k) h)

-- A new cache meets the invariant.
pub new-IsValid : (n : ℕ) → n < u32_mod → IsValid (new n)
unfolding new
new-IsValid n h = record {
  slots_length = length-replicate n none;
  ages_length = length-replicate n 0;
  counted = h;
  aged = AllLe-replicate 0 n;
  mapped = λ k s e. absurd (ground arith);
  held = λ k s e. absurd (get_elem?-new n s k e);
}
