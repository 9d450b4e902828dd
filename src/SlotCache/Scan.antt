-- ===== src/SlotCache/Scan.antt =====
-- `take_lru_slot` of ft-core/src/lib.rs against its specification.
use free_token_rs.Prelude.{
  ℕ, suc, ◌+◌, ◌-◌, ◌%◌, ◌<◌, ◌≡◌, refl, sym, subst, inl, inr, none, some, List, [], ◌∷◌, arith,
  ltb, if◌then◌else◌, Bool-cases, length, get_elem?, get_elem?-lt, take, u32_mod, u64_mod,
}
use free_token_rs.SlotCache.{Slots, scan, SlotCache, take_lru_slot}
use free_token_rs.SlotCache.Ages.{AllGe, AllGt, AllLe}

-- No slot is free.
abbrev pub IsFull : Slots → Type 0
IsFull [] = Unit {0}
IsFull (none ∷ slots) = ⊥
IsFull (some k ∷ slots) = IsFull slots

-- What the scan of the rest returns, with the best slot before it and that slot's age.
data Outcome (slots : Slots) (ages : List ℕ) (i best age r : ℕ) : Type 0 where
  free :
      (p : ℕ)
      → r ≡ (i + p) % u32_mod
      → get_elem? slots p ≡ some none
      → IsFull (take p slots)
      → Outcome slots ages i best age r
  older :
      (p a : ℕ)
      → IsFull slots
      → r ≡ (i + p) % u32_mod
      → get_elem? ages p ≡ some a
      → AllGt a (take p ages)
      → AllGe a ages
      → a < age
      → Outcome slots ages i best age r
  kept : IsFull slots → r ≡ best % u32_mod → AllGe age ages → Outcome slots ages i best age r

Outcome-cons :
    (k : ℕ × ℕ) (slots : Slots) (u : ℕ) (ages : List ℕ) (i best age r : ℕ)
    → Outcome slots ages (i + 1) (if ltb u age then i else best) (if ltb u age then u else age) r
    → Outcome (some k ∷ slots) (u ∷ ages) i best age r
Outcome-cons k slots u ages i best age r (free p e h full) = free (suc p) (omega arith) h full
Outcome-cons k slots u ages i best age r (older p a full e h gt ge lt) =
    older (suc p) a full (omega arith) h (ground arith, gt) (ground arith, ge) (ground arith)
Outcome-cons k slots u ages i best age r (kept full e ge) = elim (Bool-cases (ltb u age)) [
  | inl lt ↦
      let e' : r ≡ i % u32_mod = rw lt at e in
      let ge' : AllGe u ages = rw lt at ge in
      older 0 u full (omega arith) refl tt (omega arith, ge') (ground arith)
  | inr le ↦ let ge' : AllGe age ages = rw le at ge in kept full (rw le at e) (ground arith, ge')
]

scan-Outcome :
    (slots : Slots) (ages : List ℕ) (i best age : ℕ)
    → length slots ≡ length ages
    → (r : ℕ) × (scan slots ages i best age ≡ some r) × Outcome slots ages i best age r
unfolding scan
scan-Outcome [] [] i best age h = (best % u32_mod, refl, kept tt refl tt)
scan-Outcome [] (u ∷ ages) i best age h = absurd (omega arith)
scan-Outcome (none ∷ slots) ages i best age h = (i % u32_mod, refl, free 0 (omega arith) refl tt)
scan-Outcome (some k ∷ slots) [] i best age h = absurd (omega arith)
scan-Outcome (some k ∷ slots) (u ∷ ages) i best age h =
    let (r, e, o) =
      scan-Outcome slots ages (i + 1) (if ltb u age then i else best) (if ltb u age then u else age)
        (omega arith) in
    (r, e, Outcome-cons k slots u ages i best age r o)

-- `v` is the first free slot, or no slot is free and `v` is the first slot of the least age.
pub data Victim (slots : Slots) (ages : List ℕ) (v : ℕ) : Type 0 where
  free : get_elem? slots v ≡ some none → IsFull (take v slots) → Victim slots ages v
  oldest :
      (a : ℕ)
      → IsFull slots
      → get_elem? ages v ≡ some a
      → AllGt a (take v ages)
      → AllGe a ages
      → Victim slots ages v

pub Victim-lt :
    (slots : Slots) (ages : List ℕ) (v : ℕ)
    → length slots ≡ length ages
    → Victim slots ages v
    → v < length slots
Victim-lt slots ages v h (free e _) = get_elem?-lt slots v e
Victim-lt slots ages v h (oldest a _ e _ _) = omega (arith, get_elem?-lt ages v e)

Outcome-Victim :
    (slots : Slots) (ages : List ℕ) (r : ℕ)
    → length slots ≡ length ages
    → 0 < length slots
    → length slots < u32_mod
    → AllLe (u64_mod - 1) ages
    → Outcome slots ages 0 0 (u64_mod - 1) r
    → Victim slots ages r
Outcome-Victim slots ages r h pos small le (free p e at_p full) =
    let bound = get_elem?-lt slots p at_p in
    let e' : p ≡ r = omega arith in subst (Victim slots ages) e' (free at_p full)
Outcome-Victim slots ages r h pos small le (older p a full e at_p gt ge lt) =
    let bound = get_elem?-lt ages p at_p in
    let e' : p ≡ r = omega arith in subst (Victim slots ages) e' (oldest a full at_p gt ge)
Outcome-Victim slots [] r h pos small le (kept full e ge) = absurd (omega arith)
Outcome-Victim slots (u ∷ ages) r h pos small le (kept full e ge) =
    let e' : 0 ≡ r = omega arith in
    let top : u ≡ u64_mod - 1 = omega arith in
    subst (Victim slots (u ∷ ages)) e'
      (oldest u full refl tt (subst (λ a. AllGe a (u ∷ ages)) (sym top) ge))

-- On slots that a `u32` counts, and at least one, with ages that fit a `u64`, the scan returns a
-- slot: the first free one, or else the first of those with the least age.
pub take_lru_slot-Victim :
    (c : SlotCache)
    → length c.slots ≡ length c.last_used
    → 0 < length c.slots
    → length c.slots < u32_mod
    → AllLe (u64_mod - 1) c.last_used
    → (v : ℕ) × (take_lru_slot c ≡ some v) × Victim c.slots c.last_used v
unfolding take_lru_slot
take_lru_slot-Victim c h pos small le =
    let (r, e, o) = scan-Outcome c.slots c.last_used 0 0 (u64_mod - 1) h in
    (r, e, Outcome-Victim c.slots c.last_used r h pos small le o)
