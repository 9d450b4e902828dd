-- ===== src/SlotCache/Hits.antt =====
-- The first loop of `lookup` in closed form: it reads the map and writes the ages.
use mathlib.Core.List.Perm
use mathlib.Core.List.{Perm}
use free_token_rs.Prelude.{
  ◌++◌, map, middle-Perm, ℕ, ◌+◌, ◌≤◌, ◌<◌, ◌≡◌, ◌≢◌, refl, sym, subst, ◌∙◌, inl, inr, none, some,
  List, [], ◌∷◌, arith, Option-cases, All, Distinct, length, get_elem?, set, length-set,
  get_elem?-set_self, get_elem?-lt, get_elem?-set_ne, store-set,
}
use native.Mathlib.Decide.{ℕ_discrete}
use free_token_rs.SlotCache.{ExpertKey, SlotMap, SlotCache, touch_hits}
use free_token_rs.SlotCache.Ages.{AllLe, AllLe-set, touched, touched-set}

-- The experts that the map holds, with their slots.
pub hits_of : SlotMap → ℕ → List ℕ → List (ℕ × ℕ)
hits_of m layer [] = []
hits_of m layer (e ∷ experts) = elim (m (layer, e)) [
  | some slot ↦ (e, slot) ∷ hits_of m layer experts
  | none ↦ hits_of m layer experts
]

-- The experts that the map does not hold.
pub missing_of : SlotMap → ℕ → List ℕ → List ℕ
missing_of m layer [] = []
missing_of m layer (e ∷ experts) = elim (m (layer, e)) [
  | some slot ↦ missing_of m layer experts
  | none ↦ e ∷ missing_of m layer experts
]

-- The ages with each of the slots touched at tick `t`.
pub touch : ℕ → List ℕ → List (ℕ × ℕ) → List ℕ
touch t ages [] = ages
touch t ages ((_, slot) ∷ hits) = touch t (set ages slot t) hits

pub length-touch :
    (t : ℕ) (ages : List ℕ) (hits : List (ℕ × ℕ)) → length (touch t ages hits) ≡ length ages
unfolding touch
length-touch t ages [] = refl
length-touch t ages ((_, s) ∷ hits) = length-touch t (set ages s t) hits ∙ length-set ages s t

pub touch-AllLe :
    (t : ℕ) (ages : List ℕ) (hits : List (ℕ × ℕ)) → AllLe t ages → AllLe t (touch t ages hits)
unfolding touch
touch-AllLe t ages [] h = h
touch-AllLe t ages ((_, s) ∷ hits) h =
    touch-AllLe t (set ages s t) hits (AllLe-set t ages s t (omega arith) h)

pub touched-touch :
    (t : ℕ) (ages : List ℕ) (hits : List (ℕ × ℕ))
    → touched t (touch t ages hits) ≤ touched t ages + length hits
unfolding touch
touched-touch t ages [] = omega arith
touched-touch t ages ((_, s) ∷ hits) =
    omega (arith, touched-touch t (set ages s t) hits, touched-set t ages s)

-- A slot touched once stays touched.
touch_kept :
    (t : ℕ) (ages : List ℕ) (hits : List (ℕ × ℕ)) (s : ℕ)
    → get_elem? ages s ≡ some t
    → get_elem? (touch t ages hits) s ≡ some t
unfolding touch
touch_kept t ages [] s h = h
touch_kept t ages ((_, s') ∷ hits) s h =
    touch_kept t (set ages s' t) hits s (elim (ℕ_discrete s' s) [
      | yes e ↦
          subst (λ x. get_elem? (set ages x t) s ≡ some t) (sym e)
            (get_elem?-set_self ages s t (get_elem?-lt ages s h))
      | no ne ↦ get_elem?-set_ne ages t ne ∙ h
    ])

-- Every slot of the list is touched.
pub touch_each :
    (t : ℕ) (ages : List ℕ) (hits : List (ℕ × ℕ))
    → All (λ p. p.1 < length ages) hits
    → All (λ p. get_elem? (touch t ages hits) p.1 ≡ some t) hits
unfolding touch
touch_each t ages [] h = tt
touch_each t ages ((e, s) ∷ hits) h = (
  touch_kept t (set ages s t) hits s (get_elem?-set_self ages s t h.0),
  touch_each t (set ages s t) hits
      (subst (λ n. All (λ p. p.1 < n) hits) (sym (length-set ages s t)) h.1),
)

module _ (m : SlotMap) (layer : ℕ) where
  pub length-hits_of :
      (experts : List ℕ)
      → length (hits_of m layer experts) + length (missing_of m layer experts) ≡ length experts
  unfolding hits_of missing_of
  length-hits_of [] = omega arith
  length-hits_of (e ∷ experts) = ground (arith, length-hits_of experts)

  pub hits_of-mapped :
      (experts : List ℕ) → All (λ p. m (layer, p.0) ≡ some p.1) (hits_of m layer experts)
  unfolding hits_of
  hits_of-mapped [] = tt
  hits_of-mapped (e ∷ experts) = elim (Option-cases (m (layer, e))) [
    | inl miss ↦ rw (miss, hits_of) (hits_of-mapped experts)
    | inr (s, hit) ↦ rw (hit, hits_of) (hit, hits_of-mapped experts)
  ]

  pub missing_of-unmapped :
      (experts : List ℕ) → All (λ e. m (layer, e) ≡ none) (missing_of m layer experts)
  unfolding missing_of
  missing_of-unmapped [] = tt
  missing_of-unmapped (e ∷ experts) = elim (Option-cases (m (layer, e))) [
    | inl miss ↦ rw (miss, missing_of) (miss, missing_of-unmapped experts)
    | inr (s, hit) ↦ rw (hit, missing_of) (missing_of-unmapped experts)
  ]

  missing_of-All {ℓ} :
      (P : ℕ → Type ℓ) (experts : List ℕ) → All P experts → All P (missing_of m layer experts)
  unfolding missing_of
  missing_of-All P [] h = tt
  missing_of-All P (e ∷ experts) h = elim (Option-cases (m (layer, e))) [
    | inl miss ↦ rw (miss, missing_of) (h.0, missing_of-All P experts h.1)
    | inr (s, hit) ↦ rw (hit, missing_of) (missing_of-All P experts h.1)
  ]

  pub missing_of-Distinct :
      (experts : List ℕ) → Distinct experts → Distinct (missing_of m layer experts)
  unfolding missing_of
  missing_of-Distinct [] h = tt
  missing_of-Distinct (e ∷ experts) h = elim (Option-cases (m (layer, e))) [
    | inl miss ↦
        rw (miss, missing_of)
          (missing_of-All (λ y. e ≢ y) experts h.0, missing_of-Distinct experts h.1)
    | inr (s, hit) ↦ rw (hit, missing_of) (missing_of-Distinct experts h.1)
  ]

  -- Each expert is a hit or is missing.
  pub experts-All {ℓ} :
      (P : ℕ → Type ℓ) (experts : List ℕ)
      → All (λ p. P p.0) (hits_of m layer experts)
      → All P (missing_of m layer experts)
      → All P experts
  unfolding hits_of missing_of
  experts-All P [] hits missing = tt
  experts-All P (e ∷ experts) hits missing = elim (Option-cases (m (layer, e))) [
    | inl miss ↦
        let hits' = rw (miss, hits_of) at hits in
        let missing' : All P (e ∷ missing_of m layer experts) = rw (miss, missing_of) at missing in
        (missing'.0, experts-All P experts hits' missing'.1)
    | inr (s, hit) ↦
        let hits' : All (λ p. P p.0) ((e, s) ∷ hits_of m layer experts) =
          rw (hit, hits_of) at hits in
        let missing' = rw (hit, missing_of) at missing in
        (hits'.0, experts-All P experts hits'.1 missing')
  ]

  pub experts-Perm :
      (experts : List ℕ)
      → Perm (map (λ p. p.0) (hits_of m layer experts) ++ missing_of m layer experts) experts
  unfolding hits_of missing_of
  experts-Perm [] = Perm.refl []
  experts-Perm (e ∷ experts) = elim (Option-cases (m (layer, e))) [
    | inl miss ↦
        rw (miss, hits_of, missing_of)
          (Perm.trans
            (middle-Perm (map (λ p. p.0) (hits_of m layer experts)) (missing_of m layer experts) e)
            (Perm.cons e (experts-Perm experts)))
    | inr (s, hit) ↦ rw (hit, hits_of, missing_of) (Perm.cons e (experts-Perm experts))
  ]

  pub missing_of_mapped :
      (experts : List ℕ) → All (λ e. m (layer, e) ≢ none) experts → missing_of m layer experts ≡ []
  unfolding missing_of
  missing_of_mapped [] h = refl
  missing_of_mapped (e ∷ experts) h = ground (arith, missing_of_mapped experts h.1)

  pub split_pair :
      (e e' s : ℕ)
      → m (layer, e) ≡ some s
      → m (layer, e') ≡ none
      → (hits_of m layer (e ∷ e' ∷ []) ≡ (e, s) ∷ []) × (missing_of m layer (e ∷ e' ∷ []) ≡ e' ∷ [])
  unfolding hits_of missing_of
  split_pair e e' s hit miss = (ground arith, ground arith)

-- The loop succeeds if every slot of the map has an age.
pub touch_hits_lem :
    (c : SlotCache) (layer : ℕ) (experts : List ℕ)
    → ((k : ExpertKey) (s : ℕ) → c.map k ≡ some s → s < length c.last_used)
    → touch_hits c layer experts
      ≡ some (
        record c { last_used = touch c.tick c.last_used (hits_of c.map layer experts) },
        hits_of c.map layer experts,
        missing_of c.map layer experts,
      )
unfolding touch_hits touch hits_of missing_of
touch_hits_lem c layer [] h = refl
touch_hits_lem c layer (e ∷ experts) h = elim (Option-cases (c.map (layer, e))) [
  | inl miss ↦ rw (miss, touch_hits, hits_of, missing_of, touch_hits_lem c layer experts h) refl
  | inr (s, hit) ↦
      let ages = set c.last_used s c.tick in
      let rest =
        touch_hits_lem (record c { last_used = ages }) layer experts
          (λ k s' e'. rw (length-set c.last_used s c.tick) (h k s' e')) in
      rw (hit, touch_hits, hits_of, missing_of, store-set c.last_used s c.tick (h _ s hit), rest)
        refl
]
