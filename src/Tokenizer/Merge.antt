-- ===== src/Tokenizer/Merge.antt =====
-- What the merging of `encode` does: each round merges the first of the pairs of least rank, and
-- the loop ends when no pair has a rank.
use mathlib.Core.Option.{some-injective}
use free_token_rs.Prelude.{
  ℕ, zero, suc, ◌+◌, ◌≤◌, ◌<◌, ◌≡◌, ◌≢◌, refl, sym, ap, subst, ◌∙◌, inl, inr, ◌⊎◌, Option, none,
  some, List, [], ◌∷◌, ◌++◌, map, arith, append_assoc, Bool-cases, Option-cases, All, length, ltb,
}
use free_token_rs.Text.{Text}
use free_token_rs.Tokenizer.{Ranks, rank_of}
use free_token_rs.Tokenizer.Bpe.{normalize, better, best_pair, merge_at, merge_loop, pieces_of}

-- The rank of the pair at `i`.
abbrev pub pair_rank : Ranks → List Text → ℕ → Option ℕ
pair_rank ranks [] i = none
pair_rank ranks (a ∷ []) i = none
pair_rank ranks (a ∷ b ∷ pieces) zero = rank_of ranks a b
pair_rank ranks (a ∷ b ∷ pieces) (suc i) = pair_rank ranks (b ∷ pieces) i

-- No pair has a rank.
abbrev pub Unranked : Ranks → List Text → Type 0
Unranked ranks [] = Unit
Unranked ranks (a ∷ []) = Unit
Unranked ranks (a ∷ b ∷ pieces) = (rank_of ranks a b ≡ none) × Unranked ranks (b ∷ pieces)

-- No pair has a lesser rank.
abbrev pub Least : Ranks → List Text → ℕ → Type 0
Least ranks [] r = Unit
Least ranks (a ∷ []) r = Unit
Least ranks (a ∷ b ∷ pieces) r =
    ((q : ℕ) → rank_of ranks a b ≡ some q → r ≤ q) × Least ranks (b ∷ pieces) r

-- The pair at `i` has rank `r`, no pair a lesser one, and each pair before it a greater one.
abbrev pub First : Ranks → List Text → ℕ → ℕ → Type 0
First ranks [] i r = ⊥
First ranks (a ∷ []) i r = ⊥
First ranks (a ∷ b ∷ pieces) zero r = (rank_of ranks a b ≡ some r) × Least ranks (b ∷ pieces) r
First ranks (a ∷ b ∷ pieces) (suc i) r =
    ((q : ℕ) → rank_of ranks a b ≡ some q → r < q) × First ranks (b ∷ pieces) i r

-- What the loop over the pairs finds: the best pair so far, or a better one from position `i` on.
abbrev pub Best : Ranks → List Text → ℕ → Option (ℕ × ℕ) → Option (ℕ × ℕ) → Type 0
Best ranks pieces i none none = Unranked ranks pieces
Best ranks pieces i (some p) none = ⊥
Best ranks pieces i none (some (r, k)) = (j : ℕ) × (k ≡ i + j) × First ranks pieces j r
Best ranks pieces i (some (br, bi)) (some (r, k)) =
    ((r ≡ br) × (k ≡ bi) × Least ranks pieces r)
    ⊎ ((r < br) × ((j : ℕ) × (k ≡ i + j) × First ranks pieces j r))

one_rank : {o : Option ℕ} (s q : ℕ) → o ≡ some s → o ≡ some q → s ≡ q
one_rank s q e e' = some-injective s q (sym e ∙ e')

no_rank {ℓ} : {A : Type ℓ} {o : Option ℕ} (q : ℕ) → o ≡ none → o ≡ some q → A
no_rank q e e' = absurd (ground (arith, e, e'))

module _ (ranks : Ranks) (a b : Text) (pieces : List Text) (i : ℕ) where
  -- A better pair further on, after a pair of a greater rank or none.
  later_pair :
      (r k : ℕ)
      → ((q : ℕ) → rank_of ranks a b ≡ some q → r < q)
      → ((j : ℕ) × (k ≡ (i + 1) + j) × First ranks (b ∷ pieces) j r)
      → (j : ℕ) × (k ≡ i + j) × First ranks (a ∷ b ∷ pieces) j r
  later_pair r k less (j, e, f) = (suc j, omega arith, (less, f))

  Best-cons :
      (o : Option ℕ) (best res : Option (ℕ × ℕ))
      → rank_of ranks a b ≡ o
      → Best ranks (b ∷ pieces) (i + 1) (better o i best) res
      → Best ranks (a ∷ b ∷ pieces) i best res
  unfolding better
  Best-cons none none none e h = (e, h)
  Best-cons none none (some (r, k)) e h = later_pair r k (λ q e'. no_rank q e e') h
  Best-cons none (some (br, bi)) none e h = h
  Best-cons none (some (br, bi)) (some (r, k)) e (inl (er, ek, least)) =
      inl (er, ek, ((λ q e'. no_rank q e e'), least))
  Best-cons none (some (br, bi)) (some (r, k)) e (inr (lt, first)) =
      inr (lt, later_pair r k (λ q e'. no_rank q e e') first)
  Best-cons (some s) none none e h = absurd h
  Best-cons (some s) none (some (r, k)) e (inl (er, ek, least)) =
      (zero, omega arith, (e ∙ ap some (sym er), least))
  Best-cons (some s) none (some (r, k)) e (inr (lt, first)) =
      later_pair r k (λ q e'. omega (arith, one_rank s q e e')) first
  Best-cons (some s) (some (br, bi)) res e h = elim (Bool-cases (ltb s br)) [
    | inl less ↦ improved (ground arith) res (rw less at h)
    | inr more ↦ kept (ground arith) res (rw more at h)
  ]
    where
      improved :
          s < br
          → (res : Option (ℕ × ℕ)) → Best ranks (b ∷ pieces) (i + 1) (some (s, i)) res
          → Best ranks (a ∷ b ∷ pieces) i (some (br, bi)) res
      improved lt none h = h
      improved lt (some (r, k)) (inl (er, ek, least)) =
          inr (omega arith, (zero, omega arith, (e ∙ ap some (sym er), least)))
      improved lt (some (r, k)) (inr (more, first)) =
          inr (omega arith, later_pair r k (λ q e'. omega (arith, one_rank s q e e')) first)

      kept :
          br ≤ s
          → (res : Option (ℕ × ℕ)) → Best ranks (b ∷ pieces) (i + 1) (some (br, bi)) res
          → Best ranks (a ∷ b ∷ pieces) i (some (br, bi)) res
      kept ge none h = h
      kept ge (some (r, k)) (inl (er, ek, least)) =
          inl (er, ek, ((λ q e'. omega (arith, one_rank s q e e')), least))
      kept ge (some (r, k)) (inr (lt, first)) =
          inr (lt, later_pair r k (λ q e'. omega (arith, one_rank s q e e')) first)

best_pair_lem :
    (ranks : Ranks) (pieces : List Text) (i : ℕ) (best : Option (ℕ × ℕ))
    → Best ranks pieces i best (best_pair ranks pieces i best)
unfolding best_pair better
best_pair_lem ranks [] i none = tt
best_pair_lem ranks [] i (some (br, bi)) = inl (refl, refl, tt)
best_pair_lem ranks (a ∷ []) i none = tt
best_pair_lem ranks (a ∷ []) i (some (br, bi)) = inl (refl, refl, tt)
best_pair_lem ranks (a ∷ b ∷ pieces) i best =
    Best-cons ranks a b pieces i (rank_of ranks a b) best _ refl
      (best_pair_lem ranks (b ∷ pieces) (i + 1) (better (rank_of ranks a b) i best))

-- `best_pair`, on all pieces: it finds no pair when none has a rank, or else the first pair of the
-- least rank.
pub best_pair-First :
    (ranks : Ranks) (pieces : List Text)
    → ((best_pair ranks pieces 0 none ≡ none) × Unranked ranks pieces)
      ⊎ ((r : ℕ) × (i : ℕ) × (best_pair ranks pieces 0 none ≡ some (r, i)) × First ranks pieces i r)
best_pair-First ranks pieces =
    let best = best_pair_lem ranks pieces 0 none in
    elim (Option-cases (best_pair ranks pieces 0 none)) [
      | inl e ↦ inl (e, subst (Best ranks pieces 0 none) e best)
      | inr ((r, i), e) ↦
          let (j, at, first) : (j : ℕ) × (i ≡ 0 + j) × First ranks pieces j r =
            subst (Best ranks pieces 0 none) e best in
          inr (r, i, e, subst (λ k. First ranks pieces k r) (omega arith) first)
    ]

abbrev pub concat : List Text → Text
concat [] = []
concat (p ∷ pieces) = p ++ concat pieces

append-ne-nil : (a b : Text) → a ≢ [] → a ++ b ≢ []
append-ne-nil [] b ne e = ne refl
append-ne-nil (c ∷ a) b ne e = ground arith

-- Merging makes the list shorter by one and leaves the text.
merge_at-First :
    (ranks : Ranks) (pieces : List Text) (i r : ℕ)
    → First ranks pieces i r
    → (concat (merge_at pieces i) ≡ concat pieces)
      × (length (merge_at pieces i) + 1 ≡ length pieces)
      × (All (λ p. p ≢ []) pieces → All (λ p. p ≢ []) (merge_at pieces i))
unfolding merge_at
merge_at-First ranks [] i r f = absurd f
merge_at-First ranks (a ∷ []) i r f = absurd f
merge_at-First ranks (a ∷ b ∷ pieces) zero r f =
    (append_assoc a b (concat pieces), omega arith, λ ne. (append-ne-nil a b ne.0, ne.1.1))
merge_at-First ranks (a ∷ b ∷ pieces) (suc i) r f =
    let (same, shorter, nonempty) = merge_at-First ranks (b ∷ pieces) i r f.1 in
    (ap (λ l. a ++ l) same, omega arith, λ ne. (ne.0, nonempty ne.1))

-- What the merging leaves: the text in pieces, none of them empty, no pair of which has a rank.
pub record Merged (ranks : Ranks) (text : Text) (pieces : List Text) : Type 0 where
  pub joined : concat pieces ≡ text
  pub nonempty : All (λ p. p ≢ []) pieces
  pub unranked : Unranked ranks pieces

merge_loop-Merged :
    (ranks : Ranks) (fuel : ℕ) (pieces : List Text)
    → length pieces ≤ fuel
    → All (λ p. p ≢ []) pieces
    → Merged ranks (concat pieces) (merge_loop ranks fuel pieces)
unfolding merge_loop
merge_loop-Merged ranks zero [] fits ne = record { joined = refl; nonempty = tt; unranked = tt }
merge_loop-Merged ranks zero (p ∷ pieces) fits ne = absurd (omega arith)
merge_loop-Merged ranks (suc fuel) pieces fits ne = elim (best_pair-First ranks pieces) [
  | inl (e, none_ranked) ↦
      rw (e, merge_loop) (record { joined = refl; nonempty = ne; unranked = none_ranked })
  | inr (r, i, e, first) ↦
      let (same, shorter, nonempty) = merge_at-First ranks pieces i r first in
      let rest = merge_loop-Merged ranks fuel (merge_at pieces i) (omega arith) (nonempty ne) in
      rw (e, merge_loop)
        (record { joined = rest.joined ∙ same; nonempty = rest.nonempty; unranked = rest.unranked })
]

singles : (text : Text) → concat (map (λ c. c ∷ []) text) ≡ text
singles [] = refl
singles (c ∷ text) = ap (◌∷◌ c) (singles text)

singles_nonempty : (text : Text) → All (λ p. p ≢ []) (map (λ c. c ∷ []) text)
singles_nonempty [] = tt
singles_nonempty (c ∷ text) = ((λ e. ground arith), singles_nonempty text)

-- The merging ends within its fuel: the pieces make up the text with its spaces marked, none is
-- empty, and no pair of neighbours has a rank.
pub pieces_of-Merged :
    (ranks : Ranks) (text : Text) → Merged ranks (normalize text) (pieces_of ranks text)
unfolding pieces_of
pieces_of-Merged ranks text =
    let start = map (λ c. c ∷ []) (normalize text) in
    subst (λ t. Merged ranks t (pieces_of ranks text)) (singles (normalize text))
      (merge_loop-Merged ranks (length start) start (omega arith)
        (singles_nonempty (normalize text)))
