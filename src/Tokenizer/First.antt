-- ===== src/Tokenizer/First.antt =====
-- The first special token in a text.
use mathlib.Core.Option.{some-injective}
use free_token_rs.Prelude.{
  ℕ, zero, suc, ◌+◌, ◌≤◌, ◌<◌, ◌≡◌, refl, sym, ap, subst, ◌∙◌, inl, inr, ◌⊎◌, true, Option, none,
  some, List, [], ◌∷◌, ◌++◌, arith, Bool-cases, Option-cases, All, Among, length, length-take,
  length-drop, take, drop, take-append-drop, ltb,
}
use free_token_rs.Text.{Text, find, starts_with, Finds, find-Finds, drop-nil, drop-append_lt}
use native.Mathlib.Decide.{dec_lt}
use free_token_rs.Tokenizer.Known.{starts_with-longer}
use free_token_rs.Tokenizer.Specials.{earlier, first_special}

-- The special does not stand before position `pos`.
abbrev pub NotBefore : Text → ℕ → Text → Type 0
NotBefore rest pos sp = (q : ℕ) → find rest sp ≡ some q → pos ≤ q

-- What the loop over the specials finds, with the first one so far.
abbrev pub FirstOf : Text → List Text → Option (ℕ × Text) → Option (ℕ × Text) → Type 0
FirstOf rest sps none none = All (λ sp. find rest sp ≡ none) sps
FirstOf rest sps (some f) none = ⊥
FirstOf rest sps none (some (pos, sp)) =
    (find rest sp ≡ some pos) × Among sp sps × All (NotBefore rest pos) sps
FirstOf rest sps (some (fp, s)) (some (pos, sp)) =
    (((pos ≡ fp) × (sp ≡ s)) ⊎ ((pos < fp) × (find rest sp ≡ some pos) × Among sp sps))
    × All (NotBefore rest pos) sps

one : {o : Option ℕ} (p q : ℕ) → o ≡ some p → o ≡ some q → p ≡ q
one p q e e' = some-injective p q (sym e ∙ e')

module _ (rest s : Text) (sps : List Text) where
  FirstOf-cons :
      (o : Option ℕ) (first res : Option (ℕ × Text))
      → find rest s ≡ o
      → FirstOf rest sps (earlier o s first) res
      → FirstOf rest (s ∷ sps) first res
  unfolding earlier
  FirstOf-cons none none none e h = (e, h)
  FirstOf-cons none none (some (pos, sp)) e (at, among, all) =
      (at, inr among, ((λ q e'. absurd (ground (arith, e, e'))), all))
  FirstOf-cons none (some f) none e h = h
  FirstOf-cons none (some (fp, fs)) (some (pos, sp)) e (inl same, all) =
      (inl same, ((λ q e'. absurd (ground (arith, e, e'))), all))
  FirstOf-cons none (some (fp, fs)) (some (pos, sp)) e (inr (lt, at, among), all) =
      (inr (lt, at, inr among), ((λ q e'. absurd (ground (arith, e, e'))), all))
  FirstOf-cons (some p) none none e h = absurd h
  FirstOf-cons (some p) none (some (pos, sp)) e (inl (same, eq), all) = (
    ap (find rest) eq ∙ e ∙ ap some (sym same),
    inl eq,
    ((λ q e'. omega (arith, one p q e e')), all),
  )
  FirstOf-cons (some p) none (some (pos, sp)) e (inr (lt, at, among), all) =
      (at, inr among, ((λ q e'. omega (arith, one p q e e')), all))
  FirstOf-cons (some p) (some (fp, fs)) res e h = elim (Bool-cases (ltb p fp)) [
    | inl less ↦ improved (ground arith) res (rw less at h)
    | inr more ↦ kept (ground arith) res (rw more at h)
  ]
    where
      improved :
          p < fp
          → (res : Option (ℕ × Text)) → FirstOf rest sps (some (p, s)) res
          → FirstOf rest (s ∷ sps) (some (fp, fs)) res
      improved lt none h = h
      improved lt (some (pos, sp)) (inl (same, eq), all) = (
        inr (omega arith, ap (find rest) eq ∙ e ∙ ap some (sym same), inl eq),
        ((λ q e'. omega (arith, one p q e e')), all),
      )
      improved lt (some (pos, sp)) (inr (more, at, among), all) =
          (inr (omega arith, at, inr among), ((λ q e'. omega (arith, one p q e e')), all))

      kept :
          fp ≤ p
          → (res : Option (ℕ × Text)) → FirstOf rest sps (some (fp, fs)) res
          → FirstOf rest (s ∷ sps) (some (fp, fs)) res
      kept ge none h = h
      kept ge (some (pos, sp)) (inl (same, eq), all) =
          (inl (same, eq), ((λ q e'. omega (arith, one p q e e')), all))
      kept ge (some (pos, sp)) (inr (lt, at, among), all) =
          (inr (lt, at, inr among), ((λ q e'. omega (arith, one p q e e')), all))

pub first_special_lem :
    (rest : Text) (sps : List Text) (first : Option (ℕ × Text))
    → FirstOf rest sps first (first_special rest sps first)
unfolding first_special
first_special_lem rest [] none = tt
first_special_lem rest [] (some (fp, s)) = (inl (refl, refl), tt)
first_special_lem rest (s ∷ sps) first =
    FirstOf-cons rest s sps (find rest s) first _ refl
      (first_special_lem rest sps (earlier (find rest s) s first))

starts_with_split : (t s : Text) → starts_with t s ≡ true → t ≡ s ++ drop (length s) t
unfolding starts_with
starts_with_split t [] h = refl
starts_with_split [] (c ∷ s) h = absurd (ground arith)
starts_with_split (d ∷ t) (c ∷ s) h = ground (arith, starts_with_split t s)

drop_add : (a b : ℕ) (t : Text) → drop b (drop a t) ≡ drop (a + b) t
drop_add zero b t = ap (λ n. drop n t) (omega arith)
drop_add (suc a) b [] = drop-nil b ∙ sym (drop-nil (suc a + b))
drop_add (suc a) b (c ∷ t) =
    let e : suc (a + b) ≡ suc a + b = omega arith in drop_add a b t ∙ ap (λ n. drop n (c ∷ t)) e

-- A text that a special first stands in at `pos` is what is before, the special, and the rest.
pub cut_at :
    (t sp : Text) (pos : ℕ)
    → find t sp ≡ some pos
    → t ≡ take pos t ++ (sp ++ drop (pos + length sp) t)
cut_at t sp pos e =
    let found = subst (Finds t sp) e (find-Finds t sp) in
    sym (take-append-drop pos t)
    ∙ ap (λ l. take pos t ++ l)
        (starts_with_split (drop pos t) sp found.0 ∙ ap (λ l. sp ++ l) (drop_add pos (length sp) t))

pub starts_with-length : (t s : Text) → starts_with t s ≡ true → length s ≤ length t
unfolding starts_with
starts_with-length t [] h = omega arith
starts_with-length [] (c ∷ s) h = absurd (ground arith)
starts_with-length (d ∷ t) (c ∷ s) h = ground (arith, starts_with-length t s)

-- What stands at `q` in a text is found at `q` or before.
stands-find :
    (t sp : Text) (q : ℕ)
    → 0 < length sp
    → starts_with (drop q t) sp ≡ true
    → (p : ℕ) × (find t sp ≡ some p) × (p ≤ q)
stands-find t sp q long stands = elim (Option-cases (find t sp)) [
  | inl none_at ↦
      let nowhere = subst (Finds t sp) none_at (find-Finds t sp) in
      absurd (ground (arith, stands, nowhere q (λ e. ground (arith, e))))
  | inr (p, at) ↦
      let found = subst (Finds t sp) at (find-Finds t sp) in
      (
        p,
        at,
        elim (dec_lt q p) [
          | yes lt ↦ absurd (ground (arith, stands, found.1 q lt))
          | no ge ↦ omega arith
        ],
      )
]

-- A special that stands nowhere before `pos` is not in the text before it.
pub find-take :
    (t sp : Text) (pos : ℕ) → 0 < length sp → NotBefore t pos sp → find (take pos t) sp ≡ none
find-take t sp pos long far = elim (Option-cases (find (take pos t) sp)) [
  | inl none_at ↦ none_at
  | inr (q, e) ↦
      let found = subst (Finds (take pos t) sp) e (find-Finds (take pos t) sp) in
      let room = starts_with-length (drop q (take pos t)) sp found.0 in
      let short : q < pos = omega (arith, length-drop q (take pos t), length-take pos t) in
      let whole : drop q (take pos t) ++ drop pos t ≡ drop q t =
        sym (drop-append_lt q (take pos t) (drop pos t) found.2)
        ∙ ap (drop q) (take-append-drop pos t) in
      let stands =
        subst (λ l. starts_with l sp ≡ true) whole
          (starts_with-longer (drop q (take pos t)) (drop pos t) sp found.0) in
      let (p, at, le) = stands-find t sp q long stands in absurd (omega (arith, far p at))
]
