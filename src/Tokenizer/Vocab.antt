-- ===== src/Tokenizer/Vocab.antt =====
-- The vocabulary of `from_gguf`: ids and entries agree.
use mathlib.Core.Option.{some-injective}
use free_token_rs.Prelude.{
  ℕ, ◌+◌, ◌%◌, ◌≤◌, ◌≡◌, refl, sym, ap, subst, ◌∙◌, inl, inr, some, List, [], ◌∷◌, ◌++◌, arith,
  append_assoc, Bool-cases, Option-cases, All, length, length-append, get_elem?, ok, u32_mod,
  if◌then◌else◌,
}
use free_token_rs.Text.{Text, text_eq, text_eq_refl, eq_of_text_eq}
use free_token_rs.Gguf.File.{Gguf, insert, get}
use free_token_rs.Tokenizer.{Ids, number, Tokenizer, array_of, texts_of, with_vocab, from_gguf}

-- A text that has an id.
abbrev pub Has : Ids → Text → Type 0
Has ids s = (id : ℕ) × (get ids s ≡ some id)

-- The entry of an id is the text that has it.
abbrev pub Points : List Text → Ids → Type 0
Points vocab ids = (s : Text) (id : ℕ) → get ids s ≡ some id → get_elem? vocab id ≡ some s

get-insert :
    (ids : Ids) (s t : Text) (n : ℕ)
    → get (insert ids s n) t ≡ (if text_eq s t then some n else get ids t)
unfolding get
get-insert ids s t n = refl

get_elem?-middle :
    (done vocab : List Text) (s : Text) → get_elem? (done ++ s ∷ vocab) (length done) ≡ some s
get_elem?-middle [] vocab s = refl
get_elem?-middle (x ∷ done) vocab s = get_elem?-middle done vocab s

Points-insert :
    (whole : List Text) (ids : Ids) (s : Text) (n : ℕ)
    → get_elem? whole n ≡ some s
    → Points whole ids
    → Points whole (insert ids s n)
Points-insert whole ids s n at points t id e = elim (Bool-cases (text_eq s t)) [
  | inl same ↦
      let e' : some n ≡ some id = rw same at (sym (get-insert ids s t n) ∙ e) in
      subst (λ k. get_elem? whole k ≡ some t) (some-injective n id e')
        (at ∙ ap some (eq_of_text_eq s t same))
  | inr other ↦ points t id (rw other at (sym (get-insert ids s t n) ∙ e))
]

number-Points :
    (done vocab : List Text) (ids : Ids)
    → length done + length vocab ≤ u32_mod
    → Points (done ++ vocab) ids
    → Points (done ++ vocab) (number vocab (length done) ids)
unfolding number
number-Points done [] ids fits points = points
number-Points done (s ∷ vocab) ids fits points =
    let whole = done ++ s ∷ vocab in
    let i = length done in
    let small : i ≡ i % u32_mod = omega arith in
    let at = subst (λ k. get_elem? whole k ≡ some s) small (get_elem?-middle done vocab s) in
    let snoc = append_assoc done (s ∷ []) vocab in
    let longer : length (done ++ s ∷ []) ≡ i + 1 = omega (arith, length-append done (s ∷ [])) in
    let rest = number-Points (done ++ s ∷ []) vocab (insert ids s (i % u32_mod)) (omega arith) (
      subst (λ w. Points w (insert ids s (i % u32_mod))) (sym snoc)
        (Points-insert whole ids s (i % u32_mod) at points)) in
    subst (λ k. Points whole (number vocab k (insert ids s (i % u32_mod)))) longer
      (subst (λ w. Points w (number vocab (length (done ++ s ∷ [])) (insert ids s (i % u32_mod))))
        snoc rest)

Has-insert : (ids : Ids) (s t : Text) (n : ℕ) → Has ids t → Has (insert ids s n) t
Has-insert ids s t n (id, e) = elim (Bool-cases (text_eq s t)) [
  | inl same ↦ (n, get-insert ids s t n ∙ rw same refl)
  | inr other ↦ (id, get-insert ids s t n ∙ rw other e)
]

Has-insert_self : (ids : Ids) (s : Text) (n : ℕ) → Has (insert ids s n) s
Has-insert_self ids s n = (n, get-insert ids s s n ∙ rw (text_eq_refl s) refl)

Has-number :
    (vocab : List Text) (i : ℕ) (ids : Ids) (t : Text) → Has ids t → Has (number vocab i ids) t
unfolding number
Has-number [] i ids t h = h
Has-number (s ∷ vocab) i ids t h =
    Has-number vocab (i + 1) (insert ids s (i % u32_mod)) t (Has-insert ids s t (i % u32_mod) h)

number-Has : (vocab : List Text) (i : ℕ) (ids : Ids) → All (Has (number vocab i ids)) vocab
unfolding number
number-Has [] i ids = tt
number-Has (s ∷ vocab) i ids = (
  Has-number vocab (i + 1) (insert ids s (i % u32_mod)) s (Has-insert_self ids s (i % u32_mod)),
  number-Has vocab (i + 1) (insert ids s (i % u32_mod)),
)

-- Ids and entries agree: the entry of an id is the text that has it, and each entry has an id.
pub record IsVocab (t : Tokenizer) : Type 0 where
  pub points : Points t.vocab t.id_of
  pub each : All (Has t.id_of) t.vocab

number-IsVocab :
    (vocab : List Text)
    → length vocab ≤ u32_mod
    → Points vocab (number vocab 0 []) × All (Has (number vocab 0 [])) vocab
unfolding get
number-IsVocab vocab fits = (
  number-Points [] vocab [] (omega arith) (λ s id e. absurd (empty s id e)),
  number-Has vocab 0 [],
)
  where
    empty : (s : Text) (id : ℕ) → get {A = ℕ} [] s ≡ some id → ⊥
    empty s id e = ground arith

ids_of_vocab :
    (g : Gguf) (vocab : List Text) (t : Tokenizer)
    → with_vocab g vocab ≡ ok t
    → t.id_of ≡ number t.vocab 0 []
unfolding with_vocab
ids_of_vocab g vocab t e = ground arith

ids_of_file : (g : Gguf) (t : Tokenizer) → from_gguf g ≡ ok t → t.id_of ≡ number t.vocab 0 []
unfolding from_gguf
ids_of_file g t e = elim (Option-cases (array_of g "tokenizer.ggml.tokens")) [
  | inl missing ↦ absurd (ground (arith, e, missing))
  | inr (vs, found) ↦ ids_of_vocab g (texts_of vs) t (rw (found, from_gguf) at e)
]

-- A vocabulary that is read from a file, and whose entries a `u32` counts: the entry of each id is
-- the text that has the id, and each entry has an id.
pub from_gguf-IsVocab :
    (g : Gguf) (t : Tokenizer) → from_gguf g ≡ ok t → length t.vocab ≤ u32_mod → IsVocab t
from_gguf-IsVocab g t e fits =
    let (points, each) = number-IsVocab t.vocab fits in
    let same = sym (ids_of_file g t e) in
    record {
      points = subst (Points t.vocab) same points;
      each = subst (λ ids. All (Has ids) t.vocab) same each;
    }
