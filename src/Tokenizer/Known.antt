-- ===== src/Tokenizer/Known.antt =====
-- The pieces of a complete vocabulary: each has a token or is one character.
use free_token_rs.Prelude.{
  ℕ, zero, suc, ◌+◌, ◌<◌, ◌≡◌, ◌≢◌, refl, sym, ap, subst, ◌∙◌, inl, inr, ◌⊎◌, Bool, true, false,
  none, some, List, [], ◌∷◌, ◌++◌, map, arith, Bool-cases, Option-cases, All, length, drop, ◌==◌,
  ==_iff, check_below, checked,
}
use free_token_rs.Text.{Text, codes, starts_with, ends_with, text_eq}
use free_token_rs.Chars.{char_bytes, bytes}
use free_token_rs.Tokenizer.{Ids, Ranks, rank_of, Tokenizer}
use free_token_rs.Tokenizer.Bpe.{mark, merge_at, merge_loop, hex_digit, byte_name}
use free_token_rs.Tokenizer.Decode.{hex_value, parse_hex, byte_of_piece}
use free_token_rs.Tokenizer.Merge.{First, best_pair-First}
use free_token_rs.Tokenizer.Vocab.{Has, IsVocab}

-- The name of a byte is read as that byte.
names_byte : ℕ → Bool
names_byte b = elim (byte_of_piece (byte_name b)) [ some x ↦ x == b | none ↦ false ]

byte_table : check_below names_byte 256 ≡ true
unfolding names_byte check_below byte_of_piece byte_name parse_hex hex_value hex_digit bytes
    char_bytes starts_with ends_with text_eq
byte_table = refl

pub byte_of_piece-byte_name : (b : ℕ) → b < 256 → byte_of_piece (byte_name b) ≡ some b
unfolding names_byte
byte_of_piece-byte_name b lt = elim (Option-cases (byte_of_piece (byte_name b))) [
  | inl no_byte ↦ absurd (ground (arith, no_byte, checked names_byte 256 b byte_table lt))
  | inr (x, e) ↦ e ∙ ap some (ground (arith, e, checked names_byte 256 b byte_table lt))
]

-- A vocabulary with a token for each byte and for the mark of a space, and for what each merge
-- makes.
pub record IsComplete (t : Tokenizer) : Type 0 where
  pub vocab : IsVocab t
  pub of_byte : (b : ℕ) → b < 256 → Has t.id_of (byte_name b)
  pub of_mark : Has t.id_of (mark ∷ [])
  pub of_merge : (a b : Text) (r : ℕ) → rank_of t.merge_rank a b ≡ some r → Has t.id_of (a ++ b)

-- A piece that has a token, or is one character that is not the mark.
abbrev pub Known : Ids → Text → Type 0
Known ids p = Has ids p ⊎ ((c : ℕ) × (p ≡ c ∷ []) × (c ≢ mark))

-- The text `<0x` stands nowhere in it.
abbrev pub NoByteName : Text → Type 0
NoByteName s = (q : ℕ) → starts_with (drop q s) (codes "<0x") ≡ false

merge_at-Known :
    (ids : Ids) (ranks : Ranks) (pieces : List Text) (i r : ℕ)
    → ((a b : Text) (q : ℕ) → rank_of ranks a b ≡ some q → Has ids (a ++ b))
    → First ranks pieces i r
    → All (Known ids) pieces
    → All (Known ids) (merge_at pieces i)
unfolding merge_at
merge_at-Known ids ranks [] i r made f h = tt
merge_at-Known ids ranks (a ∷ []) i r made f h = absurd f
merge_at-Known ids ranks (a ∷ b ∷ pieces) zero r made f h = (inl (made a b r f.0), h.1.1)
merge_at-Known ids ranks (a ∷ b ∷ pieces) (suc i) r made f h =
    (h.0, merge_at-Known ids ranks (b ∷ pieces) i r made f.1 h.1)

pub merge_loop-Known :
    (ids : Ids) (ranks : Ranks) (fuel : ℕ) (pieces : List Text)
    → ((a b : Text) (q : ℕ) → rank_of ranks a b ≡ some q → Has ids (a ++ b))
    → All (Known ids) pieces
    → All (Known ids) (merge_loop ranks fuel pieces)
unfolding merge_loop
merge_loop-Known ids ranks zero pieces made h = h
merge_loop-Known ids ranks (suc fuel) pieces made h = elim (best_pair-First ranks pieces) [
  | inl (e, none_ranked) ↦ rw (e, merge_loop) h
  | inr (r, i, e, first) ↦
      rw (e, merge_loop)
        (merge_loop-Known ids ranks fuel (merge_at pieces i) made
          (merge_at-Known ids ranks pieces i r made first h))
]

pub singles-Known :
    (ids : Ids) → Has ids (mark ∷ []) → (text : Text) → All (Known ids) (map (λ c. c ∷ []) text)
singles-Known ids of_mark [] = tt
singles-Known ids of_mark (c ∷ text) = (single, singles-Known ids of_mark text)
  where
    single : Known ids (c ∷ [])
    single = elim (Bool-cases (c == mark)) [
      | inl same ↦ inl (subst (λ x. Has ids (x ∷ [])) (sym ((==_iff c mark).0 same)) of_mark)
      | inr other ↦ inr (c, refl, λ e. ground (arith, other, e))
    ]

pub starts_with-longer :
    (p rest m : Text) → starts_with p m ≡ true → starts_with (p ++ rest) m ≡ true
unfolding starts_with
starts_with-longer p rest [] h = refl
starts_with-longer [] rest (c ∷ m) h = absurd (ground arith)
starts_with-longer (d ∷ p) rest (c ∷ m) h = ground (arith, starts_with-longer p rest m)

pub drop-append_add : (p rest : Text) (q : ℕ) → drop (length p + q) (p ++ rest) ≡ drop q rest
drop-append_add [] rest q = ap (λ k. drop k rest) (omega arith)
drop-append_add (c ∷ p) rest q =
    let e : suc (length p) + q ≡ suc (length p + q) = omega arith in
    ap (λ k. drop k (c ∷ (p ++ rest))) e ∙ drop-append_add p rest q
