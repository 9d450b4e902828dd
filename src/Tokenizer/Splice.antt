-- ===== src/Tokenizer/Splice.antt =====
-- What `encode_with_specials` does: the text falls into special tokens and parts without any.
use free_token_rs.Prelude.{
  ℕ, zero, suc, ◌+◌, ◌≤◌, ◌<◌, ◌≡◌, ◌≢◌, refl, sym, ap, subst, inl, inr, true, none, some, List, [],
  ◌∷◌, ◌++◌, arith, append-nil, Option-cases, All, Among, Among-All, length, length-drop, take,
  drop, ltb,
}
use free_token_rs.Text.{Text, find, Finds, find-Finds}
use free_token_rs.Tokenizer.{Tokenizer}
use free_token_rs.Tokenizer.Bpe.{encode}
use free_token_rs.Tokenizer.Specials.{
  specials, first_special, special_ids, before_ids, specials_loop, encode_with_specials,
}
use free_token_rs.Tokenizer.First.{NotBefore, FirstOf, first_special_lem, cut_at, find-take}

-- A part of a text: a special token, or text between them.
pub data Part : Type 0 where
  plain special : Text → Part

abbrev pub part_text : Part → Text
part_text (plain p) = p
part_text (special sp) = sp

abbrev pub part_ids : Tokenizer → Part → List ℕ
part_ids t (plain p) = encode t p
part_ids t (special sp) = special_ids t sp

abbrev pub all_text : List Part → Text
all_text [] = []
all_text (p ∷ parts) = part_text p ++ all_text parts

abbrev pub all_part_ids : Tokenizer → List Part → List ℕ
all_part_ids t [] = []
all_part_ids t (p ∷ parts) = part_ids t p ++ all_part_ids t parts

-- A special part is one of the special tokens; a plain part is not empty and holds none of them.
abbrev pub IsPart : Part → Type 0
IsPart (plain p) = (p ≢ []) × All (λ sp. find p sp ≡ none) specials
IsPart (special sp) = Among sp specials

-- The text falls into parts, and the ids are those of the parts in order.
pub record Spliced (t : Tokenizer) (text : Text) (ids : List ℕ) : Type 0 where
  pub parts : List Part
  pub joined : all_text parts ≡ text
  pub coded : ids ≡ all_part_ids t parts
  pub apart : All IsPart parts

Spliced-special :
    (t : Tokenizer) (sp rest : Text) (ids : List ℕ)
    → Among sp specials
    → Spliced t rest ids
    → Spliced t (sp ++ rest) (special_ids t sp ++ ids)
Spliced-special t sp rest ids among s = record {
  parts = special sp ∷ s.parts;
  joined = ap (λ l. sp ++ l) s.joined;
  coded = ap (λ l. special_ids t sp ++ l) s.coded;
  apart = (among, s.apart);
}

Spliced-plain :
    (t : Tokenizer) (p rest : Text) (ids : List ℕ)
    → IsPart (plain p)
    → Spliced t rest ids
    → Spliced t (p ++ rest) (encode t p ++ ids)
Spliced-plain t p rest ids is_part s = record {
  parts = plain p ∷ s.parts;
  joined = ap (λ l. p ++ l) s.joined;
  coded = ap (λ l. encode t p ++ l) s.coded;
  apart = (is_part, s.apart);
}

specials_long : All (λ sp. 0 < length sp) specials
specials_long = omega arith

-- What stands before the first special is encoded, unless it is empty.
Spliced-before :
    (t : Tokenizer) (text rest : Text) (pos : ℕ) (ids : List ℕ)
    → pos ≤ length text
    → All (λ sp. find (take pos text) sp ≡ none) specials
    → Spliced t rest ids
    → Spliced t (take pos text ++ rest) (before_ids t text pos ++ ids)
unfolding before_ids
Spliced-before t text rest zero ids le clear s = s
Spliced-before t [] rest (suc pos) ids le clear s = absurd (omega arith)
Spliced-before t (c ∷ text) rest (suc pos) ids le clear s =
    let positive : ltb 0 (suc pos) ≡ true = ground arith in
    rw positive (Spliced-plain t (c ∷ take pos text) rest ids ((λ e. ground (arith, e)), clear) s)

find-le : (text sp : Text) (pos : ℕ) → find text sp ≡ some pos → pos ≤ length text
find-le text sp pos e = (subst (Finds text sp) e (find-Finds text sp)).2

each_clear :
    (text : Text) (pos : ℕ) (sps : List Text)
    → All (λ sp. 0 < length sp) sps
    → All (NotBefore text pos) sps
    → All (λ sp. find (take pos text) sp ≡ none) sps
each_clear text pos [] long far = tt
each_clear text pos (sp ∷ sps) long far =
    (find-take text sp pos long.0 far.0, each_clear text pos sps long.1 far.1)

specials_loop-Spliced :
    (t : Tokenizer) (fuel : ℕ) (text : Text)
    → length text ≤ fuel
    → Spliced t text (specials_loop t fuel text)
unfolding specials_loop
specials_loop-Spliced t zero [] fits = record {
  parts = [];
  joined = refl;
  coded = refl;
  apart = tt;
}
specials_loop-Spliced t zero (c ∷ text) fits = absurd (omega arith)
specials_loop-Spliced t (suc fuel) [] fits = record {
  parts = [];
  joined = refl;
  coded = refl;
  apart = tt;
}
specials_loop-Spliced t (suc fuel) (c ∷ text) fits =
    let whole = c ∷ text in
    let first = first_special_lem whole specials none in
    elim (Option-cases (first_special whole specials none)) [
      | inl e ↦
          let clear : All (λ sp. find whole sp ≡ none) specials =
            subst (FirstOf whole specials none) e first in
          rw (e, specials_loop)
            (record {
              parts = plain whole ∷ [];
              joined = append-nil whole;
              coded = sym (append-nil (encode t whole));
              apart = (((λ n. ground (arith, n)), clear), tt);
            })
      | inr ((pos, sp), e) ↦
          let (at, among, far) : (find whole sp ≡ some pos)
              × Among sp specials
              × All (NotBefore whole pos) specials =
            subst (FirstOf whole specials none) e first in
          let long = Among-All (λ s. 0 < length s) sp specials specials_long among in
          let left = drop (pos + length sp) whole in
          let rest =
            specials_loop-Spliced t fuel left
              (omega (arith, length-drop (pos + length sp) whole)) in
          let ids = specials_loop t fuel left in
          rw (e, specials_loop)
            (subst (λ l. Spliced t l (before_ids t whole pos ++ (special_ids t sp ++ ids)))
              (sym (cut_at whole sp pos at))
              (Spliced-before t whole (sp ++ left) pos (special_ids t sp ++ ids)
                (find-le whole sp pos at) (each_clear whole pos specials specials_long far)
                (Spliced-special t sp left ids among rest)))
    ]

pub encode_with_specials-Spliced :
    (t : Tokenizer) (text : Text) → Spliced t text (encode_with_specials t text)
unfolding encode_with_specials
encode_with_specials-Spliced t text = specials_loop-Spliced t (length text) text (omega arith)
