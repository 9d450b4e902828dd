-- ===== src/Tokenizer/RoundTrip.antt =====
-- A text comes back from its tokens.
use mathlib.Core.List.{map-append}
use mathlib.Core.Option.{some-injective}
use free_token_rs.Prelude.{
  ℕ, ◌+◌, ◌<◌, ◌≡◌, ◌≢◌, refl, sym, ap, subst, ◌∙◌, inl, inr, false, none, some, List, [], ◌∷◌,
  ◌++◌, map, arith, append_assoc, append-nil, Bool-cases, Option-cases, All, All-left, All-right,
  All-append, length, get_elem?, ◌==◌,
}
use free_token_rs.Text.{Text, codes, starts_with}
use free_token_rs.Chars.{char_bytes, bytes}
use free_token_rs.Chars.Encoding.{IsScalar, bytes-append, run-bytes}
use free_token_rs.Gguf.File.{get}
use free_token_rs.Gguf.Utf8.{start}
use free_token_rs.Openai.Utf8.Run.{Within-start}
use free_token_rs.Openai.Utf8.Lossy.{lossy_whole}
use free_token_rs.Tokenizer.{Tokenizer}
use free_token_rs.Tokenizer.Bpe.{
  mark, mark_space, normalize, pieces_of, byte_name, byte_ids, piece_ids, all_ids, encode,
}
use free_token_rs.Tokenizer.Decode.{byte_of_piece, unmark_space, piece_bytes, decode_bytes, decode}
use free_token_rs.Tokenizer.Merge.{concat, pieces_of-Merged}
use free_token_rs.Tokenizer.Known.{
  byte_of_piece-byte_name, IsComplete, Known, NoByteName, merge_loop-Known, singles-Known,
  starts_with-longer, drop-append_add,
}

pub NoByteName-left : (p rest : Text) → NoByteName (p ++ rest) → starts_with p (codes "<0x") ≡ false
NoByteName-left p rest clear = elim (Bool-cases (starts_with p (codes "<0x"))) [
  | inl begins ↦ absurd (ground (arith, clear 0, starts_with-longer p rest (codes "<0x") begins))
  | inr not_so ↦ not_so
]

pub NoByteName-right : (p rest : Text) → NoByteName (p ++ rest) → NoByteName rest
NoByteName-right p rest clear q =
    ap (λ s. starts_with s (codes "<0x")) (sym (drop-append_add p rest q)) ∙ clear (length p + q)

char_bytes-small : (c : ℕ) → IsScalar c → All (λ b. b < 256) (char_bytes c)
unfolding char_bytes
char_bytes-small c ok = ground arith

bytes-small : (s : Text) → All IsScalar s → All (λ b. b < 256) (bytes s)
unfolding bytes
bytes-small [] ok = tt
bytes-small (c ∷ s) ok =
    All-append (λ b. b < 256) (char_bytes c) (bytes s) (char_bytes-small c ok.0)
      (bytes-small s ok.1)

pub decode_bytes-append :
    (t : Tokenizer) (a b : List ℕ) (s r : List ℕ)
    → decode_bytes t a ≡ some s
    → decode_bytes t b ≡ some r
    → decode_bytes t (a ++ b) ≡ some (s ++ r)
unfolding decode_bytes
decode_bytes-append t [] b s r e e' = e' ∙ ap (λ l. some (l ++ r)) (some-injective [] s e)
decode_bytes-append t (id ∷ a) b s r e e' = elim (Option-cases (get_elem? t.vocab id)) [
  | inl beyond ↦ absurd (ground (arith, e, beyond))
  | inr (piece, at) ↦ elim (Option-cases (decode_bytes t a)) [
    | inl bad ↦ absurd (ground (arith, e, at, bad))
    | inr (s', good) ↦
        let all : piece_bytes piece ++ s' ≡ s = ground (arith, e, at, good) in
        rw (at, decode_bytes-append t a b s' r good e')
          (ap some (sym (append_assoc (piece_bytes piece) s' r) ∙ ap (λ l. l ++ r) all))
  ]
]

pub byte_of_plain : (p : Text) → starts_with p (codes "<0x") ≡ false → byte_of_piece p ≡ none
unfolding byte_of_piece
byte_of_plain p clear = elim (Bool-cases (length (bytes p) == 6)) [
  | inl six ↦ rw (six, clear) refl
  | inr other ↦ rw other refl
]

unmark_other : (c : ℕ) → c ≢ mark → c ≡ unmark_space c
unfolding unmark_space
unmark_other c other = ground (arith, other)

unmark_mark_space : (c : ℕ) → c ≢ mark → unmark_space (mark_space c) ≡ c
unfolding unmark_space mark_space
unmark_mark_space c other = ground (arith, other)

mark_space-IsScalar : (c : ℕ) → IsScalar c → IsScalar (mark_space c)
unfolding mark_space
mark_space-IsScalar c ok = ground arith

pub unmark-mark :
    (text : Text) → All (λ c. c ≢ mark) text → map unmark_space (normalize text) ≡ text
unfolding normalize
unmark-mark [] h = refl
unmark-mark (c ∷ text) h =
    ap (λ x. x ∷ map unmark_space (normalize text)) (unmark_mark_space c h.0)
    ∙ ap (◌∷◌ c) (unmark-mark text h.1)

normalize-IsScalar : (text : Text) → All IsScalar text → All IsScalar (normalize text)
unfolding normalize
normalize-IsScalar [] ok = tt
normalize-IsScalar (c ∷ text) ok = (mark_space-IsScalar c ok.0, normalize-IsScalar text ok.1)

module _ (t : Tokenizer) (full : IsComplete t) where
  pub decode-id :
      (p : Text) (id : ℕ)
      → get t.id_of p ≡ some id
      → decode_bytes t (id ∷ []) ≡ some (piece_bytes p)
  unfolding decode_bytes
  decode-id p id e = rw (full.vocab.points p id e) (ap some (append-nil (piece_bytes p)))

  decode-byte_ids :
      (s : List ℕ) → All (λ b. b < 256) s → decode_bytes t (byte_ids t.id_of s) ≡ some s
  unfolding byte_ids piece_bytes decode_bytes
  decode-byte_ids [] small = refl
  decode-byte_ids (b ∷ s) small =
      let (id, e) = full.of_byte b small.0 in
      let one : decode_bytes t (id ∷ []) ≡ some (b ∷ []) =
        decode-id (byte_name b) id e ∙ rw (byte_of_piece-byte_name b small.0, piece_bytes) refl in
      rw (e, byte_ids)
        (decode_bytes-append t (id ∷ []) (byte_ids t.id_of s) (b ∷ []) s one
          (decode-byte_ids s small.1))

  decode-piece_ids :
      (p : Text)
      → Known t.id_of p
      → All IsScalar p
      → starts_with p (codes "<0x") ≡ false
      → decode_bytes t (piece_ids t.id_of p) ≡ some (bytes (map unmark_space p))
  unfolding piece_ids piece_bytes
  decode-piece_ids p known ok clear = elim (Option-cases (get t.id_of p)) [
    | inl none_at ↦ elim known [
      | inl (id, e) ↦ absurd (ground (arith, none_at, e))
      | inr (c, single, other) ↦
          rw (none_at, piece_ids)
            (decode-byte_ids (bytes p) (bytes-small p ok)
              ∙ ap some (ap bytes (plain p c single other)))
    ]
    | inr (id, e) ↦
        rw (e, piece_ids)
          (decode-id p id e ∙ ap some (rw (byte_of_plain p clear, piece_bytes) refl))
  ]
    where
      plain : (p : Text) (c : ℕ) → p ≡ c ∷ [] → c ≢ mark → p ≡ map unmark_space p
      plain p c single other =
          let same : c ≡ unmark_space c = unmark_other c other in
          single ∙ ap (λ x. x ∷ []) same ∙ sym (ap (map unmark_space) single)

  decode-all_ids :
      (pieces : List Text)
      → All (Known t.id_of) pieces
      → All IsScalar (concat pieces)
      → NoByteName (concat pieces)
      → decode_bytes t (all_ids t.id_of pieces) ≡ some (bytes (map unmark_space (concat pieces)))
  unfolding all_ids decode_bytes bytes
  decode-all_ids [] known ok clear = refl
  decode-all_ids (p ∷ pieces) known ok clear =
      let rest = concat pieces in
      decode_bytes-append t (piece_ids t.id_of p) (all_ids t.id_of pieces) _ _
        (decode-piece_ids p known.0 (All-left IsScalar p rest ok) (NoByteName-left p rest clear))
        (decode-all_ids pieces known.1 (All-right IsScalar p rest ok)
          (NoByteName-right p rest clear))
      ∙ ap some (
          sym (bytes-append (map unmark_space p) (map unmark_space rest))
          ∙ ap bytes (sym (map-append unmark_space p rest)))

  -- `decode_bytes` of the tokens of a text is the UTF-8 of the text: with a vocabulary that agrees
  -- with its ids and has tokens for each byte, for the mark of a space and for what each merge makes,
  -- and a text of characters in which neither that mark nor `<0x` stands.
  pub decode_bytes-encode :
      (text : Text)
      → All IsScalar text
      → All (λ c. c ≢ mark) text
      → NoByteName (normalize text)
      → decode_bytes t (encode t text) ≡ some (bytes text)
  unfolding encode pieces_of
  decode_bytes-encode text ok unmarked clear =
      let pieces = pieces_of t.merge_rank text in
      let merged = pieces_of-Merged t.merge_rank text in
      let joined = sym merged.joined in
      decode-all_ids pieces
        (merge_loop-Known t.id_of t.merge_rank _ _ full.of_merge
          (singles-Known t.id_of full.of_mark (normalize text)))
        (subst (All IsScalar) joined (normalize-IsScalar text ok)) (subst NoByteName joined clear)
      ∙ ap (λ s. some (bytes (map unmark_space s))) merged.joined
      ∙ ap (λ s. some (bytes s)) (unmark-mark text unmarked)

  -- The same of `decode`, which replaces what is not well-formed.
  pub decode-encode :
      (text : Text)
      → All IsScalar text
      → All (λ c. c ≢ mark) text
      → NoByteName (normalize text)
      → decode t (encode t text) ≡ some (bytes text)
  unfolding decode
  decode-encode text ok unmarked clear =
      rw (decode_bytes-encode text ok unmarked clear)
        (ap some (lossy_whole (bytes text) [] start Within-start (run-bytes text ok)))
