-- ===== src/Tokenizer/Whole.antt =====
-- A text with special tokens comes back from its tokens.
use mathlib.Core.List.{map-append}
use free_token_rs.Prelude.{
  ◌≡◌, ◌≢◌, refl, sym, ap, subst, ◌∙◌, inl, inr, false, some, List, [], ◌∷◌, ◌++◌, map, arith,
  Option-cases, All, All-left, All-right, Among-All, length, length-drop, drop, ◌≤◌, true,
  Bool-cases,
}
use free_token_rs.Text.{Text, codes, starts_with, drop-append_lt}
use free_token_rs.Chars.{bytes}
use free_token_rs.Chars.Encoding.{IsScalar, bytes-append, run-bytes}
use free_token_rs.Gguf.File.{get}
use free_token_rs.Gguf.Utf8.{start}
use free_token_rs.Openai.Utf8.Run.{Within-start}
use free_token_rs.Openai.Utf8.Lossy.{lossy_whole}
use free_token_rs.Tokenizer.{Tokenizer}
use free_token_rs.Tokenizer.Bpe.{mark, mark_space, normalize}
use free_token_rs.Tokenizer.Decode.{unmark_space, piece_bytes, decode_bytes, decode}
use free_token_rs.Tokenizer.Specials.{specials, special_ids, encode_with_specials}
use free_token_rs.Tokenizer.Known.{IsComplete, NoByteName, starts_with-longer}
use free_token_rs.Tokenizer.First.{starts_with-length}
use free_token_rs.Tokenizer.RoundTrip.{
  NoByteName-right, decode_bytes-append, byte_of_plain, decode-id, decode_bytes-encode,
}
use free_token_rs.Tokenizer.Splice.{
  Part, plain, special, part_text, part_ids, all_text, all_part_ids, IsPart,
  encode_with_specials-Spliced,
}

-- A text that its tokens give back: characters, in which neither the mark of a space nor `<0x` stands.
pub record IsPlain (text : Text) : Type 0 where
  pub scalars : All IsScalar text
  pub unmarked : All (λ c. c ≢ mark) text
  pub clear : NoByteName (normalize text)

normalize-append : (a b : Text) → normalize (a ++ b) ≡ normalize a ++ normalize b
unfolding normalize
normalize-append a b = map-append mark_space a b

NoByteName-init : (a b : Text) → NoByteName (a ++ b) → NoByteName a
NoByteName-init a b clear q = elim (Bool-cases (starts_with (drop q a) (codes "<0x"))) [
  | inr not_so ↦ not_so
  | inl begins ↦
      let room = starts_with-length (drop q a) (codes "<0x") begins in
      let within : q ≤ length a = omega (arith, length-drop q a) in
      absurd (
        ground (
          arith,
          clear q,
          drop-append_lt q a b within,
          subst (λ l. starts_with l (codes "<0x") ≡ true) (sym (drop-append_lt q a b within))
              (starts_with-longer (drop q a) b (codes "<0x") begins),
        ))
]

IsPlain-left : (a b : Text) → IsPlain (a ++ b) → IsPlain a
IsPlain-left a b h = record {
  scalars = All-left IsScalar a b h.scalars;
  unmarked = All-left (λ c. c ≢ mark) a b h.unmarked;
  clear =
      NoByteName-init (normalize a) (normalize b) (subst NoByteName (normalize-append a b) h.clear);
}

IsPlain-right : (a b : Text) → IsPlain (a ++ b) → IsPlain b
IsPlain-right a b h = record {
  scalars = All-right IsScalar a b h.scalars;
  unmarked = All-right (λ c. c ≢ mark) a b h.unmarked;
  clear =
      NoByteName-right (normalize a) (normalize b)
        (subst NoByteName (normalize-append a b) h.clear);
}

-- A special token is read as itself.
specials_read :
    All (λ sp. (starts_with sp (codes "<0x") ≡ false) × (map unmark_space sp ≡ sp)) specials
unfolding starts_with unmark_space
specials_read = (
  (refl, refl),
  (
    (refl, refl),
    ((refl, refl), ((refl, refl), ((refl, refl), ((refl, refl), ((refl, refl), tt))))),
  ),
)

module _ (t : Tokenizer) (full : IsComplete t) where
  decode-part :
      (p : Part)
      → IsPart p
      → IsPlain (part_text p)
      → decode_bytes t (part_ids t p) ≡ some (bytes (part_text p))
  unfolding special_ids piece_bytes
  decode-part (plain p) is_part h = decode_bytes-encode t full p h.scalars h.unmarked h.clear
  decode-part (special sp) among h = elim (Option-cases (get t.id_of sp)) [
    | inl none_at ↦
        rw (none_at, special_ids) (decode_bytes-encode t full sp h.scalars h.unmarked h.clear)
    | inr (id, e) ↦
        let (clear, same) =
          Among-All (λ s. (starts_with s (codes "<0x") ≡ false) × (map unmark_space s ≡ s)) sp
            specials specials_read among in
        rw (e, special_ids)
          (decode-id t full sp id e
            ∙ rw (byte_of_plain sp clear, piece_bytes) (ap (λ s. some (bytes s)) same))
  ]

  decode-parts :
      (parts : List Part)
      → All IsPart parts
      → IsPlain (all_text parts)
      → decode_bytes t (all_part_ids t parts) ≡ some (bytes (all_text parts))
  unfolding decode_bytes bytes
  decode-parts [] apart h = refl
  decode-parts (p ∷ parts) apart h =
      decode_bytes-append t (part_ids t p) (all_part_ids t parts) _ _
        (decode-part p apart.0 (IsPlain-left (part_text p) (all_text parts) h))
        (decode-parts parts apart.1 (IsPlain-right (part_text p) (all_text parts) h))
      ∙ ap some (sym (bytes-append (part_text p) (all_text parts)))

  -- The tokens of a text decode to its UTF-8, special tokens included: with a vocabulary that agrees
  -- with its ids and has tokens for each byte, for the mark of a space and for what each merge makes,
  -- and a text of characters in which neither that mark nor `<0x` stands.
  pub decode-encode_with_specials :
      (text : Text) → IsPlain text → decode t (encode_with_specials t text) ≡ some (bytes text)
  unfolding decode
  decode-encode_with_specials text h =
      let s = encode_with_specials-Spliced t text in
      let all : decode_bytes t (encode_with_specials t text) ≡ some (bytes text) =
        ap (decode_bytes t) s.coded
        ∙ decode-parts s.parts s.apart (subst IsPlain (sym s.joined) h)
        ∙ ap (λ l. some (bytes l)) s.joined in
      rw all (ap some (lossy_whole (bytes text) [] start Within-start (run-bytes text h.scalars)))
