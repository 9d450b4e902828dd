-- ===== src/Server/Relay/Delivery.antt =====
-- The thread of a generation as a whole: which text reaches a client that stays.
use mathlib.Core.Option.{some-injective}
use free_token_rs.Prelude.{
  ℕ, ◌≤◌, ◌≡◌, refl, sym, ap, subst, ◌∙◌, inl, inr, Bool, true, false, some, List, [], ◌∷◌, ◌++◌,
  arith, append-nil, length, take, Option-cases, get_elem?, append_assoc,
}
use free_token_rs.Text.{Text}
use free_token_rs.Chars.{chars}
use free_token_rs.Gguf.Utf8.{start, is_utf8}
use free_token_rs.Openai.Utf8.Run.{run, run-is_utf8}
use free_token_rs.Openai.Utf8.Stream.{joined}
use free_token_rs.Openai.Stop
use free_token_rs.Openai.Stop.Stream.{feed, concat, Delivered, feed-Delivered}
use free_token_rs.Openai.Stop.Find.{FirstAt, StopFree, AllNonempty}
use free_token_rs.Tokenizer.{Tokenizer}
use free_token_rs.Tokenizer.Decode.{piece_bytes, decode_bytes}
use free_token_rs.Worker.{FinishReason, stop}
use free_token_rs.Server.Relay.{Out, relay, relay_all}
use free_token_rs.Server.Relay.Texts.{
  never, texts, Ends, Relays, Decoded, token_events, relay-Relays,
}

-- The output of a generation whose text is `total`: the whole text, in which no stop sequence
-- stands, and the end as the worker said, after all tokens. Or what stands before the first stop
-- sequence in a beginning of the text, and a stop, after some of the tokens.
pub data Output (stops : List Text) (total : Text) (f : FinishReason) (count : ℕ) (t : Text)
    (finish : FinishReason) (n : ℕ) : Type 0 where
  whole :
      t ≡ total
      → StopFree stops total
      → finish ≡ f
      → n ≡ count
      → Output stops total f count t finish n
  cut :
      (seen later : Text) (p : ℕ)
      → total ≡ seen ++ later
      → FirstAt stops seen p
      → t ≡ take p seen
      → finish ≡ stop
      → n ≤ count
      → Output stops total f count t finish n

-- The messages carry the output, and end as it does.
abbrev pub Relayed : List Text → Text → FinishReason → ℕ → List Out → Type 0
Relayed stops total f count outs =
    (finish : FinishReason) × (n : ℕ) × Ends outs finish n
    × Output stops total f count (texts outs) finish n

decode_bytes-Decoded :
    (t : Tokenizer) (ids : List ℕ) (total : List ℕ)
    → decode_bytes t ids ≡ some total
    → (pieces : List (List ℕ)) × Decoded t ids pieces × (joined pieces ≡ total)
unfolding decode_bytes
decode_bytes-Decoded t [] total e = ([], tt, some-injective [] total e)
decode_bytes-Decoded t (id ∷ ids) total e = elim (Option-cases (get_elem? t.vocab id)) [
  | inl beyond ↦ absurd (ground (arith, e, beyond))
  | inr (piece, at) ↦ elim (Option-cases (decode_bytes t ids)) [
    | inl bad ↦ absurd (ground (arith, e, at, bad))
    | inr (rest, good) ↦
        let (pieces, decoded, same) = decode_bytes-Decoded t ids rest good in
        let all : piece_bytes piece ++ rest ≡ total = ground (arith, e, at, good) in
        (
          piece_bytes piece ∷ pieces,
          (rw at (ap some (append-nil (piece_bytes piece))), decoded),
          ap (λ l. piece_bytes piece ++ l) same ∙ all,
        )
  ]
]

concat-append : (a b : List Text) → concat (a ++ b) ≡ concat a ++ concat b
concat-append [] b = refl
concat-append (s ∷ a) b =
    ap (λ l. s ++ l) (concat-append a b) ∙ sym (append_assoc s (concat a) (concat b))

Relayed-of :
    (stops : List Text) (parts : List Text) (r : Text × Bool) (f : FinishReason) (count : ℕ)
    (outs : List Out)
    → Delivered stops [] parts r.0 r.1
    → Relays r f 0 count outs
    → Relayed stops (concat parts) f count outs
Relayed-of stops parts (t, false) f count outs (Delivered.whole miss all free) (same, ends) =
    (f, count, subst (Ends outs f) (omega arith) ends, whole (same ∙ all) free refl refl)
Relayed-of stops parts (t, false) f count outs (Delivered.cut seen later p hit split first all) h =
    absurd (ground (arith, hit))
Relayed-of stops parts (t, true) f count outs (Delivered.whole miss all free) h =
    absurd (ground (arith, miss))
Relayed-of stops parts (t, true) f count outs (Delivered.cut seen later p hit split first all)
      (same, (j, ge, le, ends)) =
    let total = ap concat split ∙ concat-append seen later in
    (stop, j, ends, cut (concat seen) (concat later) p total first (same ∙ all) refl (omega arith))

-- A client that stays, when the worker sends tokens that decode to well-formed text and then its
-- end, and no stop sequence is empty: it receives texts, none of them empty, and one end as the last
-- message. They are the whole text, in which then no stop sequence stands, and the worker's reason
-- with the number of tokens; or exactly what stands before the first stop sequence in a beginning of
-- the text, and the reason of a stop.
pub relay_all-Relayed :
    (t : Tokenizer) (stops : List Text) (ids total : List ℕ) (f : FinishReason)
    → AllNonempty stops
    → decode_bytes t ids ≡ some total
    → is_utf8 total ≡ true
    → Relayed stops (chars total) f (length ids) (relay_all t never stops (token_events ids f))
unfolding relay_all
relay_all-Relayed t stops ids total f ne e fine =
    let (pieces, decoded, same) = decode_bytes-Decoded t ids total e in
    let (parts, all, relays) =
      relay-Relays t (record { pending = [] }) (Stop.new stops) 0 ids pieces f decoded
        (ap (run start) same ∙ run-is_utf8 total fine) in
    subst
      (λ c.
        Relayed stops c f (length ids)
          (relay t never (record { pending = [] }) (Stop.new stops) 0 0 (token_events ids f)))
      (all ∙ ap chars same)
      (Relayed-of stops parts (feed (Stop.new stops) parts) f (length ids) _
        (feed-Delivered stops parts ne) (relays 0))
