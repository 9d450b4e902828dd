-- ===== src/Openai/Utf8/Stream.antt =====
-- Streams of bytes through `Utf8Stream`: what each push emits, and what all of them do.
use free_token_rs.Prelude.{
  ℕ, ◌<◌, ◌≡◌, refl, sym, ap, ◌∙◌, inl, inr, ◌⊎◌, true, false, Option, none, some, List, [], ◌∷◌,
  ◌++◌, arith, length, take, drop, Bool-cases, append_assoc, append-nil, ◌>>=◌,
}
use free_token_rs.Gguf.Utf8.{start, is_utf8}
use free_token_rs.Openai.Utf8.{
  Checked, whole, incomplete, invalid, from_utf8, lossy, Utf8Stream, unwrap_utf8, split_valid, emit,
  push, finish,
}
use free_token_rs.Openai.Utf8.Run.{
  run, run-append, Found, Within-start, run_text, is_utf8-run, run-is_utf8, from_utf8-Found,
}
use free_token_rs.Openai.Utf8.Lossy.{lossy_whole, run-lossy}

abbrev pub held : List ℕ → Utf8Stream
held bytes = record { pending = bytes }

take-append : (xs ys : List ℕ) → take (length xs) (xs ++ ys) ≡ xs
take-append [] ys = refl
take-append (x ∷ xs) ys = ap (◌∷◌ x) (take-append xs ys)

drop-append : (xs ys : List ℕ) → drop (length xs) (xs ++ ys) ≡ ys
drop-append [] ys = refl
drop-append (x ∷ xs) ys = drop-append xs ys

split_valid_lem :
    (text rest : List ℕ)
    → run start text ≡ some start
    → split_valid (text ++ rest) (length text) ≡ some (held rest, text)
unfolding split_valid unwrap_utf8
split_valid_lem text rest h =
    rw (take-append text rest, drop-append text rest, is_utf8-run text h) refl

-- What a push of bytes does, on what was held back and the bytes together.
abbrev pub Emits : List ℕ → Utf8Stream → List ℕ → Type 0
Emits bytes u text =
    (is_utf8 text ≡ true)
    × (length u.pending < 4)
    × ((text ++ u.pending ≡ bytes)
        ⊎ ((u.pending ≡ []) × ((t : List ℕ) → is_utf8 (bytes ++ t) ≡ false)))

not-is_utf8 : (bytes t : List ℕ) → run start bytes ≡ none → is_utf8 (bytes ++ t) ≡ false
not-is_utf8 bytes t stuck = elim (Bool-cases (is_utf8 (bytes ++ t))) [
  | inr broken ↦ broken
  | inl fine ↦
      let none_at : run start (bytes ++ t) ≡ none = run-append start bytes t ∙ rw stuck refl in
      absurd (ground (arith, none_at, run-is_utf8 (bytes ++ t) fine))
]

emit-Emits :
    (bytes : List ℕ) (c : Checked)
    → Found bytes c
    → (u : Utf8Stream) × (text : List ℕ) × (emit bytes c ≡ some (u, text)) × Emits bytes u text
unfolding emit
emit-Emits bytes whole found = (
  held [],
  bytes,
  ap (λ l. split_valid l (length bytes)) (sym (append-nil bytes)) ∙ split_valid_lem bytes [] found,
  (is_utf8-run bytes found, omega arith, inl (append-nil bytes)),
)
emit-Emits bytes (incomplete up) (text, rest, s, eq, at, t, r, wants, short) = (
  held rest,
  text,
  ap (λ l. split_valid l up) eq
      ∙ ap (split_valid (text ++ rest)) (sym at)
      ∙ split_valid_lem text rest t,
  (is_utf8-run text t, omega arith, inl (sym eq)),
)
emit-Emits bytes (invalid up) found = (
  held [],
  lossy start [] bytes,
  refl,
  (
    is_utf8-run _ (run-lossy bytes [] start Within-start),
    omega arith,
    inr (refl, λ t. not-is_utf8 bytes t found),
  ),
)

-- `push` does not panic. It emits well-formed text and holds back fewer than four bytes. Either the
-- text and what is held back are what was held back and the new bytes, or these are not well-formed
-- whatever follows, and nothing is held back.
pub push-Emits :
    (u : Utf8Stream) (bytes : List ℕ)
    → (u' : Utf8Stream) × (text : List ℕ) × (push u bytes ≡ some (u', text))
      × (is_utf8 text ≡ true)
      × (length u'.pending < 4)
      × ((text ++ u'.pending ≡ u.pending ++ bytes)
          ⊎ ((u'.pending ≡ []) × ((t : List ℕ) → is_utf8 ((u.pending ++ bytes) ++ t) ≡ false)))
unfolding push
push-Emits u bytes =
    let pending = u.pending ++ bytes in
    let (u', text, ran, emits) = emit-Emits pending (from_utf8 pending) (from_utf8-Found pending) in
    (u', text, ran, emits.0, emits.1, emits.2)

-- What a stream emits for its pieces, with `finish` at the end.
pub feed : Utf8Stream → List (List ℕ) → Option (List ℕ)
feed u [] = some (finish u).1
feed u (p ∷ pieces) = push u p >>= λ r. feed r.0 pieces >>= λ rest. some (r.1 ++ rest)

abbrev pub joined : List (List ℕ) → List ℕ
joined [] = []
joined (p ∷ pieces) = p ++ joined pieces

feed_lem :
    (u : Utf8Stream) (pieces : List (List ℕ))
    → run start (u.pending ++ joined pieces) ≡ some start
    → feed u pieces ≡ some (u.pending ++ joined pieces)
unfolding feed finish
feed_lem u [] h = ap some (
    lossy_whole u.pending [] start Within-start (ap (run start) (sym (append-nil u.pending)) ∙ h)
    ∙ sym (append-nil u.pending))
feed_lem u (p ∷ pieces) h =
    let (u', text, ran, ok, short, either) = push-Emits u p in
    let assoc = append_assoc u.pending p (joined pieces) in
    elim either [
      | inl eq ↦
          let all =
            sym (append_assoc text u'.pending (joined pieces))
            ∙ ap (λ l. l ++ joined pieces) eq
            ∙ assoc in
          let rest = feed_lem u' pieces (
            sym (run_text text (u'.pending ++ joined pieces) (run-is_utf8 text ok))
            ∙ ap (run start) all
            ∙ h) in
          rw (ran, rest) (ap some all)
      | inr (_, never) ↦
          absurd (ground (arith, never (joined pieces), is_utf8-run _ (ap (run start) assoc ∙ h)))
    ]

-- However well-formed UTF-8 is cut into pieces, a new stream emits exactly its bytes and does not
-- panic.
pub feed-joined :
    (pieces : List (List ℕ))
    → is_utf8 (joined pieces) ≡ true
    → feed (record { pending = [] }) pieces ≡ some (joined pieces)
feed-joined pieces h = feed_lem (held []) pieces (run-is_utf8 (joined pieces) h)
