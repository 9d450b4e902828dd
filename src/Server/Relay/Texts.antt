-- ===== src/Server/Relay/Texts.antt =====
-- What the thread of a generation sends to a client that stays.
use free_token_rs.Prelude.{
  ℕ, suc, ◌+◌, ◌≤◌, ◌≡◌, ◌≢◌, refl, sym, ap, subst, ◌∙◌, inl, inr, Bool, true, false, none, some,
  List, [], ◌∷◌, ◌++◌, arith, append_assoc, append-nil, if◌then◌else◌, length,
}
use free_token_rs.Text.{Text}
use free_token_rs.Chars.{chars}
use free_token_rs.Chars.Encoding.{chars-append}
use free_token_rs.Gguf.Utf8.{start}
use free_token_rs.Openai.Utf8.{Utf8Stream, lossy}
use free_token_rs.Openai.Utf8
use free_token_rs.Openai.Utf8.Run.{run, run_text, Within-start, run-is_utf8, is_utf8-run}
use free_token_rs.Openai.Utf8.Lossy.{lossy_whole}
use free_token_rs.Openai.Utf8.Stream.{push-Emits, joined}
use free_token_rs.Openai.Stop.{StopMatcher}
use free_token_rs.Openai.Stop
use free_token_rs.Openai.Stop.Stream.{feed, concat}
use free_token_rs.Tokenizer.{Tokenizer}
use free_token_rs.Tokenizer.Decode.{decode_bytes}
use free_token_rs.Worker.{FinishReason, stop, WorkerEvent, token, done}
use free_token_rs.Server.Relay.{
  Out, text, finished, failed, Gone, send_end, emit, end_with, after_push, relay,
}

abbrev pub never : Gone
never sent = false

-- The text of all messages.
abbrev pub texts : List Out → Text
texts [] = []
texts (text s ∷ outs) = s ++ texts outs
texts (finished f n ∷ outs) = texts outs
texts (failed ∷ outs) = texts outs

-- Texts that are not empty, and then the end of the generation as the last message.
abbrev pub Ends : List Out → FinishReason → ℕ → Type 0
Ends [] f n = ⊥
Ends (text s ∷ outs) f n = (s ≢ []) × Ends outs f n
Ends (finished f' n' ∷ []) f n = (f' ≡ f) × (n' ≡ n)
Ends (finished f' n' ∷ o ∷ outs) f n = ⊥
Ends (failed ∷ outs) f n = ⊥

abbrev shown : Text → List Out
shown [] = []
shown (c ∷ s) = text (c ∷ s) ∷ []

emit-never : (sent : ℕ) (s : Text) → emit never sent s ≡ some (shown s)
unfolding emit
emit-never sent [] = refl
emit-never sent (c ∷ s) = refl

texts-shown : (s : Text) (outs : List Out) → texts (shown s ++ outs) ≡ s ++ texts outs
texts-shown [] outs = refl
texts-shown (c ∷ s) outs = refl

Ends-shown :
    (s : Text) (outs : List Out) (f : FinishReason) (n : ℕ)
    → Ends outs f n
    → Ends (shown s ++ outs) f n
Ends-shown [] outs f n h = h
Ends-shown (c ∷ s) outs f n h = ((λ e. ground (arith, e)), h)

-- The text that the matcher lets through, whether it hit, and the messages for it: the end is as
-- the worker said, after all tokens, or the hit of a stop sequence, after some of them.
abbrev pub Relays : Text × Bool → FinishReason → ℕ → ℕ → List Out → Type 0
Relays (t, false) f n more outs = (texts outs ≡ t) × Ends outs f (n + more)
Relays (t, true) f n more outs =
    (texts outs ≡ t) × ((j : ℕ) × (n ≤ j) × (j ≤ n + more) × Ends outs stop j)

shown_end :
    (s : Text) (f : FinishReason) (n : ℕ)
    → (texts (shown s ++ finished f n ∷ []) ≡ s) × Ends (shown s ++ finished f n ∷ []) f n
shown_end s f n = (
  texts-shown s (finished f n ∷ []) ∙ append-nil s,
  Ends-shown s (finished f n ∷ []) f n (refl, refl),
)

-- The end, by what the last push returned.
Relays-push :
    (r : StopMatcher × Text × Bool) (f : FinishReason) (n sent : ℕ)
    → Relays
        (if r.2 then (r.1, true) else (r.1 ++ (Stop.finish r.0).1, false))
        f
        n
        0
        (elim (emit never sent (if r.2 then r.1 else r.1 ++ (Stop.finish r.0).1)) [
          | none ↦ send_end never sent (finished (if r.2 then stop else f) n)
          | some out ↦
              out ++ send_end never (sent + length out) (finished (if r.2 then stop else f) n)
        ])
unfolding send_end
Relays-push (m, t, true) f n sent =
    let (same, ends) = shown_end t stop n in
    rw (emit-never sent t) (same, (n, omega arith, omega arith, ends))
Relays-push (m, t, false) f n sent =
    let (same, ends) = shown_end (t ++ (Stop.finish m).1) f n in
    rw (emit-never sent (t ++ (Stop.finish m).1)) (same, subst (Ends _ f) (omega arith) ends)

Relays-end :
    (m : StopMatcher) (f : FinishReason) (n sent : ℕ) (u : Utf8Stream)
    → Relays (feed m (chars (Utf8.finish u).1 ∷ [])) f n 0 (end_with never u m n sent f)
unfolding feed end_with
Relays-end m f n sent u = Relays-push (Stop.push m (chars (Utf8.finish u).1)) f n sent

-- A push, by what it returned, and what follows it.
Relays-after :
    (r : StopMatcher × Text × Bool) (later : Text × Bool) (f : FinishReason) (n more sent : ℕ)
    (rest : ℕ → List Out)
    → ((sent' : ℕ) → Relays later f (n + 1) more (rest sent'))
    → Relays
        (if r.2 then (r.1, true) else (r.1 ++ later.0, later.1))
        f
        n
        (more + 1)
        (after_push never (n + 1) sent r rest)
unfolding after_push send_end
Relays-after (m, t, true) later f n more sent rest h =
    let (same, ends) = shown_end t stop (n + 1) in
    rw (emit-never sent t, after_push) (same, (n + 1, omega arith, omega arith, ends))
Relays-after (m, t, false) (t', false) f n more sent rest h =
    let outs = rest (sent + length (shown t)) in
    let (same, ends) = h (sent + length (shown t)) in
    rw (emit-never sent t, after_push)
      (
        texts-shown t outs ∙ ap (λ l. t ++ l) same,
        Ends-shown t outs f _ (subst (Ends outs f) (omega arith) ends),
      )
Relays-after (m, t, false) (t', true) f n more sent rest h =
    let outs = rest (sent + length (shown t)) in
    let (same, (j, ge, le, ends)) = h (sent + length (shown t)) in
    rw (emit-never sent t, after_push)
      (
        texts-shown t outs ∙ ap (λ l. t ++ l) same,
        (j, omega arith, omega arith, Ends-shown t outs stop j ends),
      )

-- The bytes of each of the tokens.
abbrev pub Decoded : Tokenizer → List ℕ → List (List ℕ) → Type 0
Decoded t [] [] = Unit
Decoded t [] (p ∷ pieces) = ⊥
Decoded t (id ∷ ids) [] = ⊥
Decoded t (id ∷ ids) (p ∷ pieces) = (decode_bytes t (id ∷ []) ≡ some p) × Decoded t ids pieces

abbrev pub token_events : List ℕ → FinishReason → List WorkerEvent
token_events [] f = done (some f) ∷ []
token_events (id ∷ ids) f = token id ∷ token_events ids f

finish_whole : (u : Utf8Stream) → run start u.pending ≡ some start → (Utf8.finish u).1 ≡ u.pending
unfolding Utf8.finish
finish_whole u h = lossy_whole u.pending [] start Within-start h

pub relay-Relays :
    (t : Tokenizer) (u : Utf8Stream) (m : StopMatcher) (n : ℕ) (ids : List ℕ)
    (pieces : List (List ℕ)) (f : FinishReason)
    → Decoded t ids pieces
    → run start (u.pending ++ joined pieces) ≡ some start
    → (parts : List Text) × (concat parts ≡ chars (u.pending ++ joined pieces))
      × ((sent : ℕ)
          → Relays (feed m parts) f n (length ids) (relay t never u m n sent (token_events ids f)))
unfolding relay feed
relay-Relays t u m n [] [] f d h = (
  chars (Utf8.finish u).1 ∷ [],
  append-nil (chars (Utf8.finish u).1)
      ∙ ap chars (
          finish_whole u (ap (run start) (sym (append-nil u.pending)) ∙ h)
          ∙ sym (append-nil u.pending)),
  λ sent. Relays-end m f n sent u,
)
relay-Relays t u m n [] (p ∷ pieces) f d h = absurd d
relay-Relays t u m n (id ∷ ids) [] f d h = absurd d
relay-Relays t u m n (id ∷ ids) (p ∷ pieces) f d h =
    let (u', s, ran, ok, short, either) = push-Emits u p in
    let assoc = append_assoc u.pending p (joined pieces) in
    elim either [
      | inr (_, broken) ↦
          absurd (ground (arith, broken (joined pieces), is_utf8-run _ (ap (run start) assoc ∙ h)))
      | inl eq ↦
          let left = u'.pending ++ joined pieces in
          let all =
            sym (append_assoc s u'.pending (joined pieces))
            ∙ ap (λ l. l ++ joined pieces) eq
            ∙ assoc in
          let s_run = run-is_utf8 s ok in
          let pushed = Stop.push m (chars s) in
          let (parts, same, relays) =
            relay-Relays t u' pushed.0 (n + 1) ids pieces f d.1
              (sym (run_text s left s_run) ∙ ap (run start) all ∙ h) in
          let one_more : length ids + 1 ≡ suc (length ids) = omega arith in
          (
            chars s ∷ parts,
            ap (λ l. chars s ++ l) same ∙ sym (chars-append s left s_run) ∙ ap chars all,
            λ sent.
                rw (d.0, ran, relay)
                  (subst
                    (λ more. Relays (feed m (chars s ∷ parts)) f n more (
                      after_push never (n + 1) sent pushed
                        (λ sent'. relay t never u' pushed.0 (n + 1) sent' (token_events ids f))))
                    one_more
                    (Relays-after pushed (feed pushed.0 parts) f n (length ids) sent
                      (λ sent'. relay t never u' pushed.0 (n + 1) sent' (token_events ids f))
                      relays)),
          )
    ]
