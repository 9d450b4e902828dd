-- ===== src/Openai/Stop/Stream.antt =====
-- A whole stream of texts through `StopMatcher`, as the handler of a generation drives it.
use free_token_rs.Prelude.{
  ℕ, ◌+◌, ◌-◌, ◌<◌, ◌≡◌, refl, sym, ap, subst, ◌∙◌, inl, inr, Bool, true, false, List, [], ◌∷◌,
  ◌++◌, append-nil, append_assoc, arith, if◌then◌else◌, length, length-append, take, drop,
  take-append_add, drop-append_ge,
}
use native.Mathlib.Decide.{dec_lt}
use free_token_rs.Text.{Text, starts_with, drop-nil}
use free_token_rs.Openai.Stop.{StopMatcher, new, push, finish}
use free_token_rs.Openai.Stop.Find.{stop_at, FirstAt, StopFree, AllNonempty}
use free_token_rs.Openai.Stop.Push.{Hit, Clear, Pushed, push-Pushed}

-- The output of one `push`, and what the later ones emit unless it hit.
abbrev round : StopMatcher × Text × Bool → Text × Bool → Text × Bool
round r rest = if r.2 then (r.1, true) else (r.1 ++ rest.0, rest.1)

-- Push the texts in turn and stop at a hit; with none, flush at the end. The emitted text, and
-- whether a stop sequence was hit.
unfoldable pub feed : StopMatcher → List Text → Text × Bool
feed m [] = ((finish m).1, false)
feed m (text ∷ texts) = let rest = feed (push m text).0 texts in round (push m text) rest

abbrev pub concat : List Text → Text
concat [] = []
concat (t ∷ texts) = t ++ concat texts

-- The emitted text is the whole text, without a stop sequence; or it is what stands before the
-- first stop sequence in the texts up to one of them.
pub data Delivered (stops : List Text) (before : Text) (texts : List Text) (out : Text) (hit : Bool)
    : Type 0 where
  whole :
      hit ≡ false
      → out ≡ before ++ concat texts
      → StopFree stops (before ++ concat texts)
      → Delivered stops before texts out hit
  cut :
      (seen later : List Text) (p : ℕ)
      → hit ≡ true
      → texts ≡ seen ++ later
      → FirstAt stops (before ++ concat seen) p
      → out ≡ take p (before ++ concat seen)
      → Delivered stops before texts out hit

-- `out` has been emitted and `kept` is held: no stop sequence is there, and none will begin in `out`.
record Flows (stops : List Text) (out kept : Text) : Type 0 where
  clear : StopFree stops (out ++ kept)
  safe : (t : Text) (q : ℕ) → q < length out → stop_at stops (drop q (out ++ (kept ++ t))) ≡ false

stop_at_append :
    (stops : List Text) (sent rest : Text) (q : ℕ)
    → (q < length sent → stop_at stops (drop q (sent ++ rest)) ≡ false)
    → ((j : ℕ) → q ≡ length sent + j → stop_at stops (drop j rest) ≡ false)
    → stop_at stops (drop q (sent ++ rest)) ≡ false
stop_at_append stops sent rest q inside beyond = elim (dec_lt q (length sent)) [
  | yes lt ↦ inside lt
  | no ge ↦ rw (drop-append_ge q sent rest (omega arith)) (beyond (q - length sent) (omega arith))
]

module _ (stops : List Text) (sent kept text : Text) (flows : Flows stops sent kept) where
  -- A position in the emitted text, or one in the buffer.
  stop_at_sent :
      (t : Text) (q : ℕ)
      → q < length sent
      → stop_at stops (drop q (sent ++ ((kept ++ text) ++ t))) ≡ false
  stop_at_sent t q lt = rw (append_assoc kept text t) (flows.safe (text ++ t) q lt)

  Hit-FirstAt :
      (out : Text) (h : Hit stops (kept ++ text) out)
      → FirstAt stops (sent ++ (kept ++ text)) (length sent + h.pos)
  Hit-FirstAt out h = (
    rw (drop-append_ge (length sent + h.pos) sent (kept ++ text) (omega arith)) at_pos,
    (λ q lt.
        stop_at_append stops sent (kept ++ text) q (flows.safe text q)
          (λ j e. h.first.1 j (omega arith))),
    omega (arith, length-append sent (kept ++ text), h.first.2),
  )
    where
      at_pos : stop_at stops (drop (length sent + h.pos - length sent) (kept ++ text)) ≡ true
      at_pos =
          let e : h.pos ≡ length sent + h.pos - length sent = omega arith in
          subst (λ n. stop_at stops (drop n (kept ++ text)) ≡ true) e h.first.0

  Clear-Flows :
      (out kept' : Text) → Clear stops (kept ++ text) out kept' → Flows stops (sent ++ out) kept'
  Clear-Flows out kept' c = record {
    clear = λ q.
        rw (append_assoc sent out kept', c.split)
          (stop_at_append stops sent (kept ++ text) q (flows.safe text q) (λ j e. c.clear j));
    safe = λ t q lt.
        rw (append_assoc sent out (kept' ++ t), ← append_assoc out kept' t, c.split)
          (stop_at_append stops sent ((kept ++ text) ++ t) q (stop_at_sent t q)
            (λ j e. c.safe t j (omega (arith, length-append sent out))));
  }

Delivered-cons :
    (stops : List Text) (before before' text : Text) (texts : List Text) (out : Text) (hit : Bool)
    → before' ≡ before ++ text
    → Delivered stops before' texts out hit
    → Delivered stops before (text ∷ texts) out hit
Delivered-cons stops before before' text texts out hit e (whole miss all free) =
    let e' : before' ++ concat texts ≡ before ++ (text ++ concat texts) =
      ap (λ b. b ++ concat texts) e ∙ append_assoc before text (concat texts) in
    whole miss (all ∙ e') (subst (StopFree stops) e' free)
Delivered-cons stops before before' text texts out hit e (cut seen later p h parts first all) =
    let e' : before' ++ concat seen ≡ before ++ (text ++ concat seen) =
      ap (λ b. b ++ concat seen) e ∙ append_assoc before text (concat seen) in
    cut (text ∷ seen) later p h (ap (◌∷◌ text) parts) (subst (λ t. FirstAt stops t p) e' first)
      (all ∙ ap (take p) e')

-- One round of `feed`.
feed_step :
    (stops : List Text) (sent kept text : Text) (texts : List Text) (r : StopMatcher × Text × Bool)
    (rest : Text × Bool)
    → Flows stops sent kept
    → Pushed stops (kept ++ text) r
    → (Flows stops (sent ++ r.1) r.0.buf
        → Delivered stops ((sent ++ r.1) ++ r.0.buf) texts ((sent ++ r.1) ++ rest.0) rest.1)
    → Delivered stops (sent ++ kept) (text ∷ texts) (sent ++ (round r rest).0) (round r rest).1
feed_step stops sent kept text texts r rest flows (same, inl (hit, emptied, h)) later =
    let e : sent ++ (kept ++ text) ≡ (sent ++ kept) ++ (text ++ []) =
      sym (append_assoc sent kept text) ∙ ap (◌++◌ (sent ++ kept)) (sym (append-nil text)) in
    let first = Hit-FirstAt stops sent kept text flows r.1 h in
    rw hit (
      cut (text ∷ []) texts (length sent + h.pos) refl refl
        (subst (λ t. FirstAt stops t (length sent + h.pos)) e first)
        (ap (◌++◌ sent) h.emitted
          ∙ sym (take-append_add h.pos sent (kept ++ text))
          ∙ ap (take (length sent + h.pos)) e))
feed_step stops sent kept text texts r rest flows (same, inr (miss, c)) later =
    let e : (sent ++ r.1) ++ r.0.buf ≡ (sent ++ kept) ++ text =
      append_assoc sent r.1 r.0.buf ∙ ap (◌++◌ sent) c.split ∙ sym (append_assoc sent kept text) in
    let next = later (Clear-Flows stops sent kept text flows r.1 r.0.buf c) in
    rw miss (
      Delivered-cons stops (sent ++ kept) ((sent ++ r.1) ++ r.0.buf) text texts
        (sent ++ (r.1 ++ rest.0)) rest.1 e
        (subst (λ o. Delivered stops ((sent ++ r.1) ++ r.0.buf) texts o rest.1)
          (append_assoc sent r.1 rest.0) next))

feed-Flows :
    (m : StopMatcher) (texts : List Text) (sent : Text)
    → AllNonempty m.stops
    → Flows m.stops sent m.buf
    → Delivered m.stops (sent ++ m.buf) texts (sent ++ (feed m texts).0) (feed m texts).1
unfolding feed finish
feed-Flows m [] sent ne flows =
    whole refl (sym (append-nil (sent ++ m.buf)))
      (subst (StopFree m.stops) (sym (append-nil (sent ++ m.buf))) flows.clear)
feed-Flows m (text ∷ texts) sent ne flows =
    let r = push m text in
    let p = push-Pushed m text ne in
    feed_step m.stops sent m.buf text texts r (feed r.0 texts) flows p λ next.
      subst
        (λ stops.
          Delivered stops ((sent ++ r.1) ++ r.0.buf) texts ((sent ++ r.1) ++ (feed r.0 texts).0)
            (feed r.0 texts).1)
        p.0
        (feed-Flows r.0 texts (sent ++ r.1) (subst AllNonempty (sym p.0) ne)
          (subst (λ stops. Flows stops (sent ++ r.1) r.0.buf) (sym p.0) next))

StopFree-nil : (stops : List Text) → AllNonempty stops → StopFree stops []
unfolding starts_with
StopFree-nil [] ne q = refl
StopFree-nil ([] ∷ stops) ne q = absurd (ne.0 refl)
StopFree-nil ((c ∷ s) ∷ stops) ne q =
    rw (drop-nil q) (rw (drop-nil q) at (StopFree-nil stops ne.1 q))

-- However a text is cut into pieces: with no stop sequence empty, a new matcher emits the whole
-- text, in which then no stop sequence stands, or exactly what stands before the first stop
-- sequence in the pieces pushed so far.
pub feed-Delivered :
    (stops : List Text) (texts : List Text)
    → AllNonempty stops
    → Delivered stops [] texts (feed (new stops) texts).0 (feed (new stops) texts).1
unfolding new
feed-Delivered stops texts ne =
    feed-Flows (record { stops = stops; buf = [] }) texts [] ne
      (record { clear = StopFree-nil stops ne; safe = λ t q lt. absurd (omega arith) })
