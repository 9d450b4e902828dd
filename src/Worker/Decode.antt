-- ===== src/Worker/Decode.antt =====
-- One decode step of the worker keeps its invariant.
use mathlib.Core.List.{Perm}
use mathlib.Core.List.Perm
use free_token_rs.Prelude.{
  middle-Perm, ℕ, suc, ◌+◌, ◌-◌, ◌≤◌, ◌<◌, ◌≡◌, ◌≢◌, refl, sym, ap, subst, ◌∙◌, inl, inr, true,
  false, none, some, List, [], ◌∷◌, ◌++◌, arith, All, All-imp, All-left, All-of_map, Distinct, map,
  length, length-map, length-append, ◌==◌, Bool-cases,
}
use free_token_rs.Engine.{Config, Model, Request, Sampled, forward}
use free_token_rs.Engine.Advance.{position, times, Passed, Fit, forward-Passed}
use free_token_rs.Worker.{
  ActiveSeq, World, Worker, WorkerEvent, upto, send, finish_of, visit, Batch, add_seq, batch_loop,
  retain, assign, fail_all, decode_batch, decode,
}
use free_token_rs.Worker.Range.{dealt-Distinct, dealt-All, Distinct-left}
use free_token_rs.Worker.Lengths.{length-Perm, length-upto}
use free_token_rs.Worker.Slots.{slots, HasRoom, IsSound, Sound}

-- A sequence that goes on may generate at least one more token.
visit_goes_on :
    (w : World) (seq : ActiveSeq) (sent : List (ℕ × WorkerEvent))
    → (visit w seq sent).1 ≡ false
    → 0 < seq.remaining
unfolding visit finish_of
visit_goes_on w seq sent h = ground arith

-- There is room for one more token, and for what may follow it.
abbrev HasMore : Config → Model → ActiveSeq → Type 0
HasMore cfg m q = position m q.slot + q.remaining < cfg.max_seq

-- What `retain` makes of the sequences of a batch: those kept, with the free slots.
record Kept (cfg : Config) (m : Model) (active : List ActiveSeq) (free : List ℕ) (b : Batch)
    (r : List ActiveSeq × List ℕ) : Type 0 where
  dealt : Perm (slots r.0 ++ r.1) (slots active ++ free)
  same : map (λ q. q.0) b.reqs ≡ slots r.0
  temps : length b.temps ≡ length b.reqs
  room : All (HasMore cfg m) r.0

Keeps : Config → Model → List ActiveSeq → List ℕ → Batch → Type 0
Keeps cfg m active free b =
    (r : List ActiveSeq × List ℕ) × (retain b.seqs b.keep free ≡ some r)
    × Kept cfg m active free b r

left_Keeps :
    (cfg : Config) (m : Model) (seq : ActiveSeq) (active : List ActiveSeq) (free : List ℕ)
    (b : Batch)
    → Keeps cfg m active (seq.slot ∷ free) b
    → Keeps cfg m (seq ∷ active) free (add_seq seq true b)
unfolding Keeps retain add_seq
left_Keeps cfg m seq active free b (r, ran, k) = (
  r,
  ran,
  record {
    dealt = Perm.trans k.dealt (middle-Perm (slots active) free seq.slot);
    same = k.same;
    temps = k.temps;
    room = k.room;
  },
)

stays_Keeps :
    (cfg : Config) (m : Model) (seq : ActiveSeq) (active : List ActiveSeq) (free : List ℕ)
    (b : Batch)
    → HasRoom cfg m seq
    → 0 < seq.remaining
    → Keeps cfg m active free b
    → Keeps cfg m (seq ∷ active) free (add_seq seq false b)
unfolding Keeps retain add_seq
stays_Keeps cfg m seq active free b room more ((kept, free'), ran, k) = (
  (record seq { remaining = seq.remaining - 1 } ∷ kept, free'),
  rw ran refl,
  record {
    dealt = Perm.cons seq.slot k.dealt;
    same = ap (◌∷◌ seq.slot) k.same;
    temps = ap suc k.temps;
    room = (omega arith, k.room);
  },
)

batch_loop-Keeps :
    (w : World) (m : Model) (active : List ActiveSeq) (sent : List (ℕ × WorkerEvent))
    (free : List ℕ)
    → All (HasRoom w.cfg m) active
    → Keeps w.cfg m active free (batch_loop w active sent)
unfolding batch_loop Keeps retain
batch_loop-Keeps w m [] sent free room =
    (([], free), refl, record { dealt = Perm.refl free; same = refl; temps = refl; room = tt })
batch_loop-Keeps w m (seq ∷ active) sent free room =
    let v = visit w seq sent in
    let b = batch_loop w active v.0 in
    elim (Bool-cases v.1) [
      | inl left ↦ rw left (
          left_Keeps w.cfg m seq active free b
            (batch_loop-Keeps w m active v.0 (seq.slot ∷ free) room.1))
      | inr stays ↦ rw stays (
          stays_Keeps w.cfg m seq active free b room.0 (visit_goes_on w seq sent stays)
            (batch_loop-Keeps w m active v.0 free room.1))
    ]

-- A slot that no request, or one request, is for.
times_none :
    (k : ℕ) (reqs : List Request) → All (λ y. k ≢ y) (map (λ q. q.0) reqs) → times k reqs ≡ 0
unfolding times
times_none k [] h = refl
times_none k ((slot, token) ∷ reqs) h = ground (arith, h.0, times_none k reqs h.1)

times_once : (k : ℕ) (reqs : List Request) → Distinct (map (λ q. q.0) reqs) → times k reqs ≤ 1
unfolding times
times_once k [] d = omega arith
times_once k ((slot, token) ∷ reqs) d = elim (Bool-cases (k == slot)) [
  | inl same ↦
      let e : k ≡ slot = ground arith in
      rw (same, times_none k reqs (subst (λ s. All (λ y. s ≢ y) (map (λ q. q.0) reqs)) (sym e) d.0))
        (omega arith)
  | inr other ↦ rw other (times_once k reqs d.1)
]

fail_all-Perm :
    (w : World) (seqs : List ActiveSeq) (free : List ℕ) (sent : List (ℕ × WorkerEvent))
    → Perm (fail_all w seqs free sent).0 (slots seqs ++ free)
unfolding fail_all
fail_all-Perm w [] free sent = Perm.refl free
fail_all-Perm w (seq ∷ seqs) free sent =
    Perm.trans
      (fail_all-Perm w seqs (seq.slot ∷ free) (send w seq.tx (WorkerEvent.done none) sent).0)
      (middle-Perm (slots seqs) free seq.slot)

slots-assign : (seqs : List ActiveSeq) (toks : List ℕ) → slots (assign seqs toks) ≡ slots seqs
unfolding assign
slots-assign [] toks = refl
slots-assign (seq ∷ seqs) [] = refl
slots-assign (seq ∷ seqs) (t ∷ toks) = ap (◌∷◌ seq.slot) (slots-assign seqs toks)

assign-HasRoom :
    (cfg : Config) (m : Model) (seqs : List ActiveSeq) (toks : List ℕ)
    → All (HasRoom cfg m) seqs
    → All (HasRoom cfg m) (assign seqs toks)
unfolding assign
assign-HasRoom cfg m [] toks room = tt
assign-HasRoom cfg m (seq ∷ seqs) [] room = room
assign-HasRoom cfg m (seq ∷ seqs) (t ∷ toks) room = (room.0, assign-HasRoom cfg m seqs toks room.1)

-- The requests of the kept sequences fit.
kept-Fit :
    (cfg : Config) (m : Model) (kept : List ActiveSeq)
    → All (λ x. x < cfg.max_batch) (slots kept)
    → All (HasMore cfg m) kept
    → All (λ k. (k < cfg.max_batch) × (position m k < cfg.max_seq)) (slots kept)
kept-Fit cfg m [] inside room = tt
kept-Fit cfg m (q ∷ kept) inside room =
    ((inside.0, omega (arith, room.0)), kept-Fit cfg m kept inside.1 room.1)

module _ (w : World) (s : Worker) (reqs : List Request)
    (dealt : Perm (slots s.active ++ s.free_slots) (upto 0 w.cfg.max_batch))
    (count : length s.model.seq_pos ≡ w.cfg.max_batch) (room : All (HasMore w.cfg s.model) s.active)
    (same : map (λ q. q.0) reqs ≡ slots s.active) where
  inside : All (λ x. x < w.cfg.max_batch) (slots s.active)
  inside =
      All-left (λ x. x < w.cfg.max_batch) (slots s.active) s.free_slots
        (dealt-All (slots s.active ++ s.free_slots) w.cfg.max_batch dealt)

  fit : Fit w.cfg s.model reqs
  fit =
      All-of_map (λ k. (k < w.cfg.max_batch) × (position s.model k < w.cfg.max_seq)) (λ q. q.0) reqs
        (subst (All (λ k. (k < w.cfg.max_batch) × (position s.model k < w.cfg.max_seq))) (sym same)
          (kept-Fit w.cfg s.model s.active inside room))

  once : (k : ℕ) → times k reqs ≤ 1
  once k = times_once k reqs (
      subst Distinct (sym same) (
        Distinct-left (slots s.active) s.free_slots
          (dealt-Distinct (slots s.active ++ s.free_slots) w.cfg.max_batch dealt)))

  few : length reqs ≤ w.cfg.max_batch
  few =
      let requests = length-map reqs (λ q. q.0) in
      let kept = ap length same in
      let all = length-append (slots s.active) s.free_slots in
      let slots_all = length-Perm dealt in omega (arith, length-upto 0 w.cfg.max_batch)

  -- A moved model still has room for the sequences.
  room_after :
      (m : Model) (seqs : List ActiveSeq)
      → ((k : ℕ) → position m k ≤ position s.model k + times k reqs)
      → All (HasMore w.cfg s.model) seqs
      → All (HasRoom w.cfg m) seqs
  room_after m [] moved h = tt
  room_after m (q ∷ seqs) moved h =
      (omega (arith, moved q.slot, once q.slot, h.0), room_after m seqs moved h.1)

  no_batch-IsSound : IsSound w.cfg s
  no_batch-IsSound = record {
    dealt = dealt;
    count = count;
    room =
        All-imp (HasMore w.cfg s.model) (HasRoom w.cfg s.model) s.active (λ q h. omega (arith, h))
          room;
  }

  assigned-IsSound :
      (m : Model) (toks : List ℕ)
      → length m.seq_pos ≡ length s.model.seq_pos
      → ((k : ℕ) → position m k ≤ position s.model k + times k reqs)
      → IsSound w.cfg (record s { model = m; active = assign s.active toks })
  assigned-IsSound m toks long moved = record {
    dealt =
        subst (λ l. Perm (l ++ s.free_slots) (upto 0 w.cfg.max_batch))
          (sym (slots-assign s.active toks)) dealt;
    count = long ∙ count;
    room = assign-HasRoom w.cfg m s.active toks (room_after m s.active moved room);
  }

  failed-IsSound :
      (m : Model)
      → length m.seq_pos ≡ length s.model.seq_pos
      → (let failed = fail_all w s.active s.free_slots s.sent in
          IsSound w.cfg
            (record s { model = m; active = []; free_slots = failed.0; sent = failed.1 }))
  failed-IsSound m long = record {
    dealt = Perm.trans (fail_all-Perm w s.active s.free_slots s.sent) dealt;
    count = long ∙ count;
    room = tt;
  }

batch_end-IsSound :
    (w : World) (s : Worker) (q : Request) (reqs : List Request) (temps : List ℕ)
    (r : Model × Sampled)
    → Perm (slots s.active ++ s.free_slots) (upto 0 w.cfg.max_batch)
    → length s.model.seq_pos ≡ w.cfg.max_batch
    → All (HasMore w.cfg s.model) s.active
    → map (λ p. p.0) (q ∷ reqs) ≡ slots s.active
    → forward w.gpu w.cfg s.model (q ∷ reqs) temps ≡ some r
    → Passed w.gpu s.model (q ∷ reqs) r
    → Sound w.cfg (decode_batch w s (q ∷ reqs) temps)
unfolding decode_batch
batch_end-IsSound w s q reqs temps (m, none) dealt count room same ran passed =
    let failed = fail_all w s.active s.free_slots s.sent in
    (
      record s { model = m; active = []; free_slots = failed.0; sent = failed.1 },
      rw ran refl,
      failed-IsSound w s (q ∷ reqs) dealt count room same m passed.same,
    )
batch_end-IsSound w s q reqs temps (m, some toks) dealt count room same ran passed = (
  record s { model = m; active = assign s.active toks },
  rw ran refl,
  assigned-IsSound w s (q ∷ reqs) dealt count room same m toks passed.same passed.moved,
)

decode_batch-IsSound :
    (w : World) (s : Worker) (reqs : List Request) (temps : List ℕ)
    → Perm (slots s.active ++ s.free_slots) (upto 0 w.cfg.max_batch)
    → length s.model.seq_pos ≡ w.cfg.max_batch
    → All (HasMore w.cfg s.model) s.active
    → map (λ p. p.0) reqs ≡ slots s.active
    → length temps ≡ length reqs
    → Sound w.cfg (decode_batch w s reqs temps)
unfolding decode_batch
decode_batch-IsSound w s [] temps dealt count room same fits =
    (s, refl, no_batch-IsSound w s [] dealt count room same)
decode_batch-IsSound w s (q ∷ reqs) temps dealt count room same fits =
    let (r, ran, passed) =
      forward-Passed w.gpu w.cfg s.model (q ∷ reqs) temps count (omega arith)
        (few w s (q ∷ reqs) dealt count room same) fits
        (fit w s (q ∷ reqs) dealt count room same) in
    batch_end-IsSound w s q reqs temps r dealt count room same ran passed

-- A decode step of a sound worker does not panic and leaves it sound.
pub decode-IsSound : (w : World) (s : Worker) → IsSound w.cfg s → Sound w.cfg (decode w s)
unfolding decode Keeps
decode-IsSound w s sound =
    let b = batch_loop w s.active s.sent in
    let (r, ran, k) = batch_loop-Keeps w s.model s.active s.sent s.free_slots sound.room in
    rw ran (
      decode_batch-IsSound w (record s { active = r.0; free_slots = r.1; sent = b.sent }) b.reqs
        b.temps (Perm.trans k.dealt sound.dealt) sound.count k.room k.same k.temps)
