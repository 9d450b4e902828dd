-- ===== src/Worker/Rounds.antt =====
-- The rounds of the worker: its invariant on every reachable state, and that no round panics.
use mathlib.Core.List.Perm
use free_token_rs.Prelude.{
  ℕ, ◌<◌, ◌≡◌, ◌≢◌, refl, subst, Option, some, List, [], ◌∷◌, ◌++◌, arith, length, length-replicate,
  ◌>>=◌,
}
use free_token_rs.Engine.{Config, Model}
use free_token_rs.Worker.{
  GenJob, ActiveSeq, World, Worker, WorkerEvent, upto, start, Arrival, job, empty, closed, Admitted,
  returned, blocked, decoding, admit_job, admit_loop, round,
}
use free_token_rs.Worker.Lengths.{length-Perm, length-upto}
use free_token_rs.Worker.Slots.{slots, IsSound, admit_job-IsSound}
use free_token_rs.Worker.Decode.{decode-IsSound}

pub start-IsSound : (cfg : Config) → IsSound cfg (start cfg)
unfolding start
start-IsSound cfg = record {
  dealt = Perm.refl (upto 0 cfg.max_batch);
  count = length-replicate cfg.max_batch 0;
  room = tt;
}

-- A worker that is idle has a free slot.
idle_free :
    (cfg : Config) (s : Worker)
    → 0 < cfg.max_batch
    → IsSound cfg s
    → s.active ≡ []
    → s.free_slots ≢ []
idle_free cfg s some_slot sound idle none_free =
    let all = length-Perm sound.dealt in
    let n : length (slots s.active ++ s.free_slots) ≡ 0 = rw (idle, none_free) refl in
    omega (arith, length-upto 0 cfg.max_batch)

abbrev pub SoundRound : Config → Option (Worker × Admitted) → Type 0
SoundRound cfg o = (r : Worker × Admitted) × (o ≡ some r) × IsSound cfg r.0

module _ (w : World) (some_slot : 0 < w.cfg.max_batch) where
  -- A job is admitted, and the loop goes on.
  admit_then :
      (arrivals : List Arrival) (j : GenJob) (s : Worker)
      → IsSound w.cfg s
      → s.free_slots ≢ []
      → ((s' : Worker) → IsSound w.cfg s' → SoundRound w.cfg (admit_loop w arrivals s'))
      → SoundRound w.cfg (admit_job w j s >>= λ s'. admit_loop w arrivals s')
  admit_then arrivals j s sound free later =
      let (s', ran, sound') = admit_job-IsSound w j s sound free in rw ran (later s' sound')

  admit_loop_at :
      (arrivals : List Arrival) (model : Model) (active : List ActiveSeq) (free : List ℕ)
      (sent : List (ℕ × WorkerEvent))
      → (let s : Worker = record {
        model = model;
        active = active;
        free_slots = free;
        sent = sent;
      } in
          IsSound w.cfg s → SoundRound w.cfg (admit_loop w arrivals s))
  unfolding admit_loop
  admit_loop_at [] model [] free sent sound = (
    (record { model = model; active = []; free_slots = free; sent = sent }, blocked),
    refl,
    sound,
  )
  admit_loop_at [] model (q ∷ qs) free sent sound = (
    (record { model = model; active = q ∷ qs; free_slots = free; sent = sent }, decoding []),
    refl,
    sound,
  )
  admit_loop_at (job j ∷ arrivals) model [] free sent sound =
      let s : Worker = record { model = model; active = []; free_slots = free; sent = sent } in
      admit_then arrivals j s sound (idle_free w.cfg s some_slot sound refl)
        (λ s' sound'. admit_loop_at arrivals s'.model s'.active s'.free_slots s'.sent sound')
  admit_loop_at (empty ∷ arrivals) model [] free sent sound =
      admit_loop_at arrivals model [] free sent sound
  admit_loop_at (closed ∷ arrivals) model [] free sent sound = (
    (record { model = model; active = []; free_slots = free; sent = sent }, returned),
    refl,
    sound,
  )
  admit_loop_at (a ∷ arrivals) model (q ∷ qs) [] sent sound = (
    (
      record { model = model; active = q ∷ qs; free_slots = []; sent = sent },
      decoding (a ∷ arrivals),
    ),
    refl,
    sound,
  )
  admit_loop_at (job j ∷ arrivals) model (q ∷ qs) (f ∷ free) sent sound =
      let s : Worker = record {
        model = model;
        active = q ∷ qs;
        free_slots = f ∷ free;
        sent = sent;
      } in
      admit_then arrivals j s sound (λ e. ground arith)
        (λ s' sound'. admit_loop_at arrivals s'.model s'.active s'.free_slots s'.sent sound')
  admit_loop_at (empty ∷ arrivals) model (q ∷ qs) (f ∷ free) sent sound = (
    (
      record { model = model; active = q ∷ qs; free_slots = f ∷ free; sent = sent },
      decoding arrivals,
    ),
    refl,
    sound,
  )
  admit_loop_at (closed ∷ arrivals) model (q ∷ qs) (f ∷ free) sent sound = (
    (
      record { model = model; active = q ∷ qs; free_slots = f ∷ free; sent = sent },
      decoding arrivals,
    ),
    refl,
    sound,
  )

  decoded-IsSound :
      (arrivals : List Arrival) (s : Worker) (a : Worker × Admitted)
      → admit_loop w arrivals s ≡ some a
      → IsSound w.cfg a.0
      → SoundRound w.cfg (round w arrivals s)
  unfolding round
  decoded-IsSound arrivals s (s', returned) ran sound = ((s', returned), rw ran refl, sound)
  decoded-IsSound arrivals s (s', blocked) ran sound = ((s', blocked), rw ran refl, sound)
  decoded-IsSound arrivals s (s', decoding rest) ran sound =
      let (t, ran', sound') = decode-IsSound w s' sound in
      ((t, decoding rest), rw (ran, ran') refl, sound')

  round-IsSound :
      (arrivals : List Arrival) (s : Worker)
      → IsSound w.cfg s
      → SoundRound w.cfg (round w arrivals s)
  round-IsSound arrivals s sound =
      let (a, ran, sound') = admit_loop_at arrivals s.model s.active s.free_slots s.sent sound in
      decoded-IsSound arrivals s a ran sound'

-- The states that the worker comes to, whatever arrives.
pub data IsReachable (w : World) : Worker → Type 0 where
  at_start : IsReachable w (start w.cfg)
  after_round :
      (s : Worker) (arrivals : List Arrival) (r : Worker × Admitted)
      → IsReachable w s
      → round w arrivals s ≡ some r
      → IsReachable w (r.0)

-- In a worker with at least one slot, in every state that it comes to, whatever arrives, whatever
-- the model samples, whichever calls of CUDA fail and whichever clients go away: each slot is free
-- or is that of exactly one active sequence, and the context of each active sequence has room for
-- all the tokens that it may still generate.
pub reachable-IsSound :
    (w : World) (s : Worker) → 0 < w.cfg.max_batch → IsReachable w s → IsSound w.cfg s
reachable-IsSound w _ some_slot at_start = start-IsSound w.cfg
reachable-IsSound w _ some_slot (after_round s arrivals r reached ran) =
    let (r', ran', sound) =
      round-IsSound w some_slot arrivals s (reachable-IsSound w s some_slot reached) in
    let e : r' ≡ r = ground (arith, ran, ran') in
    subst (λ (t : Worker × Admitted). IsSound w.cfg (t.0)) e sound
