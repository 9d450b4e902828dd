-- ===== src/Worker/Slots.antt =====
-- The invariant of the worker, and the admission of jobs under it.
use mathlib.Core.List.{Perm}
use native.Mathlib.Decide.{dec_lt}
use free_token_rs.Prelude.{
  ℕ, zero, suc, ◌+◌, ◌-◌, ◌≤◌, ◌<◌, ◌≡◌, ◌≢◌, refl, sym, ap, subst, ◌∙◌, Option, none, some, List,
  [], ◌∷◌, ◌++◌, arith, min, All, All-append, All-right, Distinct, map, length, length-take, take,
  ◌==◌, if◌then◌else◌,
}
use free_token_rs.Engine.{Config, Model, Sampled, reset_slot, forward}
use free_token_rs.Engine.Advance.{position, times, Passed, reset_slot_lem, forward-Passed}
use free_token_rs.Worker.{
  GenJob, ActiveSeq, World, Worker, upto, WorkerEvent, prefill, reject, join, kept_prompt,
  admit_prompt, admit_job,
}
use free_token_rs.Worker.Range.{dealt-Distinct, dealt-All}

abbrev pub slots : List ActiveSeq → List ℕ
slots seqs = map (λ q. q.slot) seqs

-- Its context has room for what a sequence may still generate.
abbrev pub HasRoom : Config → Model → ActiveSeq → Type 0
HasRoom cfg m q = position m q.slot + q.remaining ≤ cfg.max_seq

-- Each slot is free or is that of one active sequence; there is a position for each slot; the
-- contexts of the active sequences have room.
pub record IsSound (cfg : Config) (s : Worker) : Type 0 where
  pub dealt : Perm (slots s.active ++ s.free_slots) (upto 0 cfg.max_batch)
  pub count : length s.model.seq_pos ≡ cfg.max_batch
  pub room : All (HasRoom cfg s.model) s.active

-- In a list without repetition, what stands before an element is not the element.
Distinct-middle : (xs ys : List ℕ) (y : ℕ) → Distinct (xs ++ y ∷ ys) → All (λ x. x ≢ y) xs
Distinct-middle [] ys y d = tt
Distinct-middle (x ∷ xs) ys y d =
    ((All-right (λ z. x ≢ z) xs (y ∷ ys) d.0).0, Distinct-middle xs ys y d.1)

All-slots : (P : ℕ → Type 0) (seqs : List ActiveSeq) → All P (slots seqs) → All (λ q. P q.slot) seqs
All-slots P [] h = tt
All-slots P (q ∷ seqs) h = (h.0, All-slots P seqs h.1)

-- The other sequences keep their room when one slot's position changes.
room_elsewhere :
    (cfg : Config) (m m' : Model) (slot : ℕ) (seqs : List ActiveSeq)
    → ((k : ℕ) → k ≢ slot → position m' k ≤ position m k)
    → All (λ x. x ≢ slot) (slots seqs)
    → All (HasRoom cfg m) seqs
    → All (HasRoom cfg m') seqs
room_elsewhere cfg m m' slot [] low other room = tt
room_elsewhere cfg m m' slot (q ∷ seqs) low other room = (
  omega (arith, low q.slot other.0, room.0),
  room_elsewhere cfg m m' slot seqs low other.1 room.1,
)

-- What the loop over a prompt leaves.
record Prefilled (m : Model) (slot n : ℕ) (m' : Model) : Type 0 where
  same : length m'.seq_pos ≡ length m.seq_pos
  here : position m' slot ≤ position m slot + n
  elsewhere : (k : ℕ) → k ≢ slot → position m' k ≤ position m k

times_one : (k slot token : ℕ) → k ≢ slot → times k ((slot, token) ∷ []) ≡ 0
unfolding times
times_one k slot token ne = ground arith

times_here : (slot token : ℕ) → times slot ((slot, token) ∷ []) ≡ 1
unfolding times
times_here slot token = ground arith

Prefills : World → Model → ℕ → ℕ → List ℕ → ℕ → Type 0
Prefills w m slot temperature prompt next =
    (r : Model × Option ℕ) × (prefill w m slot temperature prompt next ≡ some r)
    × Prefilled m slot (length prompt) r.0

prefill_step :
    (w : World) (m : Model) (slot temperature id : ℕ) (prompt : List ℕ) (next : ℕ)
    (r : Model × Sampled)
    → forward w.gpu w.cfg m ((slot, id) ∷ []) (temperature ∷ []) ≡ some r
    → Passed w.gpu m ((slot, id) ∷ []) r
    → Prefills w r.0 slot temperature prompt (w.gpu.token m.calls slot)
    → Prefills w m slot temperature (id ∷ prompt) next
unfolding prefill Prefills
prefill_step w m slot temperature id prompt next (m', none) ran passed later = (
  (m', none),
  rw ran refl,
  record {
    same = passed.same;
    here = omega (arith, passed.moved slot, times_here slot id);
    elsewhere = λ k ne. omega (arith, passed.moved k, times_one k slot id ne);
  },
)
prefill_step w m slot temperature id prompt next (m', some toks) ran passed (r', ran', later) =
    let e : toks ≡ w.gpu.token m.calls slot ∷ [] = ground (arith, passed.tokens) in
    (
      r',
      rw (ran, e) ran',
      record {
        same = later.same ∙ passed.same;
        here = omega (arith, later.here, passed.moved slot, times_here slot id);
        elsewhere =
            λ k ne. omega (arith, later.elsewhere k ne, passed.moved k, times_one k slot id ne);
      },
    )

prefill-Prefilled :
    (w : World) (m : Model) (slot temperature : ℕ) (prompt : List ℕ) (next : ℕ)
    → length m.seq_pos ≡ w.cfg.max_batch
    → slot < w.cfg.max_batch
    → position m slot + length prompt ≤ w.cfg.max_seq
    → Prefills w m slot temperature prompt next
unfolding prefill Prefills
prefill-Prefilled w m slot temperature [] next count inside fits = (
  (m, some next),
  refl,
  record { same = refl; here = omega arith; elsewhere = λ k ne. omega arith },
)
prefill-Prefilled w m slot temperature (id ∷ prompt) next count inside fits =
    let (r, ran, passed) =
      forward-Passed w.gpu w.cfg m ((slot, id) ∷ []) (temperature ∷ []) count (omega arith)
        (omega arith) refl ((inside, omega arith), tt) in
    prefill_step w m slot temperature id prompt next r ran passed (
      prefill-Prefilled w r.0 slot temperature prompt (w.gpu.token m.calls slot)
        (passed.same ∙ count) inside (omega (arith, passed.moved slot, times_here slot id)))

-- The slot of an admitted job is no active sequence's.
Dealt : Config → Worker → ℕ → List ℕ → Type 0
Dealt cfg s slot free = Perm (slots s.active ++ slot ∷ free) (upto 0 cfg.max_batch)

reject-IsSound :
    (w : World) (j : GenJob) (slot : ℕ) (free : List ℕ) (s : Worker) (m : Model)
    → Dealt w.cfg s slot free
    → length m.seq_pos ≡ w.cfg.max_batch
    → All (HasRoom w.cfg m) s.active
    → IsSound w.cfg (reject w j slot free s m)
unfolding reject Dealt
reject-IsSound w j slot free s m dealt count room = record {
  dealt = dealt;
  count = count;
  room = room;
}

pub slots-append :
    (seqs : List ActiveSeq) (q : ActiveSeq) (free : List ℕ)
    → slots (seqs ++ q ∷ []) ++ free ≡ slots seqs ++ q.slot ∷ free
slots-append [] q free = refl
slots-append (p ∷ seqs) q free = ap (◌∷◌ p.slot) (slots-append seqs q free)

join-IsSound :
    (w : World) (j : GenJob) (slot : ℕ) (free : List ℕ) (s : Worker) (m : Model) (next : ℕ)
    → Dealt w.cfg s slot free
    → length m.seq_pos ≡ w.cfg.max_batch
    → All (HasRoom w.cfg m) s.active
    → position m slot + j.max_new ≤ w.cfg.max_seq
    → IsSound w.cfg (join j slot free s m next)
unfolding join Dealt
join-IsSound w j slot free s m next dealt count room fits =
    let q : ActiveSeq = record {
      slot = slot;
      tx = j.tx;
      temperature = j.temperature;
      remaining = j.max_new;
      next_token = next;
    } in
    record {
      dealt =
          subst (λ l. Perm l (upto 0 w.cfg.max_batch)) (sym (slots-append s.active q free)) dealt;
      count = count;
      room = All-append (HasRoom w.cfg m) s.active (q ∷ []) room (fits, tt);
    }

abbrev pub Sound : Config → Option Worker → Type 0
Sound cfg o = (s : Worker) × (o ≡ some s) × IsSound cfg s

settle-IsSound :
    (w : World) (j : GenJob) (slot id : ℕ) (free : List ℕ) (s : Worker) (m : Model)
    (prompt : List ℕ) (r : Model × Option ℕ)
    → prefill w m slot j.temperature (id ∷ prompt) 0 ≡ some r
    → Dealt w.cfg s slot free
    → length r.0.seq_pos ≡ w.cfg.max_batch
    → All (HasRoom w.cfg r.0) s.active
    → position r.0 slot + j.max_new ≤ w.cfg.max_seq
    → Sound w.cfg (admit_prompt w j slot free s m (id ∷ prompt))
unfolding admit_prompt
settle-IsSound w j slot id free s m prompt (m', none) ran dealt count room fits =
    (reject w j slot free s m', rw ran refl, reject-IsSound w j slot free s m' dealt count room)
settle-IsSound w j slot id free s m prompt (m', some next) ran dealt count room fits = (
  join j slot free s m' next,
  rw ran refl,
  join-IsSound w j slot free s m' next dealt count room fits,
)

module _ (w : World) (j : GenJob) (slot : ℕ) (free : List ℕ) (s : Worker)
    (dealt : Dealt w.cfg s slot free) where
  slot-lt : slot < w.cfg.max_batch
  unfolding Dealt
  slot-lt =
      (All-right (λ x. x < w.cfg.max_batch) (slots s.active) (slot ∷ free)
        (dealt-All (slots s.active ++ slot ∷ free) w.cfg.max_batch dealt)).0

  slot-ne : All (λ x. x ≢ slot) (slots s.active)
  unfolding Dealt
  slot-ne =
      Distinct-middle (slots s.active) free slot
        (dealt-Distinct (slots s.active ++ slot ∷ free) w.cfg.max_batch dealt)

  admit_prompt-IsSound :
      (m : Model) (prompt : List ℕ)
      → length m.seq_pos ≡ w.cfg.max_batch
      → All (HasRoom w.cfg m) s.active
      → position m slot ≡ 0
      → (prompt ≢ [] → length prompt + j.max_new ≤ w.cfg.max_seq)
      → Sound w.cfg (admit_prompt w j slot free s m prompt)
  unfolding admit_prompt Prefills
  admit_prompt-IsSound m [] count room fresh fits =
      (reject w j slot free s m, refl, reject-IsSound w j slot free s m dealt count room)
  admit_prompt-IsSound m (id ∷ prompt) count room fresh fits =
      let small = fits (λ e. ground arith) in
      let (r, ran, p) =
        prefill-Prefilled w m slot j.temperature (id ∷ prompt) 0 count slot-lt (omega arith) in
      settle-IsSound w j slot id free s m prompt r ran dealt (p.same ∙ count)
        (room_elsewhere w.cfg m r.0 slot s.active p.elsewhere slot-ne room) (omega (arith, p.here))

take_none : (n : ℕ) (xs : List ℕ) → n ≡ 0 → take n xs ≡ []
take_none zero xs e = refl
take_none (suc n) xs e = absurd (omega arith)

kept_prompt_fits :
    (cfg : Config) (j : GenJob)
    → kept_prompt cfg j ≢ []
    → length (kept_prompt cfg j) + j.max_new ≤ cfg.max_seq
unfolding kept_prompt
kept_prompt_fits cfg j ne = elim (dec_lt j.max_new cfg.max_seq) [
  | yes lt ↦
      omega (arith, length-take (min (length j.prompt_ids) (cfg.max_seq - j.max_new)) j.prompt_ids)
  | no ge ↦ absurd (
      ne (
        take_none (min (length j.prompt_ids) (cfg.max_seq - j.max_new)) j.prompt_ids (omega arith)))
]

-- A popped slot.
popped-IsSound :
    (w : World) (j : GenJob) (s : Worker) (slot : ℕ) (free : List ℕ) (m : Model)
    → Dealt w.cfg s slot free
    → IsSound w.cfg s
    → reset_slot s.model slot ≡ some m
    → length m.seq_pos ≡ length s.model.seq_pos
    → ((k : ℕ) → position m k ≡ (if k == slot then 0 else position s.model k))
    → Sound w.cfg (admit_prompt w j slot free s m (kept_prompt w.cfg j))
popped-IsSound w j s slot free m dealt sound ran same places =
    admit_prompt-IsSound w j slot free s dealt m (kept_prompt w.cfg j) (same ∙ sound.count)
      (room_elsewhere w.cfg s.model m slot s.active (λ k ne. ground (arith, places k))
        (slot-ne w j slot free s dealt) sound.room)
      (ground (arith, places slot)) (kept_prompt_fits w.cfg j)

-- A sound worker with the free slots given.
admit_job_at :
    (w : World) (j : GenJob) (model : Model) (active : List ActiveSeq) (free : List ℕ)
    (sent : List (ℕ × WorkerEvent))
    → (let s : Worker = record { model = model; active = active; free_slots = free; sent = sent } in
        IsSound w.cfg s → free ≢ [] → Sound w.cfg (admit_job w j s))
unfolding admit_job Dealt
admit_job_at w j model active [] sent sound ne = absurd (ne refl)
admit_job_at w j model active (slot ∷ free) sent sound ne =
    let s : Worker = record {
      model = model;
      active = active;
      free_slots = slot ∷ free;
      sent = sent;
    } in
    let inside = slot-lt w j slot free s sound.dealt in
    let (m, ran, same, places) = reset_slot_lem model slot (omega (arith, sound.count)) in
    rw ran (popped-IsSound w j s slot free m sound.dealt sound ran same places)

-- Admitting a job to a sound worker with a free slot does not panic and leaves it sound.
pub admit_job-IsSound :
    (w : World) (j : GenJob) (s : Worker)
    → IsSound w.cfg s
    → s.free_slots ≢ []
    → Sound w.cfg (admit_job w j s)
admit_job-IsSound w j s sound ne = admit_job_at w j s.model s.active s.free_slots s.sent sound ne
