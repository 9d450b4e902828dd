-- ===== src/Worker/Told.antt =====
-- What a client is told, in all rounds of the worker.
use mathlib.Core.Option.{some-injective}
use free_token_rs.Prelude.{
  ℕ, ◌≡◌, ◌≢◌, sym, subst, inl, inr, Option, none, some, List, [], ◌∷◌, ◌++◌, arith, All,
  All-append, Distinct, Option-cases, ◌>>=◌,
}
use free_token_rs.Engine.{Model, reset_slot}
use free_token_rs.Worker.{
  done, GenJob, ActiveSeq, World, Worker, Arrival, job, empty, closed, prefill, reject, join,
  kept_prompt, admit_prompt, admit_job, Admitted, returned, blocked, decoding, admit_loop,
}
use free_token_rs.Worker.Log.{
  Log, txs, Clean, IsOrdered, Others, send-IsOrdered, send-Clean, Clean-All,
}

-- Nothing follows an end in the log; each active sequence has its own client, which has not been
-- told of an end.
pub record IsClear (s : Worker) : Type 0 where
  pub ordered : IsOrdered s.sent
  pub clean : All (λ q. Clean q.tx s.sent) s.active
  pub distinct : Distinct (txs s.active)

-- A client that no active sequence has, and that has not been told of an end.
abbrev pub Fresh : ℕ → Worker → Type 0
Fresh tx s = Others tx s.active × Clean tx s.sent

-- A worker after some work, in which other clients than these are as fresh as before.
record After (tx : ℕ) (s s' : Worker) : Type 0 where
  clear : IsClear s'
  fresh : (other : ℕ) → other ≢ tx → Fresh other s → Fresh other s'

reject-After :
    (w : World) (j : GenJob) (slot : ℕ) (free : List ℕ) (s : Worker) (m : Model)
    → IsClear s
    → Fresh j.tx s
    → After j.tx s (reject w j slot free s m)
unfolding reject
reject-After w j slot free s m clear (others, clean) = record {
  clear = record {
    ordered = send-IsOrdered w j.tx (done none) s.sent clean clear.ordered;
    clean = Clean-All w j.tx (done none) s.sent s.active others clear.clean;
    distinct = clear.distinct;
  };
  fresh = λ other ne f.
      (f.0, send-Clean w j.tx other (done none) s.sent (λ e. absurd (ne (sym e))) f.1);
}

Others-append :
    (tx : ℕ) (seqs : List ActiveSeq) (q : ActiveSeq)
    → Others tx seqs
    → tx ≢ q.tx
    → Others tx (seqs ++ q ∷ [])
Others-append tx [] q h ne = (ne, tt)
Others-append tx (p ∷ seqs) q h ne = (h.0, Others-append tx seqs q h.1 ne)

Distinct-append :
    (seqs : List ActiveSeq) (q : ActiveSeq)
    → Distinct (txs seqs)
    → Others q.tx seqs
    → Distinct (txs (seqs ++ q ∷ []))
Distinct-append [] q d h = (tt, tt)
Distinct-append (p ∷ seqs) q d h =
    (Others-append p.tx seqs q d.0 (λ e. h.0 (sym e)), Distinct-append seqs q d.1 h.1)

join-After :
    (j : GenJob) (slot : ℕ) (free : List ℕ) (s : Worker) (m : Model) (next : ℕ)
    → IsClear s
    → Fresh j.tx s
    → After j.tx s (join j slot free s m next)
unfolding join
join-After j slot free s m next clear (others, clean) =
    let q : ActiveSeq = record {
      slot = slot;
      tx = j.tx;
      temperature = j.temperature;
      remaining = j.max_new;
      next_token = next;
    } in
    record {
      clear = record {
        ordered = clear.ordered;
        clean = All-append (λ q. Clean q.tx s.sent) s.active (q ∷ []) clear.clean (clean, tt);
        distinct = Distinct-append s.active q clear.distinct others;
      };
      fresh = λ other ne f. (Others-append other s.active q f.0 ne, f.1);
    }

-- A worker that comes from another.
Comes : ℕ → Worker → Option Worker → Type 0
Comes tx s o = (s' : Worker) → o ≡ some s' → After tx s s'

admit_prompt-After :
    (w : World) (j : GenJob) (slot : ℕ) (free : List ℕ) (s : Worker) (m : Model) (prompt : List ℕ)
    → IsClear s
    → Fresh j.tx s
    → Comes j.tx s (admit_prompt w j slot free s m prompt)
unfolding admit_prompt Comes
admit_prompt-After w j slot free s m [] clear fresh = λ s' ran.
    subst (After j.tx s) (some-injective (reject w j slot free s m) s' ran)
      (reject-After w j slot free s m clear fresh)
admit_prompt-After w j slot free s m (id ∷ prompt) clear fresh = λ s' ran.
    elim (Option-cases (prefill w m slot j.temperature (id ∷ prompt) 0)) [
      | inl bad ↦ absurd (ground (arith, ran, bad))
      | inr ((m', none), is) ↦
          subst (After j.tx s) (ground (arith, ran, is))
            (reject-After w j slot free s m' clear fresh)
      | inr ((m', some next), is) ↦
          subst (After j.tx s) (ground (arith, ran, is))
            (join-After j slot free s m' next clear fresh)
    ]

admit_job-After :
    (w : World) (j : GenJob) (model : Model) (active : List ActiveSeq) (free : List ℕ) (sent : Log)
    → (let s : Worker = record { model = model; active = active; free_slots = free; sent = sent } in
        IsClear s → Fresh j.tx s → Comes j.tx s (admit_job w j s))
unfolding admit_job Comes
admit_job-After w j model active [] sent clear fresh = λ s' ran. absurd (ground (arith, ran))
admit_job-After w j model active (slot ∷ free) sent clear fresh = λ s' ran.
    elim (Option-cases (reset_slot model slot)) [
      | inl bad ↦ absurd (ground (arith, ran, bad))
      | inr (m, is) ↦
          admit_prompt-After w j slot free
            (record { model = model; active = active; free_slots = slot ∷ free; sent = sent }) m
            (kept_prompt w.cfg j) clear fresh s' (ground (arith, ran, is))
    ]

-- The clients of the jobs that arrive.
abbrev pub clients : List Arrival → List ℕ
clients [] = []
clients (job j ∷ arrivals) = j.tx ∷ clients arrivals
clients (empty ∷ arrivals) = clients arrivals
clients (closed ∷ arrivals) = clients arrivals

After-All :
    (tx : ℕ) (s s' : Worker) (others : List ℕ)
    → After tx s s'
    → All (λ t. tx ≢ t) others
    → All (λ t. Fresh t s) others
    → All (λ t. Fresh t s') others
After-All tx s s' [] after apart fresh = tt
After-All tx s s' (t ∷ others) after apart fresh =
    (after.fresh t (λ e. apart.0 (sym e)) fresh.0, After-All tx s s' others after apart.1 fresh.1)

module _ (w : World) where
  unfoldable pub Ready : List Arrival → Worker → Type 0
  Ready arrivals s =
      IsClear s × All (λ t. Fresh t s) (clients arrivals) × Distinct (clients arrivals)

  unfoldable pub Clears : Option (Worker × Admitted) → Type 0
  Clears o = (a : Worker × Admitted) → o ≡ some a → IsClear a.0

  here : (s : Worker) (how : Admitted) → IsClear s → Clears (some (s, how))
  unfolding Clears
  here s how clear =
      λ a ran. subst (λ (x : Worker × Admitted). IsClear x.0) (some-injective (s, how) a ran) clear

  admit_then-Clears :
      (arrivals : List Arrival) (j : GenJob) (s : Worker)
      → Ready (job j ∷ arrivals) s
      → ((s' : Worker) → Ready arrivals s' → Clears (admit_loop w arrivals s'))
      → Clears (admit_job w j s >>= λ s'. admit_loop w arrivals s')
  unfolding Clears Ready Comes
  admit_then-Clears arrivals j s (clear, fresh, distinct) later = λ a ran.
      elim (Option-cases (admit_job w j s)) [
        | inl bad ↦ absurd (ground (arith, ran, bad))
        | inr (s', is) ↦
            let after =
              admit_job-After w j s.model s.active s.free_slots s.sent clear fresh.0 s' is in
            later s'
              (
                after.clear,
                After-All j.tx s s' (clients arrivals) after distinct.0 fresh.1,
                distinct.1,
              )
              a (ground (arith, ran, is))
      ]

  pub admit_loop-Clears :
      (arrivals : List Arrival) (model : Model) (active : List ActiveSeq) (free : List ℕ)
      (sent : Log)
      → (let s : Worker = record {
        model = model;
        active = active;
        free_slots = free;
        sent = sent;
      } in
          Ready arrivals s → Clears (admit_loop w arrivals s))
  unfolding admit_loop Ready
  admit_loop-Clears [] model [] free sent h = here _ blocked h.0
  admit_loop-Clears [] model (q ∷ qs) free sent h = here _ (decoding []) h.0
  admit_loop-Clears (job j ∷ arrivals) model [] free sent h =
      admit_then-Clears arrivals j
        (record { model = model; active = []; free_slots = free; sent = sent }) h
        (λ s' h'. admit_loop-Clears arrivals s'.model s'.active s'.free_slots s'.sent h')
  admit_loop-Clears (empty ∷ arrivals) model [] free sent h =
      admit_loop-Clears arrivals model [] free sent h
  admit_loop-Clears (closed ∷ arrivals) model [] free sent h = here _ returned h.0
  admit_loop-Clears (a ∷ arrivals) model (q ∷ qs) [] sent h = here _ (decoding (a ∷ arrivals)) h.0
  admit_loop-Clears (job j ∷ arrivals) model (q ∷ qs) (f ∷ free) sent h =
      admit_then-Clears arrivals j
        (record { model = model; active = q ∷ qs; free_slots = f ∷ free; sent = sent }) h
        (λ s' h'. admit_loop-Clears arrivals s'.model s'.active s'.free_slots s'.sent h')
  admit_loop-Clears (empty ∷ arrivals) model (q ∷ qs) (f ∷ free) sent h =
      here _ (decoding arrivals) h.0
  admit_loop-Clears (closed ∷ arrivals) model (q ∷ qs) (f ∷ free) sent h =
      here _ (decoding arrivals) h.0
