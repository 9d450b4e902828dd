-- ===== src/Worker/Log.antt =====
-- What the worker's operations do to the log: nothing follows the end of a generation.
use mathlib.Core.Option.{some-injective}
use free_token_rs.Prelude.{
  ℕ, ◌-◌, ◌≡◌, ◌≢◌, refl, sym, ap, subst, inl, inr, true, false, none, some, List, [], ◌∷◌, arith,
  All, Distinct, length, map, Option-cases, Bool-cases,
}
use free_token_rs.Worker.{
  WorkerEvent, token, done, ActiveSeq, World, send, finish_of, visit, Batch, add_seq, batch_loop,
  retain, assign, fail_all,
}

abbrev pub Log : Type 0
Log = List (ℕ × WorkerEvent)

abbrev pub txs : List ActiveSeq → List ℕ
txs seqs = map (λ q. q.tx) seqs

-- The event ends a generation.
abbrev pub Ends : WorkerEvent → Type 0
Ends (token id) = ⊥
Ends (done finish) = Unit

-- A client has not been told that its generation ended.
abbrev pub Clean : ℕ → Log → Type 0
Clean tx sent = All (λ m. m.0 ≡ tx → ¬ Ends m.1) sent

-- No client is sent anything after the end of its generation.
abbrev pub IsOrdered : Log → Type 0
IsOrdered [] = Unit
IsOrdered ((tx, event) ∷ sent) = Clean tx sent × IsOrdered sent

-- The clients are others.
abbrev pub Others : ℕ → List ActiveSeq → Type 0
Others tx seqs = All (λ t. tx ≢ t) (txs seqs)

pub send-IsOrdered :
    (w : World) (tx : ℕ) (event : WorkerEvent) (sent : Log)
    → Clean tx sent
    → IsOrdered sent
    → IsOrdered (send w tx event sent).0
unfolding send
send-IsOrdered w tx event sent clean ordered = elim (Bool-cases (w.gone tx (length sent))) [
  | inl gone ↦ rw gone ordered
  | inr here ↦ rw here (clean, ordered)
]

pub send-Clean :
    (w : World) (tx other : ℕ) (event : WorkerEvent) (sent : Log)
    → (tx ≡ other → ¬ Ends event)
    → Clean other sent
    → Clean other (send w tx event sent).0
unfolding send
send-Clean w tx other event sent fine clean = elim (Bool-cases (w.gone tx (length sent))) [
  | inl gone ↦ rw gone clean
  | inr here ↦ rw here (fine, clean)
]

pub Clean-All :
    (w : World) (tx : ℕ) (event : WorkerEvent) (sent : Log) (seqs : List ActiveSeq)
    → Others tx seqs
    → All (λ q. Clean q.tx sent) seqs
    → All (λ q. Clean q.tx (send w tx event sent).0) seqs
Clean-All w tx event sent [] others clean = tt
Clean-All w tx event sent (q ∷ seqs) others clean = (
  send-Clean w tx q.tx event sent (λ same. absurd (others.0 same)) clean.0,
  Clean-All w tx event sent seqs others.1 clean.1,
)

-- A turn sends to the sequence's client alone; one that stays has not been told of an end.
visit-IsOrdered :
    (w : World) (seq : ActiveSeq) (sent : Log)
    → Clean seq.tx sent
    → IsOrdered sent
    → IsOrdered (visit w seq sent).0
unfolding visit
visit-IsOrdered w seq sent clean ordered = elim (Option-cases (finish_of w seq)) [
  | inl goes_on ↦
      rw (goes_on, visit) (send-IsOrdered w seq.tx (token seq.next_token) sent clean ordered)
  | inr (f, over) ↦ rw (over, visit) (send-IsOrdered w seq.tx (done (some f)) sent clean ordered)
]

visit-Clean :
    (w : World) (seq : ActiveSeq) (sent : Log) (other : ℕ)
    → other ≢ seq.tx
    → Clean other sent
    → Clean other (visit w seq sent).0
unfolding visit
visit-Clean w seq sent other ne clean = elim (Option-cases (finish_of w seq)) [
  | inl goes_on ↦
      rw (goes_on, visit)
        (send-Clean w seq.tx other (token seq.next_token) sent (λ e. absurd (ne (sym e))) clean)
  | inr (f, over) ↦
      rw (over, visit)
        (send-Clean w seq.tx other (done (some f)) sent (λ e. absurd (ne (sym e))) clean)
]

visit-Clean_self :
    (w : World) (seq : ActiveSeq) (sent : Log)
    → (visit w seq sent).1 ≡ false
    → Clean seq.tx sent
    → Clean seq.tx (visit w seq sent).0
unfolding visit
visit-Clean_self w seq sent stays clean = elim (Option-cases (finish_of w seq)) [
  | inl goes_on ↦
      rw (goes_on, visit) (send-Clean w seq.tx seq.tx (token seq.next_token) sent (λ e h. h) clean)
  | inr (f, over) ↦ absurd (ground (arith, stays, over))
]

visit-Clean-All :
    (w : World) (seq : ActiveSeq) (sent : Log) (seqs : List ActiveSeq)
    → Others seq.tx seqs
    → All (λ q. Clean q.tx sent) seqs
    → All (λ q. Clean q.tx (visit w seq sent).0) seqs
visit-Clean-All w seq sent [] others clean = tt
visit-Clean-All w seq sent (q ∷ seqs) others clean = (
  visit-Clean w seq sent q.tx (λ e. others.0 (sym e)) clean.0,
  visit-Clean-All w seq sent seqs others.1 clean.1,
)

-- The log after a pass over the sequences, of which these stay.
pub record Passed (active : List ActiveSeq) (sent : Log) (b : Batch) (kept : List ActiveSeq)
    : Type 0 where
  pub ordered : IsOrdered b.sent
  pub clean : All (λ q. Clean q.tx b.sent) kept
  pub distinct : Distinct (txs kept)
  pub fewer : (tx : ℕ) → Others tx active → Others tx kept
  pub others : (tx : ℕ) → Others tx active → Clean tx sent → Clean tx b.sent

abbrev pub Passes : List ActiveSeq → Log → List ℕ → Batch → Type 0
Passes active sent free b =
    (r : List ActiveSeq × List ℕ) → retain b.seqs b.keep free ≡ some r → Passed active sent b r.0

left-Passes :
    (w : World) (seq : ActiveSeq) (active : List ActiveSeq) (sent : Log) (free : List ℕ) (b : Batch)
    → Passes active (visit w seq sent).0 (seq.slot ∷ free) b
    → Passes (seq ∷ active) sent free (add_seq seq true b)
unfolding retain add_seq
left-Passes w seq active sent free b later r ran =
    let p = later r ran in
    record {
      ordered = p.ordered;
      clean = p.clean;
      distinct = p.distinct;
      fewer = λ tx h. p.fewer tx h.1;
      others = λ tx h clean. p.others tx h.1 (visit-Clean w seq sent tx h.0 clean);
    }

stays-Passes :
    (w : World) (seq : ActiveSeq) (active : List ActiveSeq) (sent : Log) (free : List ℕ) (b : Batch)
    → Others seq.tx active
    → Clean seq.tx (visit w seq sent).0
    → Passes active (visit w seq sent).0 free b
    → Passes (seq ∷ active) sent free (add_seq seq false b)
unfolding retain add_seq
stays-Passes w seq active sent free b alone mine later r ran =
    elim (Option-cases (retain b.seqs b.keep free)) [
      | inl bad ↦ absurd (ground (arith, ran, bad))
      | inr (kept, good) ↦
          let p = later kept good in
          let same : (record seq { remaining = seq.remaining - 1 } ∷ kept.0, kept.1) ≡ r =
            ground (arith, ran, good) in
          subst (λ l. Passed (seq ∷ active) sent (add_seq seq false b) l.0) same
            (record {
              ordered = p.ordered;
              clean = (p.others seq.tx alone mine, p.clean);
              distinct = (p.fewer seq.tx alone, p.distinct);
              fewer = λ tx h. (h.0, p.fewer tx h.1);
              others = λ tx h clean. p.others tx h.1 (visit-Clean w seq sent tx h.0 clean);
            })
    ]

-- The pass over the sequences, none of whose clients has been told of an end.
pub batch_loop-Passes :
    (w : World) (active : List ActiveSeq) (sent : Log) (free : List ℕ)
    → IsOrdered sent
    → All (λ q. Clean q.tx sent) active
    → Distinct (txs active)
    → Passes active sent free (batch_loop w active sent)
unfolding batch_loop retain
batch_loop-Passes w [] sent free ordered clean distinct = λ r ran.
    subst (λ l. Passed [] sent (batch_loop w [] sent) l.0) (some-injective ([], free) r ran)
      (record {
        ordered = ordered;
        clean = tt;
        distinct = tt;
        fewer = λ tx h. tt;
        others = λ tx h clean. clean;
      })
batch_loop-Passes w (seq ∷ active) sent free ordered clean distinct =
    let v = visit w seq sent in
    let b = batch_loop w active v.0 in
    let ordered' = visit-IsOrdered w seq sent clean.0 ordered in
    let clean' = visit-Clean-All w seq sent active distinct.0 clean.1 in
    elim (Bool-cases v.1) [
      | inl left ↦ rw left (
          left-Passes w seq active sent free b
            (batch_loop-Passes w active v.0 (seq.slot ∷ free) ordered' clean' distinct.1))
      | inr stays ↦ rw stays (
          stays-Passes w seq active sent free b distinct.0
            (visit-Clean_self w seq sent stays clean.0)
            (batch_loop-Passes w active v.0 free ordered' clean' distinct.1))
    ]

pub txs-assign : (seqs : List ActiveSeq) (toks : List ℕ) → txs (assign seqs toks) ≡ txs seqs
unfolding assign
txs-assign [] toks = refl
txs-assign (seq ∷ seqs) [] = refl
txs-assign (seq ∷ seqs) (t ∷ toks) = ap (◌∷◌ seq.tx) (txs-assign seqs toks)

-- When the engine fails, each client is told so, and no other.
pub fail_all-IsOrdered :
    (w : World) (seqs : List ActiveSeq) (free : List ℕ) (sent : Log)
    → IsOrdered sent
    → All (λ q. Clean q.tx sent) seqs
    → Distinct (txs seqs)
    → IsOrdered (fail_all w seqs free sent).1
unfolding fail_all
fail_all-IsOrdered w [] free sent ordered clean distinct = ordered
fail_all-IsOrdered w (seq ∷ seqs) free sent ordered clean distinct =
    fail_all-IsOrdered w seqs (seq.slot ∷ free) (send w seq.tx (done none) sent).0
      (send-IsOrdered w seq.tx (done none) sent clean.0 ordered)
      (Clean-All w seq.tx (done none) sent seqs distinct.0 clean.1) distinct.1

pub fail_all-Clean :
    (w : World) (seqs : List ActiveSeq) (free : List ℕ) (sent : Log) (tx : ℕ)
    → Others tx seqs
    → Clean tx sent
    → Clean tx (fail_all w seqs free sent).1
unfolding fail_all
fail_all-Clean w [] free sent tx others clean = clean
fail_all-Clean w (seq ∷ seqs) free sent tx others clean =
    fail_all-Clean w seqs (seq.slot ∷ free) (send w seq.tx (done none) sent).0 tx others.1
      (send-Clean w seq.tx tx (done none) sent (λ e. absurd (others.0 (sym e))) clean)
