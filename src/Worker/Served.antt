-- ===== src/Worker/Served.antt =====
-- All rounds of the worker: each client gets tokens and then at most one end.
use mathlib.Core.Option.{some-injective}
use free_token_rs.Prelude.{
  ℕ, ◌≡◌, ◌≢◌, refl, sym, subst, inl, inr, none, some, List, [], ◌∷◌, arith, All, All-imp, Distinct,
  Option-cases, Bool-cases, ◌==◌, if◌then◌else◌,
}
use free_token_rs.Engine.{Request, forward}
use free_token_rs.Worker.{
  WorkerEvent, ActiveSeq, World, Worker, start, Arrival, Admitted, returned, blocked, decoding,
  admit_loop, batch_loop, retain, assign, fail_all, decode_batch, decode, round,
}
use free_token_rs.Worker.Log.{
  Log, Ends, Clean, IsOrdered, Others, batch_loop-Passes, txs-assign, fail_all-IsOrdered,
}
use free_token_rs.Worker.Told.{IsClear, Fresh, clients, Clears, Ready, admit_loop-Clears}

Clean-assign :
    (sent : Log) (seqs : List ActiveSeq) (toks : List ℕ)
    → All (λ q. Clean q.tx sent) seqs
    → All (λ q. Clean q.tx sent) (assign seqs toks)
unfolding assign
Clean-assign sent [] toks clean = tt
Clean-assign sent (seq ∷ seqs) [] clean = clean
Clean-assign sent (seq ∷ seqs) (t ∷ toks) clean = (clean.0, Clean-assign sent seqs toks clean.1)

decode_batch-IsClear :
    (w : World) (s : Worker) (reqs : List Request) (temps : List ℕ) (s' : Worker)
    → IsClear s
    → decode_batch w s reqs temps ≡ some s'
    → IsClear s'
unfolding decode_batch
decode_batch-IsClear w s [] temps s' clear ran = subst IsClear (some-injective s s' ran) clear
decode_batch-IsClear w s (r ∷ reqs) temps s' clear ran =
    elim (Option-cases (forward w.gpu w.cfg s.model (r ∷ reqs) temps)) [
      | inl bad ↦ absurd (ground (arith, ran, bad))
      | inr ((m, some toks), is) ↦
          let same : record s { model = m; active = assign s.active toks } ≡ s' =
            ground (arith, ran, is) in
          subst IsClear same (record {
            ordered = clear.ordered;
            clean = Clean-assign s.sent s.active toks clear.clean;
            distinct = subst Distinct (sym (txs-assign s.active toks)) clear.distinct;
          })
      | inr ((m, none), is) ↦
          let failed = fail_all w s.active s.free_slots s.sent in
          let same : record s { model = m; active = []; free_slots = failed.0; sent = failed.1 }
              ≡ s' =
            ground (arith, ran, is) in
          subst IsClear same (record {
            ordered =
                fail_all-IsOrdered w s.active s.free_slots s.sent clear.ordered clear.clean
                  clear.distinct;
            clean = tt;
            distinct = tt;
          })
    ]

decode-IsClear : (w : World) (s s' : Worker) → IsClear s → decode w s ≡ some s' → IsClear s'
unfolding decode
decode-IsClear w s s' clear ran =
    let b = batch_loop w s.active s.sent in
    elim (Option-cases (retain b.seqs b.keep s.free_slots)) [
      | inl bad ↦ absurd (ground (arith, ran, bad))
      | inr (kept, is) ↦
          let p =
            batch_loop-Passes w s.active s.sent s.free_slots clear.ordered clear.clean
              clear.distinct kept is in
          decode_batch-IsClear w (record s { active = kept.0; free_slots = kept.1; sent = b.sent })
            b.reqs b.temps s'
            (record { ordered = p.ordered; clean = p.clean; distinct = p.distinct })
            (ground (arith, ran, is))
    ]

round-Clears :
    (w : World) (arrivals : List Arrival) (s : Worker)
    → Ready w arrivals s
    → Clears w (round w arrivals s)
unfolding round Clears
round-Clears w arrivals s ready r ran = elim (Option-cases (admit_loop w arrivals s)) [
  | inl bad ↦ absurd (ground (arith, ran, bad))
  | inr ((s1, returned), is) ↦ clear_of r s1 returned is (ground (arith, ran, is))
  | inr ((s1, blocked), is) ↦ clear_of r s1 blocked is (ground (arith, ran, is))
  | inr ((s1, decoding rest), is) ↦ elim (Option-cases (decode w s1)) [
    | inl bad ↦ absurd (ground (arith, ran, is, bad))
    | inr (s', goes) ↦
        let same : (s', decoding rest) ≡ r = ground (arith, ran, is, goes) in
        subst (λ (x : Worker × Admitted). IsClear x.0) same
          (decode-IsClear w s1 s' (clear_of (s1, decoding rest) s1 (decoding rest) is refl) goes)
  ]
]
  where
    clear_of :
        (r : Worker × Admitted) (s1 : Worker) (how : Admitted)
        → admit_loop w arrivals s ≡ some (s1, how)
        → (s1, how) ≡ r
        → IsClear r.0
    clear_of r s1 how is same =
        subst (λ (x : Worker × Admitted). IsClear x.0) same
          (admit_loop-Clears w arrivals s.model s.active s.free_slots s.sent ready (s1, how) is)

-- A client that no active sequence has and that has not been sent anything.
abbrev IsNew : ℕ → Worker → Type 0
IsNew tx s = Others tx s.active × All (λ m. m.0 ≢ tx) s.sent

-- The workers that rounds lead to, in which each job brings a new client.
pub data IsServed (w : World) : Worker → Type 0 where
  opened : IsServed w (start w.cfg)
  after_jobs :
      {s : Worker}
      → IsServed w s
      → (arrivals : List Arrival) (r : Worker × Admitted)
      → All (λ tx. IsNew tx s) (clients arrivals)
      → Distinct (clients arrivals)
      → round w arrivals s ≡ some r
      → IsServed w r.0

IsNew-Fresh : (s : Worker) (tx : ℕ) → IsNew tx s → Fresh tx s
IsNew-Fresh s tx (others, unsent) = (
  others,
  All-imp (λ m. m.0 ≢ tx) (λ m. m.0 ≡ tx → ¬ Ends m.1) s.sent (λ m ne same. absurd (ne same))
      unsent,
)

IsServed-IsClear : (w : World) (s : Worker) → IsServed w s → IsClear s
unfolding start Clears Ready
IsServed-IsClear w s opened = record { ordered = tt; clean = tt; distinct = tt }
IsServed-IsClear w s (after_jobs {s = s0} before arrivals r new distinct ran) =
    round-Clears w arrivals s0
      (
        IsServed-IsClear w s0 before,
        All-imp (λ tx. IsNew tx s0) (λ tx. Fresh tx s0) (clients arrivals) (IsNew-Fresh s0) new,
        distinct,
      )
      r ran

-- What a client has been sent, the newest first.
pub messages : ℕ → Log → List WorkerEvent
messages tx [] = []
messages tx ((t, event) ∷ sent) = if t == tx then event ∷ messages tx sent else messages tx sent

-- All but the newest message are tokens.
abbrev pub IsTold : List WorkerEvent → Type 0
IsTold [] = Unit
IsTold (event ∷ earlier) = All (λ e. ¬ Ends e) earlier

messages-Clean : (tx : ℕ) (sent : Log) → Clean tx sent → All (λ e. ¬ Ends e) (messages tx sent)
unfolding messages
messages-Clean tx [] clean = tt
messages-Clean tx ((t, event) ∷ sent) clean = elim (Bool-cases (t == tx)) [
  | inl same ↦ rw same (clean.0 (ground (arith, same)), messages-Clean tx sent clean.1)
  | inr apart ↦ rw apart (messages-Clean tx sent clean.1)
]

messages-IsTold : (tx : ℕ) (sent : Log) → IsOrdered sent → IsTold (messages tx sent)
unfolding messages
messages-IsTold tx [] ordered = tt
messages-IsTold tx ((t, event) ∷ sent) ordered = elim (Bool-cases (t == tx)) [
  | inl same ↦
      let is : t ≡ tx = ground (arith, same) in
      rw same (messages-Clean tx sent (subst (λ x. Clean x sent) is ordered.0))
  | inr apart ↦ rw apart (messages-IsTold tx sent ordered.1)
]

-- What clients are told: all that each has been sent but the newest message are tokens, and the
-- client of an active sequence has been sent tokens alone.
pub record Told (s : Worker) : Type 0 where
  pub once : (tx : ℕ) → IsTold (messages tx s.sent)
  pub goes_on : All (λ q. All (λ e. ¬ Ends e) (messages q.tx s.sent)) s.active

-- In every state that the worker comes to, if each job brings a client that has no active sequence
-- and has not been sent anything: whatever the model samples, whichever calls of CUDA fail and
-- whichever clients go away, all that a client has been sent but the newest message are tokens, so
-- that it is told at most one end and nothing after it. A client whose sequence is still active has
-- been sent tokens alone.
pub IsServed-Told : (w : World) (s : Worker) → IsServed w s → Told s
IsServed-Told w s served =
    let clear = IsServed-IsClear w s served in
    record {
      once = λ tx. messages-IsTold tx s.sent clear.ordered;
      goes_on =
          All-imp (λ q. Clean q.tx s.sent) (λ q. All (λ e. ¬ Ends e) (messages q.tx s.sent))
            s.active (λ q. messages-Clean q.tx s.sent) clear.clean;
    }
