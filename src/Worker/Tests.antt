-- ===== src/Worker/Tests.antt =====
-- Runs of the worker on a model that samples the numbers of its passes.
use free_token_rs.Prelude.{
  ℕ, zero, suc, ◌≡◌, refl, false, Option, none, some, List, [], ◌∷◌, arith, ◌==◌, if◌then◌else◌, ok,
  ◌>>=◌,
}
use free_token_rs.Engine.{
  fine, early, Request, reset_slot, upload_inputs, check_batch, advance, move_on, end_pass,
  run_pass, forward_sample_graphed, forward_sample, forward,
}
use free_token_rs.Worker.{
  stop, limit, WorkerEvent, token, done, World, Worker, upto, start, Arrival, job, send, prefill,
  reject, join, kept_prompt, admit_prompt, admit_job, decoding, admit_loop, is_eot, finish_of,
  visit, add_seq, batch_loop, retain, assign, fail_all, decode_batch, decode, round,
}
use free_token_rs.Worker.Slots.{IsSound}
use free_token_rs.Worker.Rounds.{IsReachable, at_start, after_round, reachable-IsSound}
use free_token_rs.Worker.Served.{IsServed, opened, after_jobs, Told, IsServed-Told}
use free_token_rs.Worker.Gen.{Gen, new, job_of, Ready, new-Ready}

program : Unit {0}
unfolding reset_slot upload_inputs check_batch advance move_on end_pass run_pass
    forward_sample_graphed forward_sample forward upto start send prefill reject join kept_prompt
    admit_prompt admit_job admit_loop is_eot finish_of visit add_seq batch_loop retain assign
    fail_all decode_batch decode round new job_of
program = tt

-- Two slots of eight positions; pass 9 fails. Token 6 ends a sequence. All clients listen but 3.
abbrev world : World
world = record {
  gpu = record { token = λ call slot. call; fault = λ call. if call == 9 then early else fine };
  cfg = record { max_seq = 8; max_batch = 2; gpu_routing = false };
  eos = 6;
  eot = none;
  gone = λ tx delivered. tx == 3;
}

abbrev job_for : ℕ → ℕ → Arrival
job_for tx max_new =
    job (record { prompt_ids = 11 ∷ 12 ∷ []; max_new = max_new; temperature = 0; tx = tx })

-- So many rounds, with the arrivals that are left.
play : ℕ → List Arrival → Worker → Option Worker
play zero arrivals s = some s
play (suc n) arrivals s =
    round world arrivals s >>= λ r. elim r.1 [ decoding rest ↦ play n rest r.0 | _ ↦ some (r.0) ]

abbrev log_of : Option Worker → List (ℕ × WorkerEvent)
log_of none = []
log_of (some s) = s.sent

-- One token of two, then the end of the sequence, then idle: the newest message first.
to_the_limit :
    log_of (play 3 (job_for 1 1 ∷ []) (start world.cfg))
    ≡ (1, done (some limit)) ∷ (1, token 1) ∷ []
unfolding program play
to_the_limit = refl

-- A job without room for a prompt fails, and a client that has gone is dropped.
batched :
    log_of (play 3 (job_for 1 1 ∷ job_for 2 9 ∷ job_for 3 5 ∷ []) (start world.cfg))
    ≡ (1, done (some limit)) ∷ (1, token 1) ∷ (2, done none) ∷ []
unfolding program play
batched = refl

to_the_end :
    log_of (play 9 (job_for 4 5 ∷ []) (start world.cfg))
    ≡ (4, done (some stop))
      ∷ (4, token 5)
      ∷ (4, token 4)
      ∷ (4, token 3)
      ∷ (4, token 2)
      ∷ (4, token 1)
      ∷ []
unfolding program play
to_the_end = refl

-- The state after a round with one job.
abbrev one_round : Worker
one_round = record {
  model = record { seq_pos = 3 ∷ 0 ∷ []; calls = 3 };
  active = record { slot = 0; tx = 1; temperature = 0; remaining = 0; next_token = 2 } ∷ [];
  free_slots = 1 ∷ [];
  sent = (1, token 1) ∷ [];
}

first_round : round world (job_for 1 1 ∷ []) (start world.cfg) ≡ some (one_round, decoding [])
unfolding program
first_round = refl

one_round-IsReachable : IsReachable world one_round
one_round-IsReachable =
    after_round (start world.cfg) (job_for 1 1 ∷ []) (one_round, decoding []) at_start first_round

reachable-IsSound_example : IsSound world.cfg one_round
reachable-IsSound_example = reachable-IsSound world one_round (omega arith) one_round-IsReachable

one_round-IsServed : IsServed world one_round
unfolding start
one_round-IsServed =
    after_jobs opened (job_for 1 1 ∷ []) (one_round, decoding []) ((tt, tt), tt) (tt, tt)
      first_round

IsServed-Told_example : Told one_round
IsServed-Told_example = IsServed-Told world one_round one_round-IsServed

abbrev two_requests : List Request
two_requests = (0, 11) ∷ (1, 12) ∷ []

abbrev gen : Gen
gen = record { prompt_ids = 11 ∷ 12 ∷ []; max_new = 6; temperature = 0; stops = [] }

new_run : new (λ t. t == 0) 8 (11 ∷ 12 ∷ []) none 16 none [] ≡ ok gen
unfolding program
new_run = refl

new-Ready_example : Ready 8 (11 ∷ 12 ∷ []) 16 world.cfg (job_of gen 1)
new-Ready_example = new-Ready (λ t. t == 0) world.cfg (11 ∷ 12 ∷ []) none 16 none [] gen 1 new_run
