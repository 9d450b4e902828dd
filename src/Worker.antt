-- ===== src/Worker.antt =====
-- The decode worker of ft-model/src/bin/serve.rs. What comes in from the queue of jobs is a list of
-- arrivals; what clients have been sent is a log, the newest first.
pub mod Range
pub mod Lengths
pub mod Slots
pub mod Decode
pub mod Rounds
pub mod Log
pub mod Told
pub mod Served
pub mod Gen
mod Tests
use free_token_rs.Prelude.{
  ℕ, zero, suc, ◌+◌, ◌-◌, Bool, true, false, not, ◌||◌, Option, none, some, List, [], ◌∷◌, ◌++◌,
  min, ◌==◌, if◌then◌else◌, length, get_elem?, take, replicate, ◌>>=◌,
}
use free_token_rs.Engine.{Gpu, Config, Model, Request, Sampled, reset_slot, forward}

pub data FinishReason : Type 0 where
  stop limit : FinishReason

pub data WorkerEvent : Type 0 where
  token : ℕ → WorkerEvent
  -- the generation ended; `none` means that the engine failed
  done : Option FinishReason → WorkerEvent

-- A client is named by a number. A temperature is a bit pattern.
pub record GenJob : Type 0 where
  pub prompt_ids : List ℕ
  pub max_new : ℕ
  pub temperature : ℕ
  pub tx : ℕ

pub record ActiveSeq : Type 0 where
  pub slot : ℕ
  pub tx : ℕ
  pub temperature : ℕ
  pub remaining : ℕ
  pub next_token : ℕ

-- What the worker is started with, and the world: has the receiver of a client gone when so many
-- messages have been delivered?
pub record World : Type 0 where
  pub gpu : Gpu
  pub cfg : Config
  pub eos : ℕ
  pub eot : Option ℕ
  pub gone : ℕ → ℕ → Bool

-- The free slots are a stack, its top first.
pub record Worker : Type 0 where
  pub model : Model
  pub active : List ActiveSeq
  pub free_slots : List ℕ
  pub sent : List (ℕ × WorkerEvent)

-- The numbers from `k` on.
unfoldable pub upto : ℕ → ℕ → List ℕ
upto k zero = []
upto k (suc n) = k ∷ upto (k + 1) n

unfoldable pub start : Config → Worker
start cfg = record {
  model = record { seq_pos = replicate cfg.max_batch 0; calls = 0 };
  active = [];
  free_slots = upto 0 cfg.max_batch;
  sent = [];
}

-- What a receive on the queue of jobs finds.
pub data Arrival : Type 0 where
  job : GenJob → Arrival
  empty closed : Arrival

-- `tx.send`: the log, and whether it failed.
unfoldable pub send :
    World → ℕ → WorkerEvent → List (ℕ × WorkerEvent) → List (ℕ × WorkerEvent) × Bool
send w tx event sent = if w.gone tx (length sent) then (sent, true) else ((tx, event) ∷ sent, false)

-- The loop over the prompt: the last token that was sampled, or an error.
unfoldable pub prefill : World → Model → ℕ → ℕ → List ℕ → ℕ → Option (Model × Option ℕ)
prefill w m slot temperature [] next = some (m, some next)
prefill w m slot temperature (id ∷ prompt) next =
    forward w.gpu w.cfg m ((slot, id) ∷ []) (temperature ∷ []) >>= λ r. elim r.1 [
      | none ↦ some (r.0, none)
      | some toks ↦ get_elem? toks 0 >>= λ t. prefill w r.0 slot temperature prompt t
    ]

-- A job that fails: the client is told, and the slot is free again.
unfoldable pub reject : World → GenJob → ℕ → List ℕ → Worker → Model → Worker
reject w j slot free s m = record s {
  model = m;
  free_slots = slot ∷ free;
  sent = (send w j.tx (done none) s.sent).0;
}

-- A job that is prefilled joins the active sequences.
unfoldable pub join : GenJob → ℕ → List ℕ → Worker → Model → ℕ → Worker
join j slot free s m next = record s {
  model = m;
  free_slots = free;
  active =
      s.active
      ++ record {
        slot = slot;
        tx = j.tx;
        temperature = j.temperature;
        remaining = j.max_new;
        next_token = next;
      }
        ∷ [];
}

-- The part of the prompt that leaves room for the output.
unfoldable pub kept_prompt : Config → GenJob → List ℕ
kept_prompt cfg j = take (min (length j.prompt_ids) (cfg.max_seq - j.max_new)) j.prompt_ids

unfoldable pub admit_prompt : World → GenJob → ℕ → List ℕ → Worker → Model → List ℕ → Option Worker
admit_prompt w j slot free s m [] = some (reject w j slot free s m)
admit_prompt w j slot free s m (id ∷ prompt) =
    prefill w m slot j.temperature (id ∷ prompt) 0 >>= λ r. elim r.1 [
      | none ↦ some (reject w j slot free s r.0)
      | some next ↦ some (join j slot free s r.0 next)
    ]

-- `free_slots.pop().unwrap()` and the rest of the body of the loop that admits jobs.
unfoldable pub admit_job : World → GenJob → Worker → Option Worker
admit_job w j s = elim s.free_slots [
  | [] ↦ none
  | slot ∷ free ↦
      reset_slot s.model slot >>= λ m. admit_prompt w j slot free s m (kept_prompt w.cfg j)
]

-- How the loop that admits jobs ends: the worker returns, it blocks for more arrivals, or it goes
-- on to decode.
pub data Admitted : Type 0 where
  returned blocked : Admitted
  decoding : List Arrival → Admitted

-- With no active sequence the receive blocks; with no free slot there is none.
unfoldable pub admit_loop : World → List Arrival → Worker → Option (Worker × Admitted)
admit_loop w [] s = elim s.active [ [] ↦ some (s, blocked) | _ ∷ _ ↦ some (s, decoding []) ]
admit_loop w (a ∷ arrivals) s = elim s.active [
  | [] ↦ elim a [
    | job j ↦ admit_job w j s >>= λ s'. admit_loop w arrivals s'
    | empty ↦ admit_loop w arrivals s
    | closed ↦ some (s, returned)
  ]
  | _ ∷ _ ↦ elim s.free_slots [
    | [] ↦ some (s, decoding (a ∷ arrivals))
    | _ ∷ _ ↦ elim a [
      | job j ↦ admit_job w j s >>= λ s'. admit_loop w arrivals s'
      | _ ↦ some (s, decoding arrivals)
    ]
  ]
]

unfoldable pub is_eot : Option ℕ → ℕ → Bool
is_eot none next = false
is_eot (some eot) next = next == eot

-- Why a sequence is finished, if it is.
unfoldable pub finish_of : World → ActiveSeq → Option FinishReason
finish_of w seq =
    if seq.next_token == w.eos || is_eot w.eot seq.next_token
    then some stop
    else if seq.remaining == 0
    then some limit
    else none

-- The log after a sequence's turn, and whether it leaves the batch.
unfoldable pub visit : World → ActiveSeq → List (ℕ × WorkerEvent) → List (ℕ × WorkerEvent) × Bool
visit w seq sent = elim (finish_of w seq) [
  | some reason ↦ ((send w seq.tx (done (some reason)) sent).0, true)
  | none ↦ send w seq.tx (token seq.next_token) sent
]

-- The pass over the active sequences: the sequences as they go on, the requests, the temperatures,
-- which sequences to keep, and the log.
pub record Batch : Type 0 where
  pub seqs : List ActiveSeq
  pub reqs : List Request
  pub temps : List ℕ
  pub keep : List Bool
  pub sent : List (ℕ × WorkerEvent)

unfoldable pub add_seq : ActiveSeq → Bool → Batch → Batch
add_seq seq left b =
    if left then record b { seqs = seq ∷ b.seqs; keep = false ∷ b.keep } else record b {
      seqs = record seq { remaining = seq.remaining - 1 } ∷ b.seqs;
      reqs = (seq.slot, seq.next_token) ∷ b.reqs;
      temps = seq.temperature ∷ b.temps;
      keep = true ∷ b.keep;
    }

unfoldable pub batch_loop : World → List ActiveSeq → List (ℕ × WorkerEvent) → Batch
batch_loop w [] sent = record { seqs = []; reqs = []; temps = []; keep = []; sent = sent }
batch_loop w (seq ∷ seqs) sent = let v = visit w seq sent in add_seq seq v.1 (batch_loop w seqs v.0)

-- `active.retain`, which frees the slots of the others.
unfoldable pub retain : List ActiveSeq → List Bool → List ℕ → Option (List ActiveSeq × List ℕ)
retain [] keep free = some ([], free)
retain (seq ∷ seqs) [] free = none
retain (seq ∷ seqs) (k ∷ keep) free =
    if k
    then (retain seqs keep free >>= λ r. some (seq ∷ r.0, r.1))
    else retain seqs keep (seq.slot ∷ free)

-- `for (seq, t2) in active.iter_mut().zip(toks)`
unfoldable pub assign : List ActiveSeq → List ℕ → List ActiveSeq
assign [] toks = []
assign (seq ∷ seqs) [] = seq ∷ seqs
assign (seq ∷ seqs) (t ∷ toks) = record seq { next_token = t } ∷ assign seqs toks

-- `active.drain(..)`: each client is told that the engine failed.
unfoldable pub fail_all :
    World → List ActiveSeq → List ℕ → List (ℕ × WorkerEvent) → List ℕ × List (ℕ × WorkerEvent)
fail_all w [] free sent = (free, sent)
fail_all w (seq ∷ seqs) free sent =
    fail_all w seqs (seq.slot ∷ free) (send w seq.tx (done none) sent).0

-- The batched pass over the sequences that are kept.
unfoldable pub decode_batch : World → Worker → List Request → List ℕ → Option Worker
decode_batch w s [] temps = some s
decode_batch w s (r ∷ reqs) temps = forward w.gpu w.cfg s.model (r ∷ reqs) temps >>= λ p. elim p.1 [
  | some toks ↦ some (record s { model = p.0; active = assign s.active toks })
  | none ↦
      let failed = fail_all w s.active s.free_slots s.sent in
      some (record s { model = p.0; active = []; free_slots = failed.0; sent = failed.1 })
]

-- One batched decode step.
unfoldable pub decode : World → Worker → Option Worker
decode w s =
    let b = batch_loop w s.active s.sent in
    retain b.seqs b.keep s.free_slots >>= λ kept.
    decode_batch w (record s { active = kept.0; free_slots = kept.1; sent = b.sent }) b.reqs b.temps

-- One round of the worker: admit jobs, then decode.
unfoldable pub round : World → List Arrival → Worker → Option (Worker × Admitted)
round w arrivals s = admit_loop w arrivals s >>= λ a. elim a.1 [
  | returned ↦ some a
  | blocked ↦ some a
  | decoding rest ↦ decode w a.0 >>= λ s'. some (s', decoding rest)
]
