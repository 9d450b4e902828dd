-- ===== src/Worker/Gen.antt =====
-- `Gen` of ft-model/src/bin/serve.rs: a validated generation and the job that it becomes.
use free_token_rs.Prelude.{
  ℕ, zero, suc, subst, ◌+◌, ◌-◌, ◌≤◌, ◌<◌, ◌≡◌, refl, ap, inl, inr, Bool, not, Option, none, some,
  List, [], ◌∷◌, min, arith, ◌==◌, if◌then◌else◌, length, take, Result, err, ok, Bool-cases,
}
use free_token_rs.Text.{Text}
use free_token_rs.Engine.{Config}
use free_token_rs.Worker.{GenJob, kept_prompt}

pub record Gen : Type 0 where
  pub prompt_ids : List ℕ
  pub max_new : ℕ
  pub temperature : ℕ
  pub stops : List Text

-- The responses of status 400, with the numbers of their messages.
pub data Rejection : Type 0 where
  -- "This model's maximum context length is {} tokens. However, your prompt is {} tokens."
  context_length_exceeded : ℕ → ℕ → Rejection
  bad_temperature : Rejection

-- `Option::unwrap_or`
abbrev pub unwrap_or {ℓ} : {A : Type ℓ} → Option A → A → A
unwrap_or none d = d
unwrap_or (some a) d = a

-- `Gen::new`, in a server with `max_seq` positions. A temperature is the bit pattern of an `f32`:
-- 0 is `0.0`, and a parameter says which are in `0.0..=2.0`.
unfoldable pub new :
    (ℕ → Bool) → ℕ → List ℕ → Option ℕ → ℕ → Option ℕ → List Text → Result Rejection Gen
new in_range max_seq prompt_ids max_tokens default_max temperature stops =
    let room = max_seq - length prompt_ids in
    if room == 0
    then err (context_length_exceeded max_seq (length prompt_ids))
    else if not (in_range (unwrap_or temperature 0))
    then err bad_temperature
    else ok (record {
      prompt_ids = prompt_ids;
      max_new = min (unwrap_or max_tokens default_max) room;
      temperature = unwrap_or temperature 0;
      stops = stops;
    })

-- The job that `start` sends to the worker.
unfoldable pub job_of : Gen → ℕ → GenJob
job_of g tx = record {
  prompt_ids = g.prompt_ids;
  max_new = g.max_new;
  temperature = g.temperature;
  tx = tx;
}

take_all : (n : ℕ) (xs : List ℕ) → length xs ≤ n → take n xs ≡ xs
take_all n [] h = take_of_none n
  where
    take_of_none : (k : ℕ) → take {A = ℕ} k [] ≡ []
    take_of_none zero = refl
    take_of_none (suc k) = refl
take_all zero (x ∷ xs) h = absurd (omega arith)
take_all (suc n) (x ∷ xs) h = ap (◌∷◌ x) (take_all n xs (omega arith))

-- What the worker is given with an accepted generation.
pub record Ready (max_seq : ℕ) (prompt_ids : List ℕ) (wanted : ℕ) (cfg : Config) (j : GenJob)
    : Type 0 where
  pub whole : kept_prompt cfg j ≡ prompt_ids
  pub fits : length prompt_ids + j.max_new ≤ max_seq
  pub bound : j.max_new ≤ wanted
  pub as_wanted : length prompt_ids + wanted ≤ max_seq → j.max_new ≡ wanted

-- A generation that `Gen::new` accepts becomes a job whose prompt the worker takes in full, if it
-- was started with as many positions: the prompt and the output fit the context, and the output
-- is at most what was asked for, and that if it fits.
pub new-Ready :
    (in_range : ℕ → Bool) (cfg : Config) (prompt_ids : List ℕ) (max_tokens : Option ℕ)
    (default_max : ℕ) (temperature : Option ℕ) (stops : List Text) (g : Gen) (tx : ℕ)
    → new in_range cfg.max_seq prompt_ids max_tokens default_max temperature stops ≡ ok g
    → Ready cfg.max_seq prompt_ids (unwrap_or max_tokens default_max) cfg (job_of g tx)
unfolding new job_of kept_prompt
new-Ready in_range cfg prompt_ids max_tokens default_max temperature stops g tx h =
    let room = cfg.max_seq - length prompt_ids in
    let wanted = unwrap_or max_tokens default_max in
    elim (Bool-cases (room == 0)) [
      | inl full ↦ absurd (ground (arith, h, full))
      | inr open_room ↦ elim (Bool-cases (in_range (unwrap_or temperature 0))) [
        | inr hot ↦ absurd (ground (arith, h, open_room, hot))
        | inl fine ↦
            let made : Gen = record {
              prompt_ids = prompt_ids;
              max_new = min wanted room;
              temperature = unwrap_or temperature 0;
              stops = stops;
            } in
            let e : made ≡ g = ground (arith, h, open_room, fine) in
            let more : 0 < room = ground arith in
            subst (λ x. Ready cfg.max_seq prompt_ids wanted cfg (job_of x tx)) e
              (record {
                whole =
                    take_all (min (length prompt_ids) (cfg.max_seq - min wanted room)) prompt_ids
                      (omega arith);
                fits = omega arith;
                bound = omega arith;
                as_wanted = λ fits. omega arith;
              })
      ]
    ]
