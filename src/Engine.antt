-- ===== src/Engine.antt =====
-- ft-model/src/lib.rs: what the decode worker sees of the model. The forward pass itself is GPU
-- work: a parameter says which token it samples and where a call of CUDA fails. The positions of
-- the sequences, the checks of the requests and their order are those of the source.
pub mod Advance
use free_token_rs.Prelude.{
  ℕ, ◌+◌, Bool, true, false, ◌&&◌, ◌||◌, not, Option, none, some, List, [], ◌∷◌, leb, ltb, ◌==◌,
  if◌then◌else◌, length, map, get_elem?, store, ◌>>=◌,
}

pub data Fault : Type 0 where
  -- no call fails; one fails before the positions move, or after
  fine early late : Fault

pub record Gpu : Type 0 where
  -- the token that a call samples for a slot
  pub token : ℕ → ℕ → ℕ
  pub fault : ℕ → Fault

-- The fields of `Config` and of `Model` that the worker depends on.
pub record Config : Type 0 where
  pub max_seq : ℕ
  pub max_batch : ℕ
  pub gpu_routing : Bool

pub record Model : Type 0 where
  pub seq_pos : List ℕ
  -- how many forward passes there have been
  pub calls : ℕ

-- A slot with the token that it goes on with.
abbrev pub Request : Type 0
Request = ℕ × ℕ

unfoldable pub reset_slot : Model → ℕ → Option Model
reset_slot m slot = store m.seq_pos slot 0 >>= λ seq_pos. some (record m { seq_pos = seq_pos })

-- The checks of `upload_inputs`: `false` is the error of a full context.
unfoldable pub upload_inputs : Config → Model → List Request → Option Bool
upload_inputs cfg m [] = some true
upload_inputs cfg m ((slot, token) ∷ reqs) = get_elem? m.seq_pos slot >>= λ pos.
    if ltb pos cfg.max_seq then upload_inputs cfg m reqs else some false

-- Those of `forward_batch`, which also looks at the slots.
unfoldable pub check_batch : Config → Model → List Request → Option Bool
check_batch cfg m [] = some true
check_batch cfg m ((slot, token) ∷ reqs) =
    if ltb slot cfg.max_batch
    then (get_elem? m.seq_pos slot >>= λ pos.
        if ltb pos cfg.max_seq then check_batch cfg m reqs else some false)
    else some false

-- `self.seq_pos[slot] += 1` for each request.
unfoldable pub advance : List ℕ → List Request → Option (List ℕ)
advance seq_pos [] = some seq_pos
advance seq_pos ((slot, token) ∷ reqs) =
    get_elem? seq_pos slot >>= λ pos. store seq_pos slot (pos + 1) >>= λ moved. advance moved reqs

-- The sampled tokens, or an error.
abbrev pub Sampled : Type 0
Sampled = Option (List ℕ)

abbrev pub sampled : Gpu → ℕ → List Request → List ℕ
sampled gpu call reqs = map (λ r. gpu.token call (r.0)) reqs

-- The end of a pass that no check has stopped: by the fault, the model and the tokens.
unfoldable pub move_on : Model → List Request → Option Model
move_on m reqs =
    advance m.seq_pos reqs >>= λ seq_pos. some (record { seq_pos = seq_pos; calls = m.calls + 1 })

unfoldable pub end_pass : Gpu → Bool → Fault → Model → List Request → Option (Model × Sampled)
end_pass gpu graphed fine m reqs =
    move_on m reqs >>= λ m'. some (m', some (sampled gpu m.calls reqs))
end_pass gpu graphed early m reqs = some (record m { calls = m.calls + 1 }, none)
end_pass gpu true late m reqs = some (record m { calls = m.calls + 1 }, none)
end_pass gpu false late m reqs = move_on m reqs >>= λ m'. some (m', none)

unfoldable pub run_pass : Gpu → Bool → Model → List Request → Option (Model × Sampled)
run_pass gpu graphed m reqs = end_pass gpu graphed (gpu.fault m.calls) m reqs

-- `graph_exec[nb]` panics if the batch is too large.
unfoldable pub forward_sample_graphed :
    Gpu → Config → Model → List Request → List ℕ → Option (Model × Sampled)
forward_sample_graphed gpu cfg m reqs temps = upload_inputs cfg m reqs >>= λ fits.
    if not fits
    then some (m, none)
    else if ltb cfg.max_batch (length reqs)
    then none
    else run_pass gpu true m reqs

-- With its `forward_batch`. It panics if there are not as many temperatures as requests.
unfoldable pub forward_sample :
    Gpu → Config → Model → List Request → List ℕ → Option (Model × Sampled)
forward_sample gpu cfg m reqs temps =
    if not (length temps == length reqs)
    then none
    else if not (leb 1 (length reqs) && leb (length reqs) cfg.max_batch)
    then some (m, none)
    else check_batch cfg m reqs >>= λ fits.
        if not fits then some (m, none) else run_pass gpu false m reqs

-- The pass that the worker takes.
unfoldable pub forward : Gpu → Config → Model → List Request → List ℕ → Option (Model × Sampled)
forward gpu cfg m reqs temps =
    if cfg.gpu_routing
    then forward_sample_graphed gpu cfg m reqs temps
    else forward_sample gpu cfg m reqs temps
