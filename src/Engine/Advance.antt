-- ===== src/Engine/Advance.antt =====
-- What a forward pass does to the positions of the sequences, when its requests fit.
use free_token_rs.Prelude.{
  ℕ, zero, suc, ◌+◌, ◌≤◌, ◌<◌, ◌≡◌, ◌≢◌, refl, sym, subst, ◌∙◌, ◌⊎◌, inl, inr, Bool, true, false,
  Option, none, some, List, [], ◌∷◌, arith, leb, ltb, ◌==◌, if◌then◌else◌, All, All-imp, length,
  length-set, get_elem?, get_or, set, store-set, Bool-cases,
}
use free_token_rs.Engine.{
  Fault, fine, early, late, Gpu, Config, Model, Request, Sampled, reset_slot, upload_inputs,
  check_batch, advance, sampled, move_on, end_pass, run_pass, forward_sample_graphed,
  forward_sample, forward,
}

get_elem?-get_or : (xs : List ℕ) (i : ℕ) → i < length xs → get_elem? xs i ≡ some (get_or xs i 0)
get_elem?-get_or [] i h = elim h [ ]
get_elem?-get_or (x ∷ xs) zero h = refl
get_elem?-get_or (x ∷ xs) (suc i) h = get_elem?-get_or xs i (omega arith)

get_or-set :
    (xs : List ℕ) (i k v : ℕ)
    → i < length xs
    → get_or (set xs i v) k 0 ≡ (if k == i then v else get_or xs k 0)
get_or-set [] i k v h = elim h [ ]
get_or-set (x ∷ xs) zero zero v h = refl
get_or-set (x ∷ xs) zero (suc k) v h = ground arith
get_or-set (x ∷ xs) (suc i) zero v h = ground arith
get_or-set (x ∷ xs) (suc i) (suc k) v h = ground (arith, get_or-set xs i k v (omega arith))

-- How many of the requests are for a slot.
unfoldable pub times : ℕ → List Request → ℕ
times k [] = 0
times k ((slot, token) ∷ reqs) = if k == slot then suc (times k reqs) else times k reqs

abbrev pub position : Model → ℕ → ℕ
position m slot = get_or m.seq_pos slot 0

-- The requests are for slots of the model whose contexts have room.
abbrev pub Fit : Config → Model → List Request → Type 0
Fit cfg m = All (λ r. (r.0 < cfg.max_batch) × (position m (r.0) < cfg.max_seq))

pub reset_slot_lem :
    (m : Model) (slot : ℕ)
    → slot < length m.seq_pos
    → (m' : Model) × (reset_slot m slot ≡ some m')
      × (length m'.seq_pos ≡ length m.seq_pos)
      × ((k : ℕ) → position m' k ≡ (if k == slot then 0 else position m k))
unfolding reset_slot
reset_slot_lem m slot h = (
  record m { seq_pos = set m.seq_pos slot 0 },
  rw (store-set m.seq_pos slot 0 h) refl,
  length-set m.seq_pos slot 0,
  λ k. get_or-set m.seq_pos slot k 0 h,
)

upload_inputs_lem :
    (cfg : Config) (m : Model) (reqs : List Request)
    → length m.seq_pos ≡ cfg.max_batch
    → Fit cfg m reqs
    → upload_inputs cfg m reqs ≡ some true
unfolding upload_inputs
upload_inputs_lem cfg m [] same fit = refl
upload_inputs_lem cfg m ((slot, token) ∷ reqs) same fit =
    let found = get_elem?-get_or m.seq_pos slot (omega (arith, fit.0.0)) in
    let room : ltb (position m slot) cfg.max_seq ≡ true = ground (arith, fit.0.1) in
    rw (found, room) (upload_inputs_lem cfg m reqs same fit.1)

check_batch_lem :
    (cfg : Config) (m : Model) (reqs : List Request)
    → length m.seq_pos ≡ cfg.max_batch
    → Fit cfg m reqs
    → check_batch cfg m reqs ≡ some true
unfolding check_batch
check_batch_lem cfg m [] same fit = refl
check_batch_lem cfg m ((slot, token) ∷ reqs) same fit =
    let inside : ltb slot cfg.max_batch ≡ true = ground (arith, fit.0.0) in
    let found = get_elem?-get_or m.seq_pos slot (omega (arith, fit.0.0)) in
    let room : ltb (position m slot) cfg.max_seq ≡ true = ground (arith, fit.0.1) in
    rw (inside, found, room) (check_batch_lem cfg m reqs same fit.1)

advance_lem :
    (xs : List ℕ) (reqs : List Request)
    → All (λ r. r.0 < length xs) reqs
    → (moved : List ℕ) × (advance xs reqs ≡ some moved)
      × (length moved ≡ length xs)
      × ((k : ℕ) → get_or moved k 0 ≡ get_or xs k 0 + times k reqs)
unfolding advance times
advance_lem xs [] all = (xs, refl, refl, λ k. omega arith)
advance_lem xs ((slot, token) ∷ reqs) all =
    let v = get_or xs slot 0 + 1 in
    let found = get_elem?-get_or xs slot all.0 in
    let stored = store-set xs slot v all.0 in
    let same = length-set xs slot v in
    let (moved, ran, long, places) =
      advance_lem (set xs slot v) reqs (subst (λ n. All (λ r. r.0 < n) reqs) (sym same) all.1) in
    (
      moved,
      rw (found, stored) ran,
      long ∙ same,
      λ k. ground (arith, places k, get_or-set xs slot k v all.0),
    )

-- What a pass leaves: as many positions, each moved at most by the requests for it. It returns a
-- token for each request, or else a call of CUDA failed.
pub record Passed (gpu : Gpu) (m : Model) (reqs : List Request) (r : Model × Sampled) : Type 0 where
  pub same : length r.0.seq_pos ≡ length m.seq_pos
  pub moved : (k : ℕ) → position r.0 k ≤ position m k + times k reqs
  pub tokens : (r.1 ≡ some (sampled gpu m.calls reqs)) ⊎ ((r.1 ≡ none) × (gpu.fault m.calls ≢ fine))

move_on_lem :
    (m : Model) (reqs : List Request)
    → All (λ r. r.0 < length m.seq_pos) reqs
    → (m' : Model) × (move_on m reqs ≡ some m')
      × (length m'.seq_pos ≡ length m.seq_pos)
      × ((k : ℕ) → position m' k ≡ position m k + times k reqs)
unfolding move_on
move_on_lem m reqs all =
    let (moved, ran, long, places) = advance_lem m.seq_pos reqs all in
    (record { seq_pos = moved; calls = m.calls + 1 }, rw ran refl, long, places)

abbrev Ends : Gpu → Model → List Request → Option (Model × Sampled) → Type 0
Ends gpu m reqs o = (r : Model × Sampled) × (o ≡ some r) × Passed gpu m reqs r

end_pass_lem :
    (gpu : Gpu) (graphed : Bool) (fault : Fault) (m : Model) (reqs : List Request)
    → gpu.fault m.calls ≡ fault
    → All (λ r. r.0 < length m.seq_pos) reqs
    → Ends gpu m reqs (end_pass gpu graphed fault m reqs)
unfolding end_pass
end_pass_lem gpu graphed fine m reqs e all =
    let (m', ran, long, places) = move_on_lem m reqs all in
    (
      (m', some (sampled gpu m.calls reqs)),
      rw ran refl,
      record { same = long; moved = λ k. omega (arith, places k); tokens = inl refl },
    )
end_pass_lem gpu graphed early m reqs e all = (
  (record m { calls = m.calls + 1 }, none),
  refl,
  record { same = refl; moved = λ k. omega arith; tokens = inr (refl, λ f. ground (arith, e, f)) },
)
end_pass_lem gpu true late m reqs e all = (
  (record m { calls = m.calls + 1 }, none),
  refl,
  record { same = refl; moved = λ k. omega arith; tokens = inr (refl, λ f. ground (arith, e, f)) },
)
end_pass_lem gpu false late m reqs e all =
    let (m', ran, long, places) = move_on_lem m reqs all in
    (
      (m', none),
      rw ran refl,
      record {
        same = long;
        moved = λ k. omega (arith, places k);
        tokens = inr (refl, λ f. ground (arith, e, f));
      },
    )

pub forward-Passed :
    (gpu : Gpu) (cfg : Config) (m : Model) (reqs : List Request) (temps : List ℕ)
    → length m.seq_pos ≡ cfg.max_batch
    → 1 ≤ length reqs
    → length reqs ≤ cfg.max_batch
    → length temps ≡ length reqs
    → Fit cfg m reqs
    → (r : Model × Sampled) × (forward gpu cfg m reqs temps ≡ some r) × Passed gpu m reqs r
unfolding forward forward_sample_graphed forward_sample run_pass upload_inputs check_batch
forward-Passed gpu cfg m reqs temps same some_reqs few temps_fit fit =
    let inside : All (λ r. r.0 < length m.seq_pos) reqs =
      All-imp (λ r. (r.0 < cfg.max_batch) × (position m (r.0) < cfg.max_seq))
        (λ r. r.0 < length m.seq_pos) reqs (λ r h. omega (arith, h.0)) fit in
    elim (Bool-cases cfg.gpu_routing) [
      | inl graphed ↦
          let small : ltb cfg.max_batch (length reqs) ≡ false = ground arith in
          rw (graphed, upload_inputs_lem cfg m reqs same fit, small)
            (end_pass_lem gpu true (gpu.fault m.calls) m reqs refl inside)
      | inr plain ↦
          let t : (length temps == length reqs) ≡ true = ground arith in
          let lo : leb 1 (length reqs) ≡ true = ground arith in
          let hi : leb (length reqs) cfg.max_batch ≡ true = ground arith in
          rw (plain, t, lo, hi, check_batch_lem cfg m reqs same fit)
            (end_pass_lem gpu false (gpu.fault m.calls) m reqs refl inside)
    ]
