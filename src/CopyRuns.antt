-- ===== src/CopyRuns.antt =====
-- `CopyRun` and `plan_runs` of ft-core/src/lib.rs: the misses of a layer coalesced into runs that
-- are contiguous in the host bank.
pub mod Sort
pub mod Expand
mod Tests
use free_token_rs.Prelude.{ℕ, ◌+◌, ◌%◌, List, [], ◌∷◌, ◌++◌, leb, ◌==◌, if◌then◌else◌, u32_mod}

pub record CopyRun : Type 0 where
  pub start_expert : ℕ
  pub count : ℕ
  pub slots : List ℕ

-- `misses.sort_by_key(|&(e, _)| e)`, a stable sort.
pub insert_by_key : ℕ × ℕ → List (ℕ × ℕ) → List (ℕ × ℕ)
insert_by_key m [] = m ∷ []
insert_by_key m (m' ∷ misses) =
    if leb m.0 m'.0 then m ∷ m' ∷ misses else m' ∷ insert_by_key m misses

pub sort_by_key : List (ℕ × ℕ) → List (ℕ × ℕ)
sort_by_key [] = []
sort_by_key (m ∷ misses) = insert_by_key m (sort_by_key misses)

abbrev single_run : ℕ × ℕ → CopyRun
single_run m = record { start_expert = m.0; count = 1; slots = m.1 ∷ [] }

-- The body of the loop: the last run grows, or a new one begins.
pub push_miss : List CopyRun → ℕ × ℕ → List CopyRun
push_miss [] m = single_run m ∷ []
push_miss (r ∷ []) m =
    if (r.start_expert + r.count) % u32_mod == m.0
    then record r { count = (r.count + 1) % u32_mod; slots = r.slots ++ m.1 ∷ [] } ∷ []
    else r ∷ single_run m ∷ []
push_miss (r ∷ r' ∷ runs) m = r ∷ push_miss (r' ∷ runs) m

pub plan_loop : List CopyRun → List (ℕ × ℕ) → List CopyRun
plan_loop runs [] = runs
plan_loop runs (m ∷ misses) = plan_loop (push_miss runs m) misses

pub plan_runs : List (ℕ × ℕ) → List CopyRun
plan_runs misses = plan_loop [] (sort_by_key misses)
