-- ===== src/CopyRuns/Tests.antt =====
-- Runs of `plan_runs`, that of the test in ft-core/src/lib.rs among them.
use mathlib.Core.List.{Perm}
use free_token_rs.Prelude.{ℕ, ◌≡◌, refl, List, [], ◌∷◌, All, arith}
use free_token_rs.CopyRuns.{insert_by_key, sort_by_key, push_miss, plan_loop, plan_runs}
use free_token_rs.CopyRuns.Expand.{expand, IsRun, Gaps, plan_runs-expand, plan_runs-Gaps}

abbrev misses : List (ℕ × ℕ)
misses = (5, 0) ∷ (3, 1) ∷ (4, 2) ∷ (9, 3) ∷ []

runs_coalesce :
    plan_runs misses
    ≡ record { start_expert = 3; count = 3; slots = 1 ∷ 2 ∷ 0 ∷ [] }
      ∷ record { start_expert = 9; count = 1; slots = 3 ∷ [] }
      ∷ []
unfolding insert_by_key sort_by_key push_miss plan_loop plan_runs
runs_coalesce = refl

plan_runs-expand_example :
    (expand (plan_runs misses) ≡ sort_by_key misses)
    × Perm (expand (plan_runs misses)) misses
    × All IsRun (plan_runs misses)
plan_runs-expand_example = plan_runs-expand misses (omega arith)

plan_runs-Gaps_example : Gaps (plan_runs misses)
plan_runs-Gaps_example = plan_runs-Gaps misses (omega arith) (omega arith)
