-- ===== src/Dispatch/Batch.antt =====
-- What the dispatch of a whole batch does.
use mathlib.Core.List.{Perm}
use free_token_rs.Prelude.{ℕ, List, [], ◌∷◌, ◌++◌, map, All}
use free_token_rs.SlotCache.{SlotCache}
use free_token_rs.Dispatch.{Routed, settle}
use free_token_rs.Dispatch.Route.{Held, Reads}

-- What the slots hold after the copies of all sequences, in their order.
abbrev pub settle_all : Held → List Routed → Held
settle_all held [] = held
settle_all held (r ∷ rs) = settle_all (settle held r.copies) rs

-- Each sequence's experts are computed once. Its pairs read what the slots hold after the copies
-- for the sequences before it.
abbrev pub AllDispatched : Held → ℕ → List (List ℕ) → List Routed → Type 0
AllDispatched held layer [] [] = Unit
AllDispatched held layer (ids ∷ all_ids) (r ∷ rs) =
    Perm (map (λ p. p.expert) r.pairs ++ r.cpu) ids
    × All (Reads held layer r.copies) r.pairs
    × AllDispatched (settle held r.copies) layer all_ids rs
AllDispatched held layer [] (r ∷ rs) = ⊥
AllDispatched held layer (ids ∷ all_ids) [] = ⊥
