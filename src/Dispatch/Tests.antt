-- ===== src/Dispatch/Tests.antt =====
-- Runs of the dispatch.
use free_token_rs.Prelude.{ℕ, ◌≡◌, refl, Option, none, some, List, [], ◌∷◌, map, get_elem?, ◌>>=◌}
use free_token_rs.SlotCache.{
  ExpertKey, SlotCache, new, scan, take_lru_slot, touch_hits, evict, admit, admit_all, lookup,
  forget,
}
use free_token_rs.SlotCache.Admit.{admitted}
use free_token_rs.Dispatch.{
  Base, host, vram, Routed, split_misses, forget_all, slot_of, slots_of, contains, pair_for,
  route_with, route_seq, route_batch,
}
use free_token_rs.Dispatch.Route.{Held}

program : Unit {0}
unfolding new scan take_lru_slot touch_hits evict admit admit_all lookup forget split_misses
    forget_all slot_of slots_of contains pair_for route_with route_seq route_batch
program = tt

-- For each sequence of a batch, where its pairs read and what is copied.
abbrev reads_and_copies :
    Option (SlotCache × List Routed) → Option (List (List Base × List (ℕ × ExpertKey)))
reads_and_copies none = none
reads_and_copies (some (c, rs)) = some (map (λ r. (map (λ p. p.base) r.pairs, r.copies)) rs)

-- Two sequences of a cold step route to one expert: the second reads the slot that the copy for the
-- first is to fill.
shared_expert :
    reads_and_copies (route_batch (λ n. n) 0 0 ((3 ∷ []) ∷ (3 ∷ []) ∷ []) (new 1))
    ≡ some ((host (0, 3) ∷ [], (0, (0, 3)) ∷ []) ∷ (vram 0 ∷ [], []) ∷ [])
unfolding program
shared_expert = refl

-- One slot, held by expert 3 of layer 0.
abbrev one : SlotCache
one = admitted (new 1) (0, 3) 0 none

-- The second of two sequences misses, and its copy goes into the slot that the first one reads.
overwritten :
    reads_and_copies (route_batch (λ n. n) 0 0 ((3 ∷ []) ∷ (4 ∷ []) ∷ []) one)
    ≡ some ((vram 0 ∷ [], []) ∷ (host (0, 4) ∷ [], (0, (0, 4)) ∷ []) ∷ [])
unfolding program
overwritten = refl

-- Two slots, the first held by expert 3 of layer 0.
abbrev two : SlotCache
two = admitted (new 2) (0, 3) 0 none

-- What the slots should hold.
abbrev resident : SlotCache → Held
resident c s = get_elem? c.slots s >>= λ o. o
