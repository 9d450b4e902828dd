-- ===== src/CopyRuns/Expand.antt =====
-- What the runs of `plan_runs` copy.
use mathlib.Core.List.{Perm}
use free_token_rs.Prelude.{
  ℕ, ◌+◌, ◌%◌, ◌≤◌, ◌<◌, ◌≡◌, ◌≢◌, refl, sym, subst, ◌∙◌, ap, inl, inr, List, [], ◌∷◌, ◌++◌,
  append_assoc, append-nil, All, Distinct, arith, length, length-append, true, false, Option, none,
  some, ◌==◌, Bool-cases, u32_mod,
}
use free_token_rs.CopyRuns.{CopyRun, sort_by_key, push_miss, plan_loop, plan_runs}
use free_token_rs.CopyRuns.Sort.{
  Ascending, keys, sort_by_key-Perm, sort_by_key-Ascending, sort_by_key-All, sort_by_key_strict,
}

-- The (expert, slot) pairs from `start` on: the expert's row goes into the slot.
abbrev pub expand_from : ℕ → List ℕ → List (ℕ × ℕ)
expand_from start [] = []
expand_from start (s ∷ slots) = (start, s) ∷ expand_from (start + 1) slots

abbrev pub expand : List CopyRun → List (ℕ × ℕ)
expand [] = []
expand (r ∷ runs) = expand_from r.start_expert r.slots ++ expand runs

-- A run names as many slots as it counts, at least one, and its end fits a `u32`.
abbrev pub IsRun : CopyRun → Type 0
IsRun r = (length r.slots ≡ r.count) × (0 < r.count) × (r.start_expert + r.count < u32_mod)

-- The last run ends at or before `n`.
abbrev EndsBy : ℕ → List CopyRun → Type 0
EndsBy n [] = Unit {0}
EndsBy n (r ∷ []) = r.start_expert + r.count ≤ n
EndsBy n (r ∷ r' ∷ runs) = EndsBy n (r' ∷ runs)

-- A run ends before the expert that stands before the next run.
abbrev pub Gaps : List CopyRun → Type 0
Gaps [] = Unit {0}
Gaps (r ∷ []) = Unit {0}
Gaps (r ∷ r' ∷ runs) = (r.start_expert + r.count < r'.start_expert) × Gaps (r' ∷ runs)

expand_from-append :
    (start : ℕ) (slots : List ℕ) (s : ℕ)
    → expand_from start (slots ++ s ∷ [])
      ≡ expand_from start slots ++ (start + length slots, s) ∷ []
expand_from-append start [] s = ap (λ n. (n, s) ∷ []) (omega arith)
expand_from-append start (x ∷ slots) s = ap (◌∷◌ (start, x)) (
    expand_from-append (start + 1) slots s
    ∙ ap (λ n. expand_from (start + 1) slots ++ (n, s) ∷ []) (omega arith))

-- The test of `push_miss` does not wrap.
adjacent :
    (r : CopyRun) (e : ℕ)
    → IsRun r
    → r.start_expert + r.count ≤ e + 1
    → e + 1 < u32_mod
    → ((r.start_expert + r.count) % u32_mod == e) ≡ true
    → r.start_expert + r.count ≡ e
adjacent r e h b u same =
    let eq : (r.start_expert + r.count) % u32_mod ≡ e = ground arith in omega arith

push_miss-expand :
    (runs : List CopyRun) (m : ℕ × ℕ)
    → All IsRun runs
    → EndsBy (m.0 + 1) runs
    → m.0 + 1 < u32_mod
    → expand (push_miss runs m) ≡ expand runs ++ m ∷ []
unfolding push_miss
push_miss-expand [] m h b u = refl
push_miss-expand (r ∷ []) m h b u =
    elim (Bool-cases ((r.start_expert + r.count) % u32_mod == m.0)) [
      | inl same ↦
          let before = expand_from r.start_expert r.slots in
          let end : r.start_expert + length r.slots ≡ m.0 =
            omega (arith, adjacent r m.0 h.0 b u same) in
          rw same (
            append-nil (expand_from r.start_expert (r.slots ++ m.1 ∷ []))
            ∙ expand_from-append r.start_expert r.slots m.1
            ∙ ap (λ n. before ++ (n, m.1) ∷ []) end
            ∙ ap (λ l. l ++ m ∷ []) (sym (append-nil before)))
      | inr differ ↦
          rw differ (ap (λ l. l ++ m ∷ []) (sym (append-nil (expand_from r.start_expert r.slots))))
    ]
push_miss-expand (r ∷ r' ∷ runs) m h b u =
    ap (◌++◌ (expand_from r.start_expert r.slots)) (push_miss-expand (r' ∷ runs) m h.1 b u)
    ∙ sym (append_assoc (expand_from r.start_expert r.slots) (expand (r' ∷ runs)) (m ∷ []))

push_miss-IsRun :
    (runs : List CopyRun) (m : ℕ × ℕ)
    → All IsRun runs
    → EndsBy (m.0 + 1) runs
    → m.0 + 1 < u32_mod
    → All IsRun (push_miss runs m)
unfolding push_miss
push_miss-IsRun [] m h b u = omega arith
push_miss-IsRun (r ∷ []) m h b u = elim (Bool-cases ((r.start_expert + r.count) % u32_mod == m.0)) [
  | inl same ↦
      let end = adjacent r m.0 h.0 b u same in
      rw same ((omega (arith, length-append r.slots (m.1 ∷ [])), omega arith, omega arith), tt)
  | inr differ ↦ rw differ (h.0, (omega arith, tt))
]
push_miss-IsRun (r ∷ r' ∷ runs) m h b u = (h.0, push_miss-IsRun (r' ∷ runs) m h.1 b u)

apart :
    (r : CopyRun) (e : ℕ)
    → r.start_expert + r.count ≤ e
    → e + 1 < u32_mod
    → ((r.start_expert + r.count) % u32_mod == e) ≡ false
    → r.start_expert + r.count < e
apart r e b u differ =
    let ne : (r.start_expert + r.count) % u32_mod ≢ e = λ eq. ground arith in omega arith

head_start : List CopyRun → Option ℕ
head_start [] = none
head_start (r ∷ runs) = some r.start_expert

head_start-push_miss :
    (r : CopyRun) (runs : List CopyRun) (m : ℕ × ℕ)
    → head_start (push_miss (r ∷ runs) m) ≡ some r.start_expert
unfolding head_start push_miss
head_start-push_miss r [] m = ground arith
head_start-push_miss r (r' ∷ runs) m = refl

EndsBy-cons :
    (n : ℕ) (r : CopyRun) (runs : List CopyRun) {s : ℕ}
    → head_start runs ≡ some s
    → EndsBy n runs
    → EndsBy n (r ∷ runs)
unfolding head_start
EndsBy-cons n r [] e b = absurd (ground arith)
EndsBy-cons n r (r' ∷ runs) e b = b

Gaps-cons :
    (r : CopyRun) (s : ℕ) (runs : List CopyRun)
    → r.start_expert + r.count < s
    → head_start runs ≡ some s
    → Gaps runs
    → Gaps (r ∷ runs)
unfolding head_start
Gaps-cons r s [] h e g = tt
Gaps-cons r s (r' ∷ runs) h e g = (ground arith, g)

push_miss-EndsBy :
    (runs : List CopyRun) (m : ℕ × ℕ)
    → All IsRun runs
    → EndsBy (m.0 + 1) runs
    → m.0 + 1 < u32_mod
    → EndsBy (m.0 + 1) (push_miss runs m)
unfolding push_miss
push_miss-EndsBy [] m h b u = omega arith
push_miss-EndsBy (r ∷ []) m h b u =
    elim (Bool-cases ((r.start_expert + r.count) % u32_mod == m.0)) [
      | inl same ↦ let end = adjacent r m.0 h.0 b u same in rw same (omega arith)
      | inr differ ↦ rw differ (omega arith)
    ]
push_miss-EndsBy (r ∷ r' ∷ runs) m h b u =
    EndsBy-cons (m.0 + 1) r (push_miss (r' ∷ runs) m) (head_start-push_miss r' runs m)
      (push_miss-EndsBy (r' ∷ runs) m h.1 b u)

push_miss-Gaps :
    (runs : List CopyRun) (m : ℕ × ℕ)
    → All IsRun runs
    → EndsBy m.0 runs
    → m.0 + 1 < u32_mod
    → Gaps runs
    → Gaps (push_miss runs m)
unfolding push_miss
push_miss-Gaps [] m h b u g = tt
push_miss-Gaps (r ∷ []) m h b u g =
    elim (Bool-cases ((r.start_expert + r.count) % u32_mod == m.0)) [
      | inl same ↦ rw same tt
      | inr differ ↦ rw differ (apart r m.0 b u differ, tt)
    ]
push_miss-Gaps (r ∷ r' ∷ runs) m h b u g =
    Gaps-cons r r'.start_expert (push_miss (r' ∷ runs) m) g.0 (head_start-push_miss r' runs m)
      (push_miss-Gaps (r' ∷ runs) m h.1 b u g.1)

EndsBy-mono : (n n' : ℕ) (runs : List CopyRun) → n ≤ n' → EndsBy n runs → EndsBy n' runs
EndsBy-mono n n' [] h b = tt
EndsBy-mono n n' (r ∷ []) h b = omega arith
EndsBy-mono n n' (r ∷ r' ∷ runs) h b = EndsBy-mono n n' (r' ∷ runs) h b

plan_loop-expand :
    (runs : List CopyRun) (misses : List (ℕ × ℕ)) (n : ℕ)
    → All IsRun runs
    → EndsBy (n + 1) runs
    → Ascending 0 n misses
    → All (λ e. e + 1 < u32_mod) (keys misses)
    → (expand (plan_loop runs misses) ≡ expand runs ++ misses) × All IsRun (plan_loop runs misses)
unfolding plan_loop
plan_loop-expand runs [] n h b a u = (sym (append-nil (expand runs)), h)
plan_loop-expand runs (m ∷ misses) n h b a u =
    let b' = EndsBy-mono (n + 1) (m.0 + 1) runs (omega arith) b in
    let (spread, ok) =
      plan_loop-expand (push_miss runs m) misses (m.0 + 0) (push_miss-IsRun runs m h b' u.0)
        (EndsBy-mono (m.0 + 1) (m.0 + 0 + 1) (push_miss runs m) (omega arith)
          (push_miss-EndsBy runs m h b' u.0))
        a.1 u.1 in
    (
      spread
          ∙ ap (λ l. l ++ misses) (push_miss-expand runs m h b' u.0)
          ∙ append_assoc (expand runs) (m ∷ []) misses,
      ok,
    )

plan_loop-Gaps :
    (runs : List CopyRun) (misses : List (ℕ × ℕ)) (n : ℕ)
    → All IsRun runs
    → EndsBy n runs
    → Ascending 1 n misses
    → All (λ e. e + 1 < u32_mod) (keys misses)
    → Gaps runs
    → Gaps (plan_loop runs misses)
unfolding plan_loop
plan_loop-Gaps runs [] n h b a u g = g
plan_loop-Gaps runs (m ∷ misses) n h b a u g =
    let at = EndsBy-mono n m.0 runs a.0 b in
    let b' = EndsBy-mono n (m.0 + 1) runs (omega arith) b in
    plan_loop-Gaps (push_miss runs m) misses (m.0 + 1) (push_miss-IsRun runs m h b' u.0)
      (push_miss-EndsBy runs m h b' u.0) a.1 u.1 (push_miss-Gaps runs m h at u.0 g)

-- For experts below the largest `u32`, the runs copy the misses that they were planned from, each into
-- its own slot, in the order of the experts; a run is as long as its slots and not empty.
pub plan_runs-expand :
    (misses : List (ℕ × ℕ))
    → All (λ e. e + 1 < u32_mod) (keys misses)
    → (expand (plan_runs misses) ≡ sort_by_key misses)
      × Perm (expand (plan_runs misses)) misses
      × All IsRun (plan_runs misses)
unfolding plan_runs
plan_runs-expand misses u =
    let (spread, ok) =
      plan_loop-expand [] (sort_by_key misses) 0 tt tt (sort_by_key-Ascending misses)
        (sort_by_key-All (λ e. e + 1 < u32_mod) misses u) in
    (spread, subst (λ l. Perm l misses) (sym spread) (sort_by_key-Perm misses), ok)

-- For distinct experts below the largest `u32` no two runs could be one: each ends, with a gap, before the next begins.
pub plan_runs-Gaps :
    (misses : List (ℕ × ℕ))
    → All (λ e. e + 1 < u32_mod) (keys misses)
    → Distinct (keys misses)
    → Gaps (plan_runs misses)
unfolding plan_runs
plan_runs-Gaps misses u d =
    plan_loop-Gaps [] (sort_by_key misses) 0 tt tt (sort_by_key_strict misses d)
      (sort_by_key-All (λ e. e + 1 < u32_mod) misses u) tt
