-- ===== src/Gguf/Reader/Take.antt =====
-- `Reader::take`, and bytes that stand at a position.
use free_token_rs.Prelude.{
  ℕ, ◌+◌, ◌-◌, ◌%◌, ◌≤◌, ◌<◌, ◌≡◌, refl, sym, ap, ◌∙◌, true, false, [], ◌∷◌, ◌++◌, append_assoc,
  arith, ltb, length, length-append, take, drop, drop-append_ge, u64_mod,
}
use free_token_rs.Gguf.Outcome.{Outcome, ok, bail, panic, truncated, Bytes, take_bytes}

-- What `take` of `n` bytes at `pos` ends in.
pub record Taken (n : ℕ) (buf : Bytes) (pos : ℕ) (o : Outcome (Bytes × ℕ)) : Type 0 where
  pub inside : pos + n ≤ length buf → o ≡ ok (take n (drop pos buf), pos + n)
  pub short : length buf < pos + n → pos + n < u64_mod → o ≡ bail (truncated pos n)
  pub wrapped : u64_mod ≤ pos + n → o ≡ panic

-- `take` of fewer than 2 ^ 64 bytes, at a position in a file as short: it returns the next bytes
-- and goes past them if the file has as many; it is the error of a truncated file if it has fewer;
-- but it is a panic if their end is past the largest `u64`.
pub take_bytes-Taken :
    (n : ℕ) (buf : Bytes) (pos : ℕ)
    → n < u64_mod
    → pos ≤ length buf
    → length buf < u64_mod
    → Taken n buf pos (take_bytes n buf pos)
unfolding take_bytes
take_bytes-Taken n buf pos small h fits =
    let end = (pos + n) % u64_mod in
    record {
      inside = λ room.
          let e : end ≡ pos + n = omega arith in
          let d : pos + n - pos ≡ n = omega arith in
          let enough : ltb (length buf) (pos + n) ≡ false = ground arith in
          let goes : ltb (pos + n) pos ≡ false = ground arith in
          rw (e, enough, goes, d) (ap (λ k. ok (take n (drop pos buf), k)) e);
      short = λ lt plain.
          let e : end ≡ pos + n = omega arith in
          let less : ltb (length buf) (pos + n) ≡ true = ground arith in rw (e, less) refl;
      wrapped = λ big.
          let enough : ltb (length buf) end ≡ false = ground arith in
          let back : ltb end pos ≡ true = ground arith in rw (enough, back) refl;
    }

-- `bytes` stand in the file at `pos`.
pub record Stands (bytes buf : Bytes) (pos : ℕ) : Type 0 where
  pub before : Bytes
  pub after : Bytes
  pub parts : buf ≡ before ++ (bytes ++ after)
  pub place : pos ≡ length before

take_append : (xs ys : Bytes) → take (length xs) (xs ++ ys) ≡ xs
take_append [] ys = refl
take_append (x ∷ xs) ys = ap (◌∷◌ x) (take_append xs ys)

pub take_bytes-Stands :
    (bytes buf : Bytes) (pos : ℕ)
    → Stands bytes buf pos
    → length buf < u64_mod
    → take_bytes (length bytes) buf pos ≡ ok (bytes, pos + length bytes)
take_bytes-Stands bytes buf pos s fits =
    let whole = length-append s.before (bytes ++ s.after) in
    let inner = length-append bytes s.after in
    let total : length buf ≡ length s.before + (length bytes + length s.after) =
      ap length s.parts ∙ whole ∙ ap (◌+◌ (length s.before)) inner in
    let t =
      take_bytes-Taken (length bytes) buf pos (omega (arith, s.place)) (omega (arith, s.place))
        fits in
    let z : pos - length s.before ≡ 0 = omega (arith, s.place) in
    let rest : drop pos buf ≡ bytes ++ s.after =
      ap (drop pos) s.parts
      ∙ drop-append_ge pos s.before (bytes ++ s.after) (omega (arith, s.place))
      ∙ ap (λ k. drop k (bytes ++ s.after)) z in
    t.inside (omega (arith, s.place))
    ∙ ap (λ b. ok (b, pos + length bytes))
        (ap (take (length bytes)) rest ∙ take_append bytes s.after)

pub first-Stands : (xs ys buf : Bytes) (pos : ℕ) → Stands (xs ++ ys) buf pos → Stands xs buf pos
first-Stands xs ys buf pos s = record {
  before = s.before;
  after = ys ++ s.after;
  parts = s.parts ∙ ap (◌++◌ s.before) (append_assoc xs ys s.after);
  place = s.place;
}

pub second-Stands :
    (xs ys buf : Bytes) (pos : ℕ) → Stands (xs ++ ys) buf pos → Stands ys buf (pos + length xs)
second-Stands xs ys buf pos s = record {
  before = s.before ++ xs;
  after = s.after;
  parts =
      s.parts
      ∙ ap (◌++◌ s.before) (append_assoc xs ys s.after)
      ∙ sym (append_assoc s.before xs (ys ++ s.after));
  place = omega (arith, s.place, length-append s.before xs);
}

pub Stands-le : (bytes buf : Bytes) (pos : ℕ) → Stands bytes buf pos → pos ≤ length buf
Stands-le bytes buf pos s =
    let total : length buf ≡ length s.before + length (bytes ++ s.after) =
      ap length s.parts ∙ length-append s.before (bytes ++ s.after) in
    omega (arith, s.place)
