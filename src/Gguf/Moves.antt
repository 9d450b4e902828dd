-- ===== src/Gguf/Moves.antt =====
-- The reads of the GGUF reader go forward and stay in the file, and their fuel is enough.
use free_token_rs.Prelude.{
  ℕ, zero, suc, ◌+◌, ◌%◌, ◌≤◌, ◌<◌, ◌≡◌, refl, subst, ◌⊎◌, inl, inr, Bool, true, false, not, ◌^◌,
  ◌==◌, arith, ltb, if◌then◌else◌, length, Bool-cases, u64_mod,
}
use free_token_rs.Gguf.Outcome.{
  Outcome, ok, bail, panic, stuck, Bytes, M, pure, fail, not_utf8, continue, ◌>>=◌, take_bytes,
  loop,
}
use free_token_rs.Gguf.Utf8.{is_utf8}
use free_token_rs.Gguf.Value.{Value, nil, push, to_signed}
use free_token_rs.Gguf.Reader.{
  read_item, read_array, from_le_bytes, read_uint, read_string, read_value,
}

-- A read from `pos` does not run out of fuel; if it succeeds, it has read at least `least` bytes
-- and is still in the file.
abbrev pub Moves {ℓ} : {A : Type ℓ} → ℕ → Bytes → ℕ → Outcome (A × ℕ) → Type 0
Moves least buf pos (ok (a, pos')) = (pos + least ≤ pos') × (pos' ≤ length buf)
Moves least buf pos (bail e) = Unit
Moves least buf pos panic = Unit
Moves least buf pos stuck = ⊥

weaken-Moves {ℓ} :
    {A : Type ℓ} (least more : ℕ) (buf : Bytes) (pos pos' : ℕ) (o : Outcome (A × ℕ))
    → pos + least ≤ pos'
    → Moves more buf pos' o
    → Moves (least + more) buf pos o
weaken-Moves least more buf pos pos' (ok (b, end)) h moves = (omega arith, moves.1)
weaken-Moves least more buf pos pos' (bail e) h moves = tt
weaken-Moves least more buf pos pos' panic h moves = tt
weaken-Moves least more buf pos pos' stuck h moves = moves

Moves-continue {ℓ κ} :
    {A : Type ℓ} {B : Type κ} (least more : ℕ) (o : Outcome (A × ℕ)) (f : A → M B) (buf : Bytes)
    (pos : ℕ)
    → Moves least buf pos o
    → ((a : A) (pos' : ℕ)
        → pos + least ≤ pos'
        → pos' ≤ length buf
        → Moves more buf pos' (f a buf pos'))
    → Moves (least + more) buf pos (continue o f buf)
Moves-continue least more (ok (a, pos')) f buf pos moves next =
    weaken-Moves least more buf pos pos' (f a buf pos') moves.0 (next a pos' moves.0 moves.1)
Moves-continue least more (bail e) f buf pos moves next = tt
Moves-continue least more panic f buf pos moves next = tt
Moves-continue least more stuck f buf pos moves next = moves

pub Moves-bind {ℓ κ} :
    {A : Type ℓ} {B : Type κ} (least more : ℕ) (m : M A) (f : A → M B) (buf : Bytes) (pos : ℕ)
    → Moves least buf pos (m buf pos)
    → ((a : A) (pos' : ℕ)
        → pos + least ≤ pos'
        → pos' ≤ length buf
        → Moves more buf pos' (f a buf pos'))
    → Moves (least + more) buf pos ((m >>= f) buf pos)
Moves-bind least more m f buf pos first next =
    Moves-continue least more (m buf pos) f buf pos first next

pub Moves-pure {ℓ} :
    {A : Type ℓ} (a : A) (buf : Bytes) (pos : ℕ)
    → pos ≤ length buf
    → Moves 0 buf pos (pure a buf pos)
Moves-pure a buf pos h = (omega arith, h)

pub take_bytes-Moves :
    (n least : ℕ) (buf : Bytes) (pos : ℕ)
    → pos < u64_mod
    → least < u64_mod
    → (least ≡ 0) ⊎ (least ≡ n)
    → Moves least buf pos (take_bytes n buf pos)
unfolding take_bytes
take_bytes-Moves n least buf pos h k which =
    let end = (pos + n) % u64_mod in
    elim (Bool-cases (ltb (length buf) end)) [
      | inl short ↦ rw short tt
      | inr enough ↦ elim (Bool-cases (ltb end pos)) [
        | inl wraps ↦ rw (enough, wraps) tt
        | inr goes ↦ rw (enough, goes) (ground arith, ground arith)
      ]
    ]

-- At least no byte.
pub none-Moves {ℓ} :
    {A : Type ℓ} (least : ℕ) (buf : Bytes) (pos : ℕ) (o : Outcome (A × ℕ))
    → Moves least buf pos o
    → Moves 0 buf pos o
none-Moves least buf pos (ok (a, pos')) moves = (omega arith, moves.1)
none-Moves least buf pos (bail e) moves = tt
none-Moves least buf pos panic moves = tt
none-Moves least buf pos stuck moves = moves

pub test-Moves {ℓ} :
    {A : Type ℓ} (b : Bool) (m k : M A) (buf : Bytes) (pos : ℕ)
    → Moves 0 buf pos (m buf pos)
    → Moves 0 buf pos (k buf pos)
    → Moves 0 buf pos ((if b then m else k) buf pos)
test-Moves true m k buf pos h h' = h
test-Moves false m k buf pos h h' = h'

module _ (buf : Bytes) (fits : length buf < u64_mod) where
  pub read_uint-Moves :
      (n pos : ℕ) → n < u64_mod → pos ≤ length buf → Moves n buf pos (read_uint n buf pos)
  unfolding read_uint
  read_uint-Moves n pos small h =
      subst (λ k. Moves k buf pos (read_uint n buf pos)) (omega arith)
        (Moves-bind n 0 (take_bytes n) (λ bytes. pure (from_le_bytes bytes)) buf pos
          (take_bytes-Moves n n buf pos (omega arith) small (inr refl))
          (λ bytes pos' from to. Moves-pure (from_le_bytes bytes) buf pos' to))

  pub loop-Moves {ℓ} :
      {A : Type ℓ} (n : ℕ) (body : A → M A) (s : A) (pos : ℕ)
      → ((s : A) (pos' : ℕ) → pos ≤ pos' → pos' ≤ length buf → Moves 0 buf pos' (body s buf pos'))
      → pos ≤ length buf
      → Moves 0 buf pos (loop n body s buf pos)
  unfolding loop
  loop-Moves zero body s pos each h = Moves-pure s buf pos h
  loop-Moves (suc n) body s pos each h =
      Moves-bind 0 0 (body s) (loop n body) buf pos (each s pos (omega arith) h) (λ s' pos' from to.
        loop-Moves n body s' pos' (λ s'' pos'' from' to'. each s'' pos'' (omega arith) to') to)

  read_0 : (n pos : ℕ) → n < u64_mod → pos ≤ length buf → Moves 0 buf pos (read_uint n buf pos)
  read_0 n pos small h = none-Moves n buf pos (read_uint n buf pos) (read_uint-Moves n pos small h)

  -- A number and what is made of it.
  read_then-Moves {ℓ} :
      {A : Type ℓ} (n pos : ℕ) (f : ℕ → A)
      → n < u64_mod
      → pos ≤ length buf
      → Moves 0 buf pos ((read_uint n >>= λ x. pure (f x)) buf pos)
  read_then-Moves n pos f small h =
      Moves-bind 0 0 (read_uint n) (λ x. pure (f x)) buf pos (read_0 n pos small h)
        (λ x pos' from to. Moves-pure (f x) buf pos' to)

  pub read_string-Moves : (pos : ℕ) → pos ≤ length buf → Moves 0 buf pos (read_string buf pos)
  unfolding read_string
  read_string-Moves pos h =
      Moves-bind 0 0 (read_uint 8) _ buf pos (read_0 8 pos (omega arith) h) λ n pos' from to.
        Moves-bind 0 0 (take_bytes n) (λ bytes. if is_utf8 bytes then pure bytes else fail not_utf8)
          buf pos' (take_bytes-Moves n 0 buf pos' (omega arith) (omega arith) (inl refl))
          (λ bytes end from' to'.
            test-Moves (is_utf8 bytes) (pure bytes) (fail not_utf8) buf end
              (Moves-pure bytes buf end to') tt)

  read_array-Moves :
      (item : ℕ → M Value) (pos : ℕ)
      → ((ety pos' : ℕ) → pos < pos' → pos' ≤ length buf → Moves 0 buf pos' (item ety buf pos'))
      → pos ≤ length buf
      → Moves 0 buf pos (read_array item buf pos)
  unfolding read_array read_item
  read_array-Moves item pos each h = none-Moves 4 buf pos _ (
      Moves-bind 4 0 (read_uint 4) _ buf pos (read_uint-Moves 4 pos (omega arith) h)
        λ ety pos1 from1 to1.
          Moves-bind 0 0 (read_uint 8) _ buf pos1 (read_0 8 pos1 (omega arith) to1)
            λ n pos2 from2 to2.
              Moves-bind 0 0 (loop n (read_item (item ety)) nil) (λ vs. pure (Value.arr vs)) buf
                pos2
                (loop-Moves n (read_item (item ety)) nil pos2
                  (λ vs pos3 from3 to3.
                    Moves-bind 0 0 (item ety) (λ v. pure (push vs v)) buf pos3
                      (each ety pos3 (omega arith) to3)
                      (λ v pos4 from4 to4. Moves-pure (push vs v) buf pos4 to4))
                  to2)
                (λ vs pos5 from5 to5. Moves-pure (Value.arr vs) buf pos5 to5))

  pub read_value-Moves :
      (fuel ty pos : ℕ)
      → length buf < pos + fuel
      → pos ≤ length buf
      → Moves 0 buf pos (read_value fuel ty buf pos)
  unfolding read_value
  read_value-Moves zero ty pos enough h = omega arith
  read_value-Moves (suc fuel) ty pos enough h = elim (Bool-cases (ty == 0)) [
    | inl e ↦ rw e (read_then-Moves 1 pos (Value.u8) (omega arith) h)
    | inr e ↦ rw e (elim (Bool-cases (ty == 1)) [
      | inl e ↦ rw e (read_then-Moves 1 pos (λ x. Value.i8 (to_signed (2 ^ 7) x)) (omega arith) h)
      | inr e ↦ rw e (elim (Bool-cases (ty == 2)) [
        | inl e ↦ rw e (read_then-Moves 2 pos (Value.u16) (omega arith) h)
        | inr e ↦ rw e (elim (Bool-cases (ty == 3)) [
          | inl e ↦
              rw e (read_then-Moves 2 pos (λ x. Value.i16 (to_signed (2 ^ 15) x)) (omega arith) h)
          | inr e ↦ rw e (elim (Bool-cases (ty == 4)) [
            | inl e ↦ rw e (read_then-Moves 4 pos (Value.u32) (omega arith) h)
            | inr e ↦ rw e (elim (Bool-cases (ty == 5)) [
              | inl e ↦
                  rw e
                    (read_then-Moves 4 pos (λ x. Value.i32 (to_signed (2 ^ 31) x)) (omega arith) h)
              | inr e ↦ rw e (elim (Bool-cases (ty == 6)) [
                | inl e ↦ rw e (read_then-Moves 4 pos (Value.f32) (omega arith) h)
                | inr e ↦ rw e (elim (Bool-cases (ty == 7)) [
                  | inl e ↦
                      rw e (read_then-Moves 1 pos (λ x. Value.bool (not (x == 0))) (omega arith) h)
                  | inr e ↦ rw e (elim (Bool-cases (ty == 8)) [
                    | inl e ↦ rw e (
                        Moves-bind 0 0 read_string (λ s. pure (Value.str s)) buf pos
                          (read_string-Moves pos h)
                          (λ s pos' from to. Moves-pure (Value.str s) buf pos' to))
                    | inr e ↦ rw e (elim (Bool-cases (ty == 9)) [
                      | inl e ↦ rw e (
                          read_array-Moves (read_value fuel) pos
                            (λ ety pos' from to. read_value-Moves fuel ety pos' (omega arith) to) h)
                      | inr e ↦ rw e (elim (Bool-cases (ty == 10)) [
                        | inl e ↦ rw e (read_then-Moves 8 pos (Value.u64) (omega arith) h)
                        | inr e ↦ rw e (elim (Bool-cases (ty == 11)) [
                          | inl e ↦ rw e (
                              read_then-Moves 8 pos (λ x. Value.i64 (to_signed (2 ^ 63) x))
                                (omega arith) h)
                          | inr e ↦ rw e (elim (Bool-cases (ty == 12)) [
                            | inl e ↦ rw e (read_then-Moves 8 pos (Value.f64) (omega arith) h)
                            | inr e ↦ rw e (tt)
                          ])
                        ])
                      ])
                    ])
                  ])
                ])
              ])
            ])
          ])
        ])
      ])
    ])
  ]
