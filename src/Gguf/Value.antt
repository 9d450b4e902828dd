-- ===== src/Gguf/Value.antt =====
-- `Value` of ft-gguf/src/lib.rs. Floats are kept as their bit patterns.
use free_token_rs.Prelude.{ℕ, ◌+◌, ◌-◌, Bool, Option, none, some, List, ltb, if◌then◌else◌}
use free_token_rs.Prelude.Int.{ℤ, pos, negsuc}

mutual
  pub data Value : Type 0 where
    u8 u16 u32 u64 : ℕ → Value
    i8 i16 i32 i64 : ℤ → Value
    f32 f64 : ℕ → Value
    bool : Bool → Value
    str : List ℕ → Value
    arr : Values → Value

  pub data Values : Type 0 where
    nil : Values
    cons : Value → Values → Values

-- `x as iW`, two's complement.
unfoldable pub to_signed : ℕ → ℕ → ℤ
to_signed half x = if ltb x half then pos x else negsuc (half + half - 1 - x)

unfoldable pub nonneg : ℤ → Option ℕ
nonneg (pos n) = some n
nonneg (negsuc n) = none

unfoldable pub as_u64 : Value → Option ℕ
unfolding nonneg
as_u64 (u8 v) = some v
as_u64 (u16 v) = some v
as_u64 (u32 v) = some v
as_u64 (u64 v) = some v
as_u64 (i8 v) = nonneg v
as_u64 (i16 v) = nonneg v
as_u64 (i32 v) = nonneg v
as_u64 (i64 v) = nonneg v
as_u64 _ = none

unfoldable pub as_str : Value → Option (List ℕ)
as_str (str s) = some s
as_str _ = none

-- `v.push(x)`
unfoldable pub push : Values → Value → Values
push nil x = cons x nil
push (cons v vs) x = cons v (push vs x)
