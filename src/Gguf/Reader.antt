-- ===== src/Gguf/Reader.antt =====
-- The methods of `Reader` in ft-gguf/src/lib.rs.
pub mod Take
pub mod Encoding
pub mod RoundTrip
use free_token_rs.Prelude.{ℕ, zero, suc, ◌+◌, ◌*◌, ◌^◌, not, [], ◌∷◌, ◌==◌, if◌then◌else◌}
use free_token_rs.Gguf.Outcome.{
  Bytes, M, pure, fail, ◌>>=◌, take_bytes, loop, stuck, not_utf8, unknown_value_type,
}
use free_token_rs.Gguf.Utf8.{is_utf8}
use free_token_rs.Gguf.Value.{Value, Values, nil, push, to_signed}

-- `uW::from_le_bytes`
abbrev pub from_le_bytes : Bytes → ℕ
from_le_bytes [] = 0
from_le_bytes (b ∷ bytes) = b + 256 * from_le_bytes bytes

unfoldable pub read_uint : ℕ → M ℕ
read_uint n = do bytes ← take_bytes n; pure (from_le_bytes bytes)

abbrev pub read_u32 : M ℕ
read_u32 = read_uint 4

abbrev pub read_u64 : M ℕ
read_u64 = read_uint 8

unfoldable pub read_string : M Bytes
read_string = do
  n ← read_u64
  bytes ← take_bytes n
  if is_utf8 bytes then pure bytes else fail not_utf8

-- One round of the loop over the items of an array.
unfoldable pub read_item : M Value → Values → M Values
read_item item vs = do v ← item; pure (push vs v)

-- An array: the type of its items, their number, and the items.
unfoldable pub read_array : (ℕ → M Value) → M Value
read_array item = do
  ety ← read_u32
  n ← read_u64
  vs ← loop n (read_item (item ety)) nil
  pure (Value.arr vs)

-- `Reader::value`; the fuel bounds how deep arrays are nested.
unfoldable pub read_value : ℕ → ℕ → M Value
read_value zero ty = λ buf pos. stuck
read_value (suc fuel) ty =
    if ty == 0
    then read_uint 1 >>= (λ x. pure (Value.u8 x))
    else if ty == 1
    then read_uint 1 >>= (λ x. pure (Value.i8 (to_signed (2 ^ 7) x)))
    else if ty == 2
    then read_uint 2 >>= (λ x. pure (Value.u16 x))
    else if ty == 3
    then read_uint 2 >>= (λ x. pure (Value.i16 (to_signed (2 ^ 15) x)))
    else if ty == 4
    then read_u32 >>= (λ x. pure (Value.u32 x))
    else if ty == 5
    then read_u32 >>= (λ x. pure (Value.i32 (to_signed (2 ^ 31) x)))
    else if ty == 6
    then read_u32 >>= (λ x. pure (Value.f32 x))
    else if ty == 7
    then read_uint 1 >>= (λ x. pure (Value.bool (not (x == 0))))
    else if ty == 8
    then read_string >>= (λ s. pure (Value.str s))
    else if ty == 9
    then read_array (read_value fuel)
    else if ty == 10
    then read_u64 >>= (λ x. pure (Value.u64 x))
    else if ty == 11
    then read_u64 >>= (λ x. pure (Value.i64 (to_signed (2 ^ 63) x)))
    else if ty == 12
    then read_u64 >>= (λ x. pure (Value.f64 x))
    else fail (unknown_value_type ty)
