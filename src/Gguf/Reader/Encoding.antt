-- ===== src/Gguf/Reader/Encoding.antt =====
-- The encoding of values in a GGUF file, described by the bytes that stand for a value.
use free_token_rs.Prelude.{
  ℕ, zero, suc, ◌+◌, ◌-◌, ◌/◌, ◌%◌, ◌^◌, ◌≡◌, ◌<◌, Bool, true, false, [], ◌∷◌, ◌++◌, length,
  u64_mod,
}
use free_token_rs.Prelude.Int.{ℤ, pos, negsuc}
use free_token_rs.Gguf.Outcome.{Bytes}
use free_token_rs.Gguf.Utf8.{is_utf8}
use free_token_rs.Gguf.Value.{Value, Values, nil, cons}

-- The `n` low bytes of a number, the lowest first.
unfoldable pub to_le_bytes : ℕ → ℕ → Bytes
to_le_bytes zero x = []
to_le_bytes (suc n) x = x % 256 ∷ to_le_bytes n (x / 256)

-- A signed number as its two's complement, where `half` is the least number that is too large.
abbrev pub to_unsigned : ℕ → ℤ → ℕ
to_unsigned half (pos n) = n
to_unsigned half (negsuc n) = half + half - suc n

-- A signed number is in range.
abbrev pub InRange : ℕ → ℤ → Type 0
InRange half (pos n) = n < half
InRange half (negsuc n) = n < half

abbrev pub byte_of : Bool → ℕ
byte_of true = 1
byte_of false = 0

abbrev pub count : Values → ℕ
count nil = 0
count (cons v vs) = suc (count vs)

-- A type, a value of it, and the bytes of the value.
mutual
  pub data Encodes : ℕ → Value → Bytes → Type 0 where
    u8 : (x : ℕ) → x < 2 ^ 8 → Encodes 0 (Value.u8 x) (to_le_bytes 1 x)
    i8 :
        (x : ℤ) → InRange (2 ^ 7) x → Encodes 1 (Value.i8 x) (to_le_bytes 1 (to_unsigned (2 ^ 7) x))
    u16 : (x : ℕ) → x < 2 ^ 16 → Encodes 2 (Value.u16 x) (to_le_bytes 2 x)
    i16 :
        (x : ℤ)
        → InRange (2 ^ 15) x
        → Encodes 3 (Value.i16 x) (to_le_bytes 2 (to_unsigned (2 ^ 15) x))
    u32 : (x : ℕ) → x < 2 ^ 32 → Encodes 4 (Value.u32 x) (to_le_bytes 4 x)
    i32 :
        (x : ℤ)
        → InRange (2 ^ 31) x
        → Encodes 5 (Value.i32 x) (to_le_bytes 4 (to_unsigned (2 ^ 31) x))
    f32 : (x : ℕ) → x < 2 ^ 32 → Encodes 6 (Value.f32 x) (to_le_bytes 4 x)
    bool : (b : Bool) → Encodes 7 (Value.bool b) (to_le_bytes 1 (byte_of b))
    str :
        (s : Bytes)
        → is_utf8 s ≡ true
        → length s < u64_mod
        → Encodes 8 (Value.str s) (to_le_bytes 8 (length s) ++ s)
    arr :
        (ty : ℕ) (vs : Values) (bytes : Bytes)
        → ty < 2 ^ 32
        → count vs < u64_mod
        → EncodesAll ty vs bytes
        → Encodes 9 (Value.arr vs) (to_le_bytes 4 ty ++ (to_le_bytes 8 (count vs) ++ bytes))
    u64 : (x : ℕ) → x < 2 ^ 64 → Encodes 10 (Value.u64 x) (to_le_bytes 8 x)
    i64 :
        (x : ℤ)
        → InRange (2 ^ 63) x
        → Encodes 11 (Value.i64 x) (to_le_bytes 8 (to_unsigned (2 ^ 63) x))
    f64 : (x : ℕ) → x < 2 ^ 64 → Encodes 12 (Value.f64 x) (to_le_bytes 8 x)

  pub data EncodesAll : ℕ → Values → Bytes → Type 0 where
    none : (ty : ℕ) → EncodesAll ty nil []
    item :
        (ty : ℕ) (v : Value) (vs : Values) (first rest : Bytes)
        → Encodes ty v first
        → EncodesAll ty vs rest
        → EncodesAll ty (cons v vs) (first ++ rest)
