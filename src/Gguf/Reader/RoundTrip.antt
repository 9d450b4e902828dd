-- ===== src/Gguf/Reader/RoundTrip.antt =====
-- `Reader::value` reads back what the encoding of a value is.
use free_token_rs.Prelude.{
  ℕ, zero, suc, ◌+◌, ◌*◌, ◌/◌, ◌^◌, ◌≤◌, ◌<◌, ◌≡◌, refl, sym, ap, subst, ◌∙◌, Bool, true, false,
  not, ◌++◌, arith, ◌==◌, length, length-append, u64_mod,
}
use free_token_rs.Prelude.Int.{ℤ, pos, negsuc}
use free_token_rs.Gguf.Outcome.{Outcome, ok, Bytes, M, pure, ◌>>=◌, take_bytes, loop}
use free_token_rs.Gguf.Utf8.{is_utf8}
use free_token_rs.Gguf.Value.{Value, Values, nil, cons, push, to_signed}
use free_token_rs.Gguf.Reader.{
  from_le_bytes, read_uint, read_string, read_item, read_array, read_value,
}
use free_token_rs.Gguf.Reader.Take.{
  Stands, first-Stands, second-Stands, Stands-le, take_bytes-Stands,
}
use free_token_rs.Gguf.Reader.Encoding.{
  to_le_bytes, to_unsigned, InRange, byte_of, count, Encodes, EncodesAll,
}

length-to_le_bytes : (n x : ℕ) → length (to_le_bytes n x) ≡ n
unfolding to_le_bytes
length-to_le_bytes zero x = refl
length-to_le_bytes (suc n) x = omega (arith, length-to_le_bytes n (x / 256))

-- The largest number of so many bytes, and one more.
limit : ℕ → ℕ
limit zero = 1
limit (suc n) = 256 * limit n

from_le_bytes-to_le_bytes : (n x : ℕ) → x < limit n → from_le_bytes (to_le_bytes n x) ≡ x
unfolding to_le_bytes limit
from_le_bytes-to_le_bytes zero x h = omega arith
from_le_bytes-to_le_bytes (suc n) x h =
    omega (arith, from_le_bytes-to_le_bytes n (x / 256) (omega arith))

to_signed-to_unsigned :
    (half : ℕ) (x : ℤ) → InRange half x → to_signed half (to_unsigned half x) ≡ x
unfolding to_signed
to_signed-to_unsigned half (pos n) h = ground arith
to_signed-to_unsigned half (negsuc n) h = ground arith

unsigned-lt : (half : ℕ) (x : ℤ) → InRange half x → to_unsigned half x < half + half
unsigned-lt half (pos n) h = omega arith
unsigned-lt half (negsuc n) h = omega arith

-- The items of two lists.
append : Values → Values → Values
append nil ws = ws
append (cons v vs) ws = cons v (append vs ws)

append-push : (vs ws : Values) (v : Value) → append (push vs v) ws ≡ append vs (cons v ws)
unfolding push append
append-push nil ws v = refl
append-push (cons u vs) ws v = ap (cons u) (append-push vs ws v)

append_none : (vs : Values) → append vs nil ≡ vs
unfolding append
append_none nil = refl
append_none (cons v vs) = ap (cons v) (append_none vs)

ok_eq {ℓ} :
    {A : Type ℓ} {a b : A} {p q : ℕ}
    → a ≡ b
    → p ≡ q
    → ◌≡◌ {A = Outcome (A × ℕ)} (ok (a, p)) (ok (b, q))
ok_eq {a = a} {q = q} e h = ap (λ k. ok (a, k)) h ∙ ap (λ c. ok (c, q)) e

byte_of-lt : (b : Bool) → byte_of b < 256
byte_of-lt true = omega arith
byte_of-lt false = omega arith

byte_of_back : (b : Bool) → Value.bool (not (byte_of b == 0)) ≡ Value.bool b
byte_of_back true = refl
byte_of_back false = refl

module _ (buf : Bytes) (fits : length buf < u64_mod) where
  read_uint-Stands :
      (n x p : ℕ) → x < limit n → Stands (to_le_bytes n x) buf p → read_uint n buf p ≡ ok (x, p + n)
  unfolding read_uint
  read_uint-Stands n x p h s =
      let e = length-to_le_bytes n x in
      let taken : take_bytes n buf p ≡ ok (to_le_bytes n x, p + n) =
        subst (λ k. take_bytes k buf p ≡ ok (to_le_bytes n x, p + k)) e
          (take_bytes-Stands (to_le_bytes n x) buf p s fits) in
      rw (taken, from_le_bytes-to_le_bytes n x h) refl

  scalar-Stands :
      (n x p : ℕ) (f : ℕ → Value) (v : Value)
      → x < limit n
      → f x ≡ v
      → Stands (to_le_bytes n x) buf p
      → (read_uint n >>= λ y. pure (f y)) buf p ≡ ok (v, p + length (to_le_bytes n x))
  scalar-Stands n x p f v h e s =
      rw (read_uint-Stands n x p h s, length-to_le_bytes n x) (ap (λ w. ok (w, p + n)) e)

  signed-Stands :
      (n half p : ℕ) (x : ℤ) (f : ℤ → Value)
      → half + half ≡ limit n
      → InRange half x
      → Stands (to_le_bytes n (to_unsigned half x)) buf p
      → (read_uint n >>= λ y. pure (f (to_signed half y))) buf p
        ≡ ok (f x, p + length (to_le_bytes n (to_unsigned half x)))
  signed-Stands n half p x f e h s =
      scalar-Stands n (to_unsigned half x) p (λ y. f (to_signed half y)) (f x)
        (omega (arith, unsigned-lt half x h)) (ap f (to_signed-to_unsigned half x h)) s

  string-Stands :
      (t : Bytes) (p : ℕ)
      → is_utf8 t ≡ true
      → length t < limit 8
      → Stands (to_le_bytes 8 (length t) ++ t) buf p
      → read_string buf p ≡ ok (t, p + length (to_le_bytes 8 (length t) ++ t))
  unfolding read_string
  string-Stands t p valid small s =
      let n = to_le_bytes 8 (length t) in
      let e = length-to_le_bytes 8 (length t) in
      let first = read_uint-Stands 8 (length t) p small (first-Stands n t buf p s) in
      let second =
        take_bytes-Stands t buf (p + 8)
          (subst (λ k. Stands t buf (p + k)) e (second-Stands n t buf p s)) fits in
      rw (first, second, valid) (ap (λ k. ok (t, k)) (omega (arith, e, length-append n t)))

  -- The loop over the items of an array.
  items_stand :
      (ty : ℕ) (read : M Value) (start : ℕ)
      → ((v : Value) (bytes : Bytes) (p : ℕ)
          → start ≤ p
          → Encodes ty v bytes
          → Stands bytes buf p
          → read buf p ≡ ok (v, p + length bytes))
      → (vs acc : Values) (bytes : Bytes) (p : ℕ) → start ≤ p
      → EncodesAll ty vs bytes
      → Stands bytes buf p
      → loop (count vs) (read_item read) acc buf p ≡ ok (append acc vs, p + length bytes)
  unfolding loop read_item
  items_stand ty read start each _ acc _ p from (EncodesAll.none _) s =
      ok_eq (sym (append_none acc)) (omega arith)
  items_stand ty read start each _ acc _ p from (EncodesAll.item _ v vs first rest here more) s =
      let read_first = each v first p from here (first-Stands first rest buf p s) in
      let later =
        items_stand ty read start each vs (push acc v) rest (p + length first) (omega arith) more
          (second-Stands first rest buf p s) in
      rw read_first (later ∙ ok_eq (append-push acc vs v) (omega (arith, length-append first rest)))

  array-Stands :
      (ty : ℕ) (read : ℕ → M Value) (vs : Values) (bytes : Bytes) (p : ℕ)
      → ty < limit 4
      → count vs < limit 8
      → ((v : Value) (first : Bytes) (q : ℕ)
          → p < q
          → Encodes ty v first
          → Stands first buf q
          → read ty buf q ≡ ok (v, q + length first))
      → EncodesAll ty vs bytes
      → (let whole = to_le_bytes 4 ty ++ (to_le_bytes 8 (count vs) ++ bytes) in
          Stands whole buf p → read_array read buf p ≡ ok (Value.arr vs, p + length whole))
  unfolding read_array append
  array-Stands ty read vs bytes p small few each items s =
      let tag = to_le_bytes 4 ty in
      let n = to_le_bytes 8 (count vs) in
      let at_4 = length-to_le_bytes 4 ty in
      let at_8 = length-to_le_bytes 8 (count vs) in
      let rest =
        subst (λ k. Stands (n ++ bytes) buf (p + k)) at_4
          (second-Stands tag (n ++ bytes) buf p s) in
      let body =
        subst (λ k. Stands bytes buf (p + 4 + k)) at_8 (second-Stands n bytes buf (p + 4) rest) in
      let read_tag = read_uint-Stands 4 ty p small (first-Stands tag (n ++ bytes) buf p s) in
      let read_n =
        read_uint-Stands 8 (count vs) (p + 4) few (first-Stands n bytes buf (p + 4) rest) in
      let read_items =
        items_stand ty (read ty) (p + 4 + 8) (λ v first q from. each v first q (omega arith)) vs nil
          bytes (p + 4 + 8) (omega arith) items body in
      rw (read_tag, read_n, read_items)
        (ok_eq refl
          (omega (arith, at_4, at_8, length-append tag (n ++ bytes), length-append n bytes)))

  read_value-Stands :
      (fuel ty : ℕ) (v : Value) (bytes : Bytes) (p : ℕ)
      → length buf < p + fuel
      → Encodes ty v bytes
      → Stands bytes buf p
      → read_value fuel ty buf p ≡ ok (v, p + length bytes)
  unfolding read_value limit
  read_value-Stands zero ty v bytes p enough enc s = absurd (omega (arith, Stands-le bytes buf p s))
  read_value-Stands (suc fuel) _ _ _ p enough (Encodes.u8 x h) s =
      scalar-Stands 1 x p Value.u8 (Value.u8 x) (omega arith) refl s
  read_value-Stands (suc fuel) _ _ _ p enough (Encodes.i8 x h) s =
      signed-Stands 1 (2 ^ 7) p x Value.i8 refl h s
  read_value-Stands (suc fuel) _ _ _ p enough (Encodes.u16 x h) s =
      scalar-Stands 2 x p Value.u16 (Value.u16 x) (omega arith) refl s
  read_value-Stands (suc fuel) _ _ _ p enough (Encodes.i16 x h) s =
      signed-Stands 2 (2 ^ 15) p x Value.i16 refl h s
  read_value-Stands (suc fuel) _ _ _ p enough (Encodes.u32 x h) s =
      scalar-Stands 4 x p Value.u32 (Value.u32 x) (omega arith) refl s
  read_value-Stands (suc fuel) _ _ _ p enough (Encodes.i32 x h) s =
      signed-Stands 4 (2 ^ 31) p x Value.i32 refl h s
  read_value-Stands (suc fuel) _ _ _ p enough (Encodes.f32 x h) s =
      scalar-Stands 4 x p Value.f32 (Value.f32 x) (omega arith) refl s
  read_value-Stands (suc fuel) _ _ _ p enough (Encodes.bool b) s =
      scalar-Stands 1 (byte_of b) p (λ x. Value.bool (not (x == 0))) (Value.bool b) (byte_of-lt b)
        (byte_of_back b) s
  read_value-Stands (suc fuel) _ _ _ p enough (Encodes.str t valid h) s =
      rw (string-Stands t p valid (omega arith) s) refl
  read_value-Stands (suc fuel) _ _ _ p enough (Encodes.arr ty vs bytes small few items) s =
      array-Stands ty (read_value fuel) vs bytes p (omega arith) (omega arith)
        (λ v first q from enc here. read_value-Stands fuel ty v first q (omega arith) enc here)
        items s
  read_value-Stands (suc fuel) _ _ _ p enough (Encodes.u64 x h) s =
      scalar-Stands 8 x p Value.u64 (Value.u64 x) (omega arith) refl s
  read_value-Stands (suc fuel) _ _ _ p enough (Encodes.i64 x h) s =
      signed-Stands 8 (2 ^ 63) p x Value.i64 refl h s
  read_value-Stands (suc fuel) _ _ _ p enough (Encodes.f64 x h) s =
      scalar-Stands 8 x p Value.f64 (Value.f64 x) (omega arith) refl s

-- The bytes that stand for a value, anywhere in a file shorter than 2 ^ 64 bytes, are read as this
-- value, of its type, and the reader is after them: fuel that would be past the end of the file is
-- enough for any nesting of arrays.
pub read_value-Encodes :
    (before bytes after : Bytes) (fuel ty : ℕ) (v : Value)
    → Encodes ty v bytes
    → length (before ++ (bytes ++ after)) < u64_mod
    → length (before ++ (bytes ++ after)) < length before + fuel
    → read_value fuel ty (before ++ (bytes ++ after)) (length before)
      ≡ ok (v, length before + length bytes)
read_value-Encodes before bytes after fuel ty v enc fits enough =
    read_value-Stands (before ++ (bytes ++ after)) fits fuel ty v bytes (length before) enough enc
      (record { before = before; after = after; parts = refl; place = refl })
