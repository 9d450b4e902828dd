-- ===== src/Gguf/Outcome.antt =====
-- What a call of the GGUF reader ends in, and the reader as a state monad over the position.
use free_token_rs.Prelude.{
  ℕ, zero, suc, ◌+◌, ◌-◌, ◌%◌, List, ltb, if◌then◌else◌, length, take, drop, u64_mod,
}

pub data Error : Type 0 where
  -- "gguf: truncated at {pos}+{n}"
  truncated : ℕ → ℕ → Error
  not_gguf : Error
  bad_version : ℕ → Error
  unknown_value_type : ℕ → Error
  unsupported_ggml_type : ℕ → Error
  not_utf8 : Error
  not_divisible : ℕ → ℕ → Error
  not_found : Error
  out_of_bounds : Error

pub data Outcome {ℓ} (A : Type ℓ) : Type ℓ where
  ok : A → Outcome A
  bail : Error → Outcome A
  panic : Outcome A
  -- the fuel of the model ran out
  stuck : Outcome A

abbrev pub Bytes : Type 0
Bytes = List ℕ

-- `Reader`: the buffer stays, the position moves.
abbrev pub M {ℓ} : Type ℓ → Type ℓ
M A = Bytes → ℕ → Outcome (A × ℕ)

abbrev pub pure {ℓ} : {A : Type ℓ} → A → M A
pure a buf pos = ok (a, pos)

abbrev pub fail {ℓ} : {A : Type ℓ} → Error → M A
fail e buf pos = bail e

-- A result that reads nothing.
abbrev pub lift {ℓ} : {A : Type ℓ} → Outcome A → M A
lift (ok a) buf pos = ok (a, pos)
lift (bail e) buf pos = bail e
lift panic buf pos = panic
lift stuck buf pos = stuck

-- The rest of a read, after the outcome of its beginning.
abbrev pub continue {ℓ κ} :
    {A : Type ℓ} {B : Type κ} → Outcome (A × ℕ) → (A → M B) → Bytes → Outcome (B × ℕ)
continue (ok (a, pos)) f buf = f a buf pos
continue (bail e) f buf = bail e
continue panic f buf = panic
continue stuck f buf = stuck

infixl 5 ◌>>=◌ ◌>>◌
abbrev pub ◌>>=◌ {ℓ κ} : {A : Type ℓ} {B : Type κ} → M A → (A → M B) → M B
◌>>=◌ m f buf pos = continue (m buf pos) f buf

abbrev pub ◌>>◌ {ℓ κ} : {A : Type ℓ} {B : Type κ} → M A → M B → M B
m >> k = m >>= λ _. k

-- `&buf[lo..hi]`, for `hi` within the buffer: it panics if `hi` is before `lo`.
abbrev pub slice : Bytes → ℕ → ℕ → Outcome Bytes
slice buf lo hi = if ltb hi lo then panic else ok (take (hi - lo) (drop lo buf))

-- `Reader::take`, with the sum of the position and the length as it wraps.
unfoldable pub take_bytes : ℕ → M Bytes
take_bytes n buf pos =
    let end = (pos + n) % u64_mod in
    if ltb (length buf) end then bail (truncated pos n) else elim (slice buf pos end) [
      | ok bytes ↦ ok (bytes, end)
      | bail e ↦ bail e
      | panic ↦ panic
      | stuck ↦ stuck
    ]

-- `for _ in 0..n` with a body that changes `s`.
unfoldable pub loop {ℓ} : {A : Type ℓ} → ℕ → (A → M A) → A → M A
loop zero body s = pure s
loop (suc n) body s = body s >>= loop n body
