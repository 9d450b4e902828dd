-- ===== src/Gguf/File/Sized.antt =====
-- The sizes in the tensor table of an opened file.
use free_token_rs.Prelude.{
  length, ℕ, zero, suc, ◌*◌, ◌/◌, ◌%◌, ◌≡◌, ◌<◌, refl, subst, inl, inr, some, List, [], ◌∷◌, ◌++◌,
  ◌==◌, arith, Bool-cases, u64_mod,
}
use free_token_rs.Text.{Text, text_eq}
use free_token_rs.Gguf.Outcome.{
  Outcome, ok, bail, panic, stuck, Bytes, M, pure, continue, lift, ◌>>=◌, take_bytes, loop,
}
use free_token_rs.Gguf.Reader.{read_u32, read_u64, read_string}
use free_token_rs.Gguf.Value.{Value}
use free_token_rs.Gguf.File.{
  TensorInfo, Gguf, insert, get, block_layout, product, tensor_bytes, read_entry, read_tensor,
  check_magic, check_version, alignment_of, align_up, read_file, with_start, load, open_file,
}

-- What a read returns, if it succeeds, has a property.
abbrev Yields {ℓ} : {A : Type ℓ} → (A → Type 0) → Outcome (A × ℕ) → Type 0
Yields P (ok (a, pos)) = P a
Yields P (bail e) = Unit
Yields P panic = Unit
Yields P stuck = Unit

Yields-continue {ℓ κ} :
    {A : Type ℓ} {B : Type κ} (P : B → Type 0) (o : Outcome (A × ℕ)) (f : A → M B) (buf : Bytes)
    → ((a : A) (pos : ℕ) → Yields P (f a buf pos))
    → Yields P (continue o f buf)
Yields-continue P (ok (a, pos)) f buf next = next a pos
Yields-continue P (bail e) f buf next = tt
Yields-continue P panic f buf next = tt
Yields-continue P stuck f buf next = tt

-- The same with a property of what is read first.
Yields-bind {ℓ κ} :
    {A : Type ℓ} {B : Type κ} (Q : A → Type 0) (P : B → Type 0) (o : Outcome (A × ℕ)) (f : A → M B)
    (buf : Bytes)
    → Yields Q o
    → ((a : A) (pos : ℕ) → Q a → Yields P (f a buf pos))
    → Yields P (continue o f buf)
Yields-bind Q P (ok (a, pos)) f buf first next = next a pos first
Yields-bind Q P (bail e) f buf first next = tt
Yields-bind Q P panic f buf first next = tt
Yields-bind Q P stuck f buf first next = tt

loop-Yields {ℓ} :
    {A : Type ℓ} (P : A → Type 0) (n : ℕ) (body : A → M A) (s : A) (buf : Bytes) (pos : ℕ)
    → ((s : A) (pos : ℕ) → P s → Yields P (body s buf pos))
    → P s
    → Yields P (loop n body s buf pos)
unfolding loop
loop-Yields P zero body s buf pos each h = h
loop-Yields P (suc n) body s buf pos each h =
    Yields-bind P P (body s buf pos) (loop n body) buf (each s pos h)
      (λ s' pos' h'. loop-Yields P n body s' buf pos' each h')

-- The type of a tensor has a block layout, blocks fill its elements, and its bytes are those of
-- the blocks; products wrap at 2 ^ 64.
pub record IsSized (t : TensorInfo) : Type 0 where
  pub block_elements : ℕ
  pub block_bytes : ℕ
  pub layout : block_layout t.ggml_type ≡ ok (block_elements, block_bytes)
  pub whole : product t.dims % block_elements ≡ 0
  pub bytes : t.nbytes ≡ product t.dims / block_elements * block_bytes % u64_mod
  pub small : t.nbytes < u64_mod

abbrev pub AllSized : List (Text × TensorInfo) → Type 0
AllSized tensors = (name : Text) (t : TensorInfo) → get tensors name ≡ some t → IsSized t

AllSized-insert :
    (tensors : List (Text × TensorInfo)) (name : Text) (t : TensorInfo)
    → AllSized tensors
    → IsSized t
    → AllSized (insert tensors name t)
unfolding get
AllSized-insert tensors name t all sized key t' h = elim (Bool-cases (text_eq name key)) [
  | inl same ↦ subst IsSized (ground (arith, h, same)) sized
  | inr other ↦ all key t' (rw (other, get) at h)
]

lift-Yields :
    {A : Type 0} (o : Outcome A) (buf : Bytes) (pos : ℕ) → Yields (λ a. o ≡ ok a) (lift o buf pos)
lift-Yields (ok a) buf pos = refl
lift-Yields (bail e) buf pos = tt
lift-Yields panic buf pos = tt
lift-Yields stuck buf pos = tt

-- What `tensor_bytes` returns.
abbrev Fills : ℕ → ℕ → ℕ → ℕ → Type 0
Fills nelems be bb n = (nelems % be ≡ 0) × (n ≡ nelems / be * bb % u64_mod) × (n < u64_mod)

tensor_bytes-Yields :
    (nelems be bb : ℕ) (buf : Bytes) (pos : ℕ)
    → Yields (Fills nelems be bb) (tensor_bytes nelems (be, bb) buf pos)
unfolding tensor_bytes
tensor_bytes-Yields nelems be bb buf pos = elim (Bool-cases (nelems % be == 0)) [
  | inl e ↦ rw e (ground arith, refl, omega arith)
  | inr e ↦ rw e tt
]

read_tensor-Yields :
    (tensors : List (Text × TensorInfo)) (buf : Bytes) (pos : ℕ)
    → AllSized tensors
    → Yields AllSized (read_tensor tensors buf pos)
unfolding read_tensor
read_tensor-Yields tensors buf pos all =
    Yields-continue AllSized (read_string buf pos) _ buf λ name pos1.
      Yields-continue AllSized (read_u32 buf pos1) _ buf λ n_dims pos2.
        Yields-continue AllSized
          (loop n_dims (λ dims. read_u64 >>= λ d. pure (dims ++ d ∷ [])) [] buf pos2) _ buf
          λ dims pos3. Yields-continue AllSized (read_u32 buf pos3) _ buf λ ty pos4.
            Yields-continue AllSized (read_u64 buf pos4) _ buf λ offset pos5.
              Yields-bind (λ l. block_layout ty ≡ ok l) AllSized (lift (block_layout ty) buf pos5) _
                buf (lift-Yields (block_layout ty) buf pos5)
                λ layout pos6 known.
                  Yields-bind (Fills (product dims) layout.0 layout.1) AllSized
                    (tensor_bytes (product dims) layout buf pos6) _ buf
                    (tensor_bytes-Yields (product dims) layout.0 layout.1 buf pos6)
                    λ nbytes pos7 fills.
                      AllSized-insert tensors name
                        (record { dims = dims; ggml_type = ty; offset = offset; nbytes = nbytes })
                        all
                        (record {
                          block_elements = layout.0;
                          block_bytes = layout.1;
                          layout = known;
                          whole = fills.0;
                          bytes = fills.1;
                          small = fills.2;
                        })

read_file-Yields :
    (fuel : ℕ) (buf : Bytes) (pos : ℕ)
    → Yields (λ tables. AllSized tables.1) (read_file fuel buf pos)
unfolding read_file get
read_file-Yields fuel buf pos =
    let P : List (Text × Value) × List (Text × TensorInfo) → Type 0 = λ tables. AllSized tables.1 in
    Yields-continue P (take_bytes 4 buf pos) _ buf λ magic pos1.
      Yields-continue P (check_magic magic buf pos1) _ buf λ _ pos2.
        Yields-continue P (read_u32 buf pos2) _ buf λ version pos3.
          Yields-continue P (check_version version buf pos3) _ buf λ _ pos4.
            Yields-continue P (read_u64 buf pos4) _ buf λ n_tensors pos5.
              Yields-continue P (read_u64 buf pos5) _ buf λ n_kv pos6.
                Yields-continue P (loop n_kv (read_entry fuel) [] buf pos6) _ buf λ meta pos7.
                  Yields-bind AllSized P (loop n_tensors read_tensor [] buf pos7) _ buf
                    (loop-Yields AllSized n_tensors read_tensor [] buf pos7
                      (λ tensors pos' all. read_tensor-Yields tensors buf pos' all)
                      (λ name t h. ground arith))
                    λ tensors pos8 all. all

with_start-Sized :
    (buf : Bytes) (meta : List (Text × Value)) (tensors : List (Text × TensorInfo)) (a : Outcome ℕ)
    (g : Gguf)
    → with_start buf meta tensors a ≡ ok g
    → AllSized tensors
    → AllSized g.tensors
unfolding with_start
with_start-Sized buf meta tensors (ok d) g h all = subst AllSized (ground (arith, h)) all
with_start-Sized buf meta tensors (bail e) g h all = ground arith
with_start-Sized buf meta tensors panic g h all = ground arith
with_start-Sized buf meta tensors stuck g h all = ground arith

load-Sized :
    (buf : Bytes) (o : Outcome ((List (Text × Value) × List (Text × TensorInfo)) × ℕ)) (g : Gguf)
    → load buf o ≡ ok g
    → Yields (λ tables. AllSized tables.1) o
    → AllSized g.tensors
unfolding load
load-Sized buf (ok ((meta, tensors), pos)) g h all =
    with_start-Sized buf meta tensors (align_up pos (alignment_of meta)) g h all
load-Sized buf (bail e) g h all = ground arith
load-Sized buf panic g h all = ground arith
load-Sized buf stuck g h all = ground arith

-- In a file that `open` accepts, each tensor of the table has a type with a known block layout,
-- its elements fill whole blocks, and its bytes are those of the blocks: products wrap at 2 ^ 64.
pub open_file-IsSized :
    (buf : Bytes) (g : Gguf) (name : Text) (t : TensorInfo)
    → open_file buf ≡ ok g
    → get g.tensors name ≡ some t
    → IsSized t
unfolding open_file
open_file-IsSized buf g name t h =
    load-Sized buf (read_file (length buf) buf 0) g h (read_file-Yields (length buf) buf 0) name t
