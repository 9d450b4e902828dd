-- ===== src/Gguf/File/Forward.antt =====
-- The reads of `Gguf::open` go forward on every list of bytes.
use free_token_rs.Prelude.{
  ℕ, ◌+◌, ◌%◌, ◌≤◌, ◌<◌, ◌≢◌, refl, inl, inr, List, [], ◌∷◌, ◌++◌, ◌==◌, arith, leb, ◌&&◌, length,
  Bool-cases, u64_mod,
}
use free_token_rs.Text.{Text, codes, text_eq}
use free_token_rs.Gguf.Outcome.{
  Outcome, ok, bail, panic, stuck, Bytes, pure, lift, ◌>>=◌, take_bytes, loop,
}
use free_token_rs.Gguf.Value.{Value}
use free_token_rs.Gguf.Reader.{read_uint, read_string, read_value}
use free_token_rs.Gguf.Moves.{
  Moves, Moves-bind, Moves-pure, none-Moves, take_bytes-Moves, read_uint-Moves, read_string-Moves,
  read_value-Moves, loop-Moves,
}
use free_token_rs.Gguf.File.{
  TensorInfo, insert, block_layout, product, tensor_bytes, read_entry, read_tensor, check_magic,
  check_version, read_file,
}

module _ (buf : Bytes) (fits : length buf < u64_mod) where
  uint_0 : (n pos : ℕ) → n < u64_mod → pos ≤ length buf → Moves 0 buf pos (read_uint n buf pos)
  uint_0 n pos small h = none-Moves n buf pos _ (read_uint-Moves buf fits n pos small h)

  lift-Moves {ℓ} :
      {A : Type ℓ} (o : Outcome A) (pos : ℕ)
      → (o ≢ stuck)
      → pos ≤ length buf
      → Moves 0 buf pos (lift o buf pos)
  lift-Moves (ok a) pos ne h = Moves-pure a buf pos h
  lift-Moves (bail e) pos ne h = tt
  lift-Moves panic pos ne h = tt
  lift-Moves stuck pos ne h = ne refl

  read_entry-Moves :
      (fuel : ℕ) (meta : List (Text × Value)) (pos : ℕ)
      → length buf < pos + fuel
      → pos ≤ length buf
      → Moves 0 buf pos (read_entry fuel meta buf pos)
  unfolding read_entry
  read_entry-Moves fuel meta pos enough h =
      Moves-bind 0 0 read_string _ buf pos (read_string-Moves buf fits pos h) λ key pos1 from1 to1.
        Moves-bind 0 0 (read_uint 4) _ buf pos1 (uint_0 4 pos1 (omega arith) to1)
          λ ty pos2 from2 to2.
            Moves-bind 0 0 (read_value fuel ty) (λ v. pure (insert meta key v)) buf pos2
              (read_value-Moves buf fits fuel ty pos2 (omega arith) to2)
              λ v pos3 from3 to3. Moves-pure (insert meta key v) buf pos3 to3

  block_layout_ne : (ty : ℕ) → block_layout ty ≢ stuck
  unfolding block_layout
  block_layout_ne ty h = ground arith

  tensor_bytes-Moves :
      (nelems : ℕ) (layout : ℕ × ℕ) (pos : ℕ)
      → pos ≤ length buf
      → Moves 0 buf pos (tensor_bytes nelems layout buf pos)
  unfolding tensor_bytes
  tensor_bytes-Moves nelems (be, bb) pos h = elim (Bool-cases (nelems % be == 0)) [
    | inl e ↦ rw e (omega arith, h)
    | inr e ↦ rw e tt
  ]

  read_tensor-Moves :
      (tensors : List (Text × TensorInfo)) (pos : ℕ)
      → pos ≤ length buf
      → Moves 0 buf pos (read_tensor tensors buf pos)
  unfolding read_tensor
  read_tensor-Moves tensors pos h =
      Moves-bind 0 0 read_string _ buf pos (read_string-Moves buf fits pos h) λ name pos1 from1 to1.
        Moves-bind 0 0 (read_uint 4) _ buf pos1 (uint_0 4 pos1 (omega arith) to1)
          λ n_dims pos2 from2 to2.
            Moves-bind 0 0 (loop n_dims (λ dims. read_uint 8 >>= λ d. pure (dims ++ d ∷ [])) []) _
              buf pos2
              (loop-Moves buf fits n_dims _ [] pos2
                (λ dims pos' from to.
                  Moves-bind 0 0 (read_uint 8) (λ d. pure (dims ++ d ∷ [])) buf pos'
                    (uint_0 8 pos' (omega arith) to)
                    (λ d end from' to'. Moves-pure (dims ++ d ∷ []) buf end to'))
                to2)
              λ dims pos3 from3 to3.
                Moves-bind 0 0 (read_uint 4) _ buf pos3 (uint_0 4 pos3 (omega arith) to3)
                  λ ty pos4 from4 to4.
                    Moves-bind 0 0 (read_uint 8) _ buf pos4 (uint_0 8 pos4 (omega arith) to4)
                      λ offset pos5 from5 to5.
                        Moves-bind 0 0 (lift (block_layout ty)) _ buf pos5
                          (lift-Moves (block_layout ty) pos5 (block_layout_ne ty) to5)
                          λ layout pos6 from6 to6.
                            Moves-bind 0 0 (tensor_bytes (product dims) layout) _ buf pos6
                              (tensor_bytes-Moves (product dims) layout pos6 to6)
                              λ nbytes pos7 from7 to7. (omega arith, to7)

  check_magic-Moves :
      (magic : Bytes) (pos : ℕ) → pos ≤ length buf → Moves 0 buf pos (check_magic magic buf pos)
  unfolding check_magic
  check_magic-Moves magic pos h = elim (Bool-cases (text_eq magic (codes "GGUF"))) [
    | inl e ↦ rw e (omega arith, h)
    | inr e ↦ rw e tt
  ]

  check_version-Moves :
      (version : ℕ) (pos : ℕ) → pos ≤ length buf → Moves 0 buf pos (check_version version buf pos)
  unfolding check_version
  check_version-Moves version pos h = elim (Bool-cases (leb 2 version && leb version 3)) [
    | inl e ↦ rw e (omega arith, h)
    | inr e ↦ rw e tt
  ]

  -- The magic, the version and two counts are 24 bytes.
  pub read_file-Moves : Moves 24 buf 0 (read_file (length buf) buf 0)
  unfolding read_file
  read_file-Moves =
      Moves-bind 4 20 (take_bytes 4) _ buf 0
        (take_bytes-Moves 4 4 buf 0 (omega arith) (omega arith) (inr refl))
        λ magic pos1 from1 to1.
          Moves-bind 0 20 (check_magic magic) _ buf pos1 (check_magic-Moves magic pos1 to1)
            λ _ pos2 from2 to2.
              Moves-bind 4 16 (read_uint 4) _ buf pos2
                (read_uint-Moves buf fits 4 pos2 (omega arith) to2)
                λ version pos3 from3 to3.
                  Moves-bind 0 16 (check_version version) _ buf pos3
                    (check_version-Moves version pos3 to3)
                    λ _ pos4 from4 to4.
                      Moves-bind 8 8 (read_uint 8) _ buf pos4
                        (read_uint-Moves buf fits 8 pos4 (omega arith) to4)
                        λ n_tensors pos5 from5 to5.
                          Moves-bind 8 0 (read_uint 8) _ buf pos5
                            (read_uint-Moves buf fits 8 pos5 (omega arith) to5)
                            λ n_kv pos6 from6 to6.
                              Moves-bind 0 0 (loop n_kv (read_entry (length buf)) []) _ buf pos6
                                (loop-Moves buf fits n_kv (read_entry (length buf)) [] pos6
                                  (λ meta pos' from to.
                                    read_entry-Moves (length buf) meta pos' (omega arith) to)
                                  to6)
                                λ meta pos7 from7 to7.
                                  Moves-bind 0 0 (loop n_tensors read_tensor []) _ buf pos7
                                    (loop-Moves buf fits n_tensors read_tensor [] pos7
                                      (λ tensors pos' from to. read_tensor-Moves tensors pos' to)
                                      to7)
                                    λ tensors pos8 from8 to8. (omega arith, to8)
