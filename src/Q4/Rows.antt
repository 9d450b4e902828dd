-- ===== src/Q4/Rows.antt =====
-- The product with a repacked matrix is the product with the matrix.
use free_token_rs.Prelude.{
  ℕ, zero, suc, ◌+◌, ◌*◌, ◌/◌, ◌≤◌, ◌<◌, ◌≡◌, refl, sym, ap, ◌∙◌, inl, inr, Bool, true, false,
  Option, some, List, [], ◌∷◌, ◌++◌, arith, ◌>>=◌, ◌==◌, length, length-append, append_assoc,
  replicate, Option-cases, Bool-cases, ◌%◌, if◌then◌else◌,
}
use free_token_rs.Q4.{
  row_bytes, window, q4r_row_bytes, Block, q4_block, q4r_block, repack_rows, repack_q4r,
}
use free_token_rs.Q4.Windows.{window_total, window-behind, window-front}
use free_token_rs.Q4.Repacked.{row_bytes_lem, repack_row-blocks}
use free_token_rs.Q4.Total.{dot_total, rows_from_total}
use free_token_rs.Q4.Gemv.{
  Floats, Q8Vec, dot_from, scalar_step, avx2_step, horizontal, dot_scalar, dot_avx2,
  dot_q4_q8_scalar, dot_q4_q8_avx2, dot_q4r_q8_scalar, dot_q4r_q8_avx2, rows_from, gemv_q8,
  gemv_q8_r,
}

dot_from-agree :
    {S : Type 0} (read read' : ℕ → Option Block) (step : ℕ → Block → S → Option S) (n b : ℕ)
    (acc : S)
    → ((c : ℕ) → b ≤ c → c < b + n → read c ≡ read' c)
    → dot_from read step n b acc ≡ dot_from read' step n b acc
unfolding dot_from
dot_from-agree read read' step zero b acc same = refl
dot_from-agree read read' step (suc n) b acc same = elim (Option-cases (read' b)) [
  | inl bad ↦ rw (same b (omega arith) (omega arith), bad) refl
  | inr (blk, is) ↦ elim (Option-cases (step b blk acc)) [
    | inl bad ↦ rw (same b (omega arith) (omega arith), is, bad) refl
    | inr (acc', stepped) ↦
        rw (same b (omega arith) (omega arith), is, stepped)
          (dot_from-agree read read' step n (b + 1) acc'
            (λ c ge lt. same c (omega arith) (omega arith)))
  ]
]

-- One row, behind others.
rows_from-row :
    {F : Type 0} (dot dot' : List ℕ → Option F) (w packed w' pre row : List ℕ) (rb rbr n r : ℕ)
    → window w (r * rb) rb ≡ some row
    → length packed ≡ rbr
    → length pre ≡ r * rbr
    → dot' packed ≡ dot row
    → rows_from dot' ((pre ++ packed) ++ w') rbr n (r + 1) ≡ rows_from dot w rb n (r + 1)
    → rows_from dot' (pre ++ (packed ++ w')) rbr (suc n) r ≡ rows_from dot w rb (suc n) r
unfolding rows_from
rows_from-row dot dot' w packed w' pre row rb rbr n r is len before product later =
    let front : window (pre ++ (packed ++ w')) (r * rbr) rbr ≡ some packed =
      ap (λ i. window (pre ++ (packed ++ w')) i rbr) (omega arith)
      ∙ window-behind pre (packed ++ w') 0 rbr
      ∙ ap (window (packed ++ w') 0) (sym len)
      ∙ window-front packed w' in
    rw (front, is, product)
      (ap (λ rest. dot row >>= λ y. rest >>= λ ys. some (y ∷ ys))
        (ap (λ l. rows_from dot' l rbr n (r + 1)) (sym (append_assoc pre packed w')) ∙ later))

-- The rows of the repacked matrix, behind others, give the same products, if each row does.
rows_from-repacked :
    {F : Type 0} (dot dot' : List ℕ → Option F) (w : List ℕ) (rb k n r : ℕ)
    → row_bytes k ≡ some rb
    → ((row dst : List ℕ)
        → length row ≡ rb
        → ((b : ℕ) → b < k / 32 → q4r_block dst k b ≡ q4_block row b)
        → dot' dst ≡ dot row)
    → (r + n) * rb ≤ length w
    → (w' : List ℕ) × (repack_rows w rb k n r ≡ some w')
      × (length w' ≡ n * q4r_row_bytes k)
      × ((pre : List ℕ)
          → length pre ≡ r * q4r_row_bytes k
          → rows_from dot' (pre ++ w') (q4r_row_bytes k) n r ≡ rows_from dot w rb n r)
unfolding repack_rows rows_from
rows_from-repacked dot dot' w rb k zero r bytes same h = ([], refl, omega arith, λ pre len. refl)
rows_from-repacked dot dot' w rb k (suc n) r bytes same h =
    let rbr = q4r_row_bytes k in
    let (row, is, row_len) = window_total w (r * rb) rb (omega arith) in
    let (packed, repacked, packed_len, blocks) = repack_row-blocks row k rb bytes row_len in
    let (w', ran, len, later) =
      rows_from-repacked dot dot' w rb k n (r + 1) bytes same (omega arith) in
    let product = same row packed row_len blocks in
    (
      packed ++ w',
      rw (is, repacked, ran) refl,
      length-append packed w' ∙ omega arith,
      λ pre before.
          rows_from-row dot dot' w packed w' pre row rb rbr n r is packed_len before product
            (later (pre ++ packed) (length-append pre packed ∙ omega (arith, before, packed_len))),
    )

row_bytes-blocks : (k rb : ℕ) → row_bytes k ≡ some rb → rb / 18 ≡ k / 32
row_bytes-blocks k rb h = let eq = row_bytes_lem k rb h in omega arith

-- A repacked row has the product of the row, with the scalar code and with the vector code.
dot-repacked :
    {F : Type 0} (fl : Floats F) (avx2 : Bool) (x8 : Q8Vec F) (k rb : ℕ) (row dst : List ℕ)
    → row_bytes k ≡ some rb
    → length row ≡ rb
    → ((b : ℕ) → b < k / 32 → q4r_block dst k b ≡ q4_block row b)
    → (if avx2 then dot_q4r_q8_avx2 fl dst x8 k else dot_q4r_q8_scalar fl dst x8 k)
      ≡ (if avx2 then dot_q4_q8_avx2 fl row x8 else dot_q4_q8_scalar fl row x8)
unfolding dot_q4r_q8_avx2 dot_q4r_q8_scalar dot_q4_q8_avx2 dot_q4_q8_scalar dot_avx2 dot_scalar
dot-repacked fl true x8 k rb row dst bytes len blocks =
    rw (len, row_bytes-blocks k rb bytes)
      (ap (λ r. r >>= λ lanes. some (horizontal fl lanes))
        (dot_from-agree (q4r_block dst k) (q4_block row) (avx2_step fl x8) (k / 32) 0
          (replicate 8 fl.zero_float) (λ c ge lt. blocks c (omega (arith, lt)))))
dot-repacked fl false x8 k rb row dst bytes len blocks =
    rw (len, row_bytes-blocks k rb bytes)
      (dot_from-agree (q4r_block dst k) (q4_block row) (scalar_step fl x8) (k / 32) 0 fl.zero_float
        (λ c ge lt. blocks c (omega (arith, lt))))

eq_test : (a b : ℕ) → a ≡ b → (a == b) ≡ true
eq_test a b e = ground arith

row_bytes-positive : (k rb : ℕ) → row_bytes k ≡ some rb → 0 < k → (q4r_row_bytes k == 0) ≡ false
unfolding row_bytes q4r_row_bytes
row_bytes-positive k rb h more = elim (Bool-cases (k % 32 == 0)) [
  | inl whole ↦
      let blocks : k % 32 ≡ 0 = ground (arith, whole) in
      let least : 1 ≤ k / 32 = omega arith in ground (arith, least)
  | inr part ↦ absurd (ground (arith, h, part))
]

repack_q4r-rows :
    (src w' : List ℕ) (n k rb : ℕ)
    → row_bytes k ≡ some rb
    → 0 < k
    → length src ≡ n * rb
    → repack_rows src rb k n 0 ≡ some w'
    → repack_q4r src n k ≡ some w'
unfolding repack_q4r
repack_q4r-rows src w' n k rb bytes more len ran =
    rw (bytes, repack_q4r, eq_test (length src) (n * rb) len, row_bytes-positive k rb bytes more)
      ran

-- A matrix of `n` rows that fill whole blocks is repacked without a panic. Its product with a vector
-- that has a scale for each block, of the rows' length, has `n` numbers, and the product with the
-- repacked matrix has the same: with the scalar code and with the vector code.
pub gemv-repacked :
    {F : Type 0} (fl : Floats F) (avx2 : Bool) (w : List ℕ) (x8 : Q8Vec F) (n rb : ℕ)
    → row_bytes (length x8.qs) ≡ some rb
    → 0 < length x8.qs
    → length x8.qs / 32 ≤ length x8.d
    → length w ≡ n * rb
    → (w' : List ℕ) × (ys : List F) × (repack_q4r w n (length x8.qs) ≡ some w')
      × (gemv_q8 fl avx2 w x8 n ≡ some ys)
      × (gemv_q8_r fl avx2 w' x8 n ≡ some ys)
      × (length ys ≡ n)
unfolding gemv_q8 gemv_q8_r
gemv-repacked {F} fl avx2 w x8 n rb bytes some_k scales len =
    let k = length x8.qs in
    let dot : List ℕ → Option F =
      λ row. if avx2 then dot_q4_q8_avx2 fl row x8 else dot_q4_q8_scalar fl row x8 in
    let (w', ran, len', same) =
      rows_from-repacked dot
        (λ row. if avx2 then dot_q4r_q8_avx2 fl row x8 k else dot_q4r_q8_scalar fl row x8 k) w rb k
        n 0 bytes
        (λ row dst row_len blocks. dot-repacked fl avx2 x8 k rb row dst bytes row_len blocks)
        (omega arith) in
    let (ys, all, count) =
      rows_from_total dot w rb n 0
        (λ row row_len.
          dot_total fl x8 (k / 32) (scales, omega arith) avx2 row
            (row_len ∙ row_bytes_lem k rb bytes))
        (omega arith) in
    (
      w',
      ys,
      repack_q4r-rows w w' n k rb bytes some_k len ran,
      rw (bytes, gemv_q8, eq_test (length w) (rb * n) (omega arith)) all,
      rw (gemv_q8_r, eq_test (length w') (q4r_row_bytes k * n) (omega arith))
          (same [] (omega arith) ∙ all),
      count,
    )
