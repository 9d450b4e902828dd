-- ===== src/Q4/Repacked.antt =====
-- A repacked row has the blocks of the row.
use free_token_rs.Prelude.{
  ℕ, zero, suc, ◌+◌, ◌*◌, ◌/◌, ◌≤◌, ◌<◌, ◌≡◌, refl, sym, ap, subst, ◌∙◌, inl, inr, ◌⊎◌, some, List,
  arith, ◌>>=◌, length, replicate, length-replicate, Option,
}
use free_token_rs.Q4.{
  row_bytes, window, overwrite, put, q4r_scales_bytes, q4r_row_bytes, Block, q4_block, q4r_block,
  repack_from, repack_row_q4r,
}
use free_token_rs.Q4.Windows.{
  window_total, length-overwrite, window-overwrite, window-overwrite_other,
}

put_total :
    (dst : List ℕ) (at : ℕ) (new : List ℕ)
    → at + length new ≤ length dst
    → put dst at new ≡ some (overwrite dst at new)
unfolding put
put_total dst at new h = ground arith

-- The block of a row whose nibbles begin at `off`.
abbrev read : List ℕ → ℕ → ℕ → Option Block
read row off c = window row (c * 2) 2 >>= λ d. window row (off + c * 16) 16 >>= λ qs. some (d, qs)

-- Neither scales nor nibbles of the blocks `b` up to `b + n` are in a window.
abbrev Avoids : ℕ → ℕ → ℕ → ℕ → ℕ → Type 0
Avoids off b n from m = (from + m ≤ b * 2) ⊎ (((b + n) * 2 ≤ from) × (from + m ≤ off + b * 16))

pub q4_block_total :
    (src : List ℕ) (b : ℕ)
    → (b + 1) * 18 ≤ length src
    → (d : List ℕ) × (qs : List ℕ) × (q4_block src b ≡ some (d, qs))
      × (length d ≡ 2)
      × (length qs ≡ 16)
unfolding q4_block
q4_block_total src b h =
    let (d, is_d, len_d) = window_total src (b * 18) 2 (omega arith) in
    let (qs, is_qs, len_qs) = window_total src (b * 18 + 2) 16 (omega arith) in
    (d, qs, rw (is_d, is_qs) refl, len_d, len_qs)

-- The two writes of a block, read again.
written :
    (dst d qs : List ℕ) (off b : ℕ)
    → length d ≡ 2
    → length qs ≡ 16
    → (b + 1) * 2 ≤ off
    → off + (b + 1) * 16 ≤ length dst
    → read (overwrite (overwrite dst (b * 2) d) (off + b * 16) qs) off b ≡ some (d, qs)
written dst d qs off b two sixteen low high =
    let one = overwrite dst (b * 2) d in
    let len = length-overwrite dst (b * 2) d in
    let scale : window (overwrite one (off + b * 16) qs) (b * 2) 2 ≡ some d =
      window-overwrite_other one (off + b * 16) qs (b * 2) 2 (inl (omega arith))
      ∙ ap (window one (b * 2)) (sym two)
      ∙ window-overwrite dst (b * 2) d (omega arith) in
    let nibbles : window (overwrite one (off + b * 16) qs) (off + b * 16) 16 ≡ some qs =
      ap (window (overwrite one (off + b * 16) qs) (off + b * 16)) (sym sixteen)
      ∙ window-overwrite one (off + b * 16) qs (omega arith) in
    rw (scale, nibbles) refl

-- What the loop leaves: the other windows, and the blocks of the source.
module _ (off b n from m : ℕ) where
  Avoids-later : Avoids off b (suc n) from m → Avoids off (b + 1) n from m
  Avoids-later (inl before) = inl (omega arith)
  Avoids-later (inr (above, below)) = inr (omega arith, omega arith)

  Avoids-nibbles :
      (b + suc n) * 2 ≤ off
      → Avoids off b (suc n) from m
      → (from + m ≤ off + b * 16) ⊎ (off + b * 16 + 16 ≤ from)
  Avoids-nibbles low (inl before) = inl (omega arith)
  Avoids-nibbles low (inr (above, below)) = inl below

  Avoids-scale : Avoids off b (suc n) from m → (from + m ≤ b * 2) ⊎ (b * 2 + 2 ≤ from)
  Avoids-scale (inl before) = inl before
  Avoids-scale (inr (above, below)) = inr (omega arith)

record Repacked (src dst dst' : List ℕ) (off b n : ℕ) : Type 0 where
  same_length : length dst' ≡ length dst
  kept : (from m : ℕ) → Avoids off b n from m → window dst' from m ≡ window dst from m
  blocks : (c : ℕ) → b ≤ c → c < b + n → read dst' off c ≡ q4_block src c

first_or_later : (b c : ℕ) → b ≤ c → (b ≡ c) ⊎ (b + 1 ≤ c)
first_or_later b c ge = omega arith

repack_from-Repacked :
    (src dst : List ℕ) (off b n : ℕ)
    → (b + n) * 18 ≤ length src
    → (b + n) * 2 ≤ off
    → off + (b + n) * 16 ≤ length dst
    → (dst' : List ℕ) × (repack_from src off n b dst ≡ some dst') × Repacked src dst dst' off b n
unfolding repack_from
repack_from-Repacked src dst off b zero h low high = (
  dst,
  refl,
  record { same_length = refl; kept = λ from m a. refl; blocks = λ c ge lt. absurd (omega arith) },
)
repack_from-Repacked src dst off b (suc n) h low high =
    let (d, qs, is, two, sixteen) = q4_block_total src b (omega arith) in
    let one = overwrite dst (b * 2) d in
    let both = overwrite one (off + b * 16) qs in
    let len_one = length-overwrite dst (b * 2) d in
    let len_both = length-overwrite one (off + b * 16) qs in
    let (dst', ran, later) =
      repack_from-Repacked src both off (b + 1) n (omega arith) (omega arith) (omega arith) in
    (
      dst',
      rw (is, put_total dst (b * 2) d (omega arith), put_total one (off + b * 16) qs (omega arith))
          ran,
      record {
        same_length = omega (arith, later.same_length);
        kept = λ from m a.
            later.kept from m (Avoids-later off b n from m a)
            ∙ window-overwrite_other one (off + b * 16) qs from m (
                subst (λ l. (from + m ≤ off + b * 16) ⊎ (off + b * 16 + l ≤ from)) (sym sixteen)
                  (Avoids-nibbles off b n from m low a))
            ∙ window-overwrite_other dst (b * 2) d from m (
                subst (λ l. (from + m ≤ b * 2) ⊎ (b * 2 + l ≤ from)) (sym two)
                  (Avoids-scale off b n from m a));
        blocks = λ c ge lt. elim (first_or_later b c ge) [
          | inr above ↦ later.blocks c above (omega arith)
          | inl same ↦
              subst (λ x. read dst' off x ≡ q4_block src x) same
                (rw
                    (
                      later.kept (b * 2) 2 (inl (omega arith)),
                      later.kept (off + b * 16) 16 (inr (omega arith, omega arith)),
                    )
                    (written dst d qs off b two sixteen (omega arith) (omega arith))
                  ∙ sym is)
        ];
      },
    )

pub row_bytes_lem : (k rb : ℕ) → row_bytes k ≡ some rb → rb ≡ k / 32 * 18
unfolding row_bytes
row_bytes_lem k rb h = ground (arith, h)

-- A row that `repack_row_q4r` takes, and its blocks in the repacked row.
pub repack_row-blocks :
    (src : List ℕ) (k rb : ℕ)
    → row_bytes k ≡ some rb
    → length src ≡ rb
    → (dst : List ℕ) × (repack_row_q4r src (replicate (q4r_row_bytes k) 0) k ≡ some dst)
      × (length dst ≡ q4r_row_bytes k)
      × ((b : ℕ) → b < k / 32 → q4r_block dst k b ≡ q4_block src b)
unfolding repack_row_q4r q4r_row_bytes q4r_scales_bytes q4r_block
repack_row-blocks src k rb h len =
    let bytes = row_bytes_lem k rb h in
    let zeros : length (replicate {A = ℕ} (q4r_row_bytes k) 0) ≡ q4r_row_bytes k =
      length-replicate (q4r_row_bytes k) 0 in
    let room : q4r_scales_bytes k + (0 + k / 32) * 16 ≤ q4r_row_bytes k = omega arith in
    let (dst, ran, repacked) =
      repack_from-Repacked src (replicate (q4r_row_bytes k) 0) (q4r_scales_bytes k) 0 (k / 32)
        (omega arith) (omega arith)
        (subst (λ l. q4r_scales_bytes k + (0 + k / 32) * 16 ≤ l) (sym zeros) room) in
    (
      dst,
      ground (arith, h, len, zeros, ran),
      repacked.same_length ∙ zeros,
      λ b lt. repacked.blocks b (omega arith) (omega (arith, lt)),
    )
