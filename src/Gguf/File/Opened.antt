-- ===== src/Gguf/File/Opened.antt =====
-- What `Gguf::open` makes of a list of bytes.
use free_token_rs.Prelude.{ℕ, ◌+◌, ◌*◌, ◌≤◌, ◌<◌, ◌≡◌, ◌≢◌, length, u64_mod}
use free_token_rs.Text.{Text}
use free_token_rs.Gguf.Outcome.{Outcome, ok, bail, panic, stuck, Bytes}
use free_token_rs.Gguf.Value.{Value}
use free_token_rs.Gguf.Moves.{Moves}
use free_token_rs.Gguf.File.{Gguf, alignment_of}

-- The first multiple of the alignment that is not before `pos`.
abbrev pub IsAligned : ℕ → ℕ → ℕ → Type 0
IsAligned pos alignment d = ((k : ℕ) × (d ≡ k * alignment)) × (pos ≤ d) × (d < pos + alignment)

-- The file is mapped as it is, and its data start at the first aligned position after the tables,
-- which end at `pos`.
pub record Loaded (buf : Bytes) (g : Gguf) : Type 0 where
  pub mapped : g.mmap ≡ buf
  pub pos : ℕ
  pub header : 24 ≤ pos
  pub inside : pos ≤ length buf
  pub not_zero : alignment_of g.meta ≢ 0
  pub aligned :
      pos + alignment_of g.meta ≤ u64_mod → IsAligned pos (alignment_of g.meta) g.data_start

abbrev pub Opened : Bytes → Outcome Gguf → Type 0
Opened buf (ok g) = Loaded buf g
Opened buf (bail e) = Unit
Opened buf panic = Unit
Opened buf stuck = ⊥
