-- ===== src/Gguf.antt =====
-- ft-gguf/src/lib.rs: the reader of GGUF files. A byte is a number below 256 and a `usize` has 64
-- bits; sums and products wrap, as in a release build. A result is a value, an error or a panic.
pub mod Outcome
pub mod Utf8
pub mod Value
pub mod Reader
pub mod File
pub mod Moves
mod Tests
