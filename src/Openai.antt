-- ===== src/Openai.antt =====
-- ft-model/src/openai.rs: the pieces of the serving path that need no GPU.
pub mod Request
pub mod Chat
pub mod Stop
pub mod Utf8
mod Tests
