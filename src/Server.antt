-- ===== src/Server.antt =====
-- ft-model/src/bin/serve.rs: the HTTP server in front of the decode worker.
pub mod Relay
pub mod Response
pub mod Sse
pub mod Numerals
pub mod Endpoint
pub mod Gate
mod Tests
