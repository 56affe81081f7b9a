-- ===== src/Payload.antt =====
-- crates/nxfr-core/src/chunk.rs and keepalive.rs: the payloads of CHUNK and KEEPALIVE frames.
pub mod Chunk
pub mod Keepalive
