-- ===== src/Transport.antt =====
-- crates/nxfr-transport/src/framing.rs: frames cut out of a byte stream. The decoder's buffer is the
-- state; an error is the header's error, which the source wraps in an `io::Error`.
pub mod Codec
pub mod Frames
pub mod Stream
pub mod Payloads
