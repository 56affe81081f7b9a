-- ===== src/Common.antt =====
-- crates/nxfr-common: the limits, the error types, the platforms and the protocol versions.
pub mod Limits
pub mod Errors
pub mod Platform
