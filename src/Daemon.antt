-- ===== src/Daemon.antt =====
-- crates/nxfr-daemon/src/handler.rs: what the daemon does with a connection that comes in. `Incoming`
-- receives the files of one transfer.
pub mod Progress
pub mod Incoming
pub mod Landed
pub mod Offers
pub mod World
pub mod Visit
pub mod Policy
pub mod Spared
pub mod Uninvited
pub mod Answers
