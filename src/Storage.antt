-- ===== src/Storage.antt =====
-- crates/nxfr-storage: what the program keeps between its runs. `Devices` are the paired devices,
-- `Past` the history of transfers, `Journal` the state of transfers that can be resumed.
pub mod Devices
pub mod Keys
pub mod Memory
pub mod Past
pub mod Ordered
pub mod Newest
pub mod Journal
pub mod Files
pub mod Atomic
pub mod Resumed
