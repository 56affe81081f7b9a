-- ===== src/Path.antt =====
-- crates/nxfr-core/src/path.rs: the path sanitizer and the path jail. A path is the list of its UTF-8
-- bytes: every test of the source is on ASCII characters, which are single bytes in UTF-8.
pub mod Sanitizer
pub mod Accepted
pub mod Safe
pub mod Drive
pub mod Jail
pub mod Confined
