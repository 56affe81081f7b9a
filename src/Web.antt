-- ===== src/Web.antt =====
-- crates/nxfr-web/src/lib.rs: the web server through which a browser up- and downloads files. `Range`
-- reads the Range header, `Chunked` and `Zip` build what a download consists of, `Filename` cleans names,
-- `Gate` decides who is let in, `Upload` finds the end of an uploaded file.
pub mod Range
pub mod Served
pub mod Chunked
pub mod Dechunked
pub mod Upload
pub mod Search
pub mod Boundary
pub mod Filename
pub mod Inbox
pub mod Gate
pub mod Granted
pub mod Blocked
