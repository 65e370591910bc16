-- ===== src/Packfile.antt =====
-- crates/git/packfile: the packfile format. Bytes are numbers below 256, a slice is a list.
pub mod Errors
pub mod Format
pub mod Varint
pub mod Delta
pub mod Reader
pub mod Writer
pub mod Headers
pub mod Overruns
mod Examples
