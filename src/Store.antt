-- ===== src/Store.antt =====
-- crates/git/store: the object store's formats.
pub mod CommitPack
mod Examples
