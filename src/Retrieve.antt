-- ===== src/Retrieve.antt =====
-- crates/git/retrieve: what reads a repository's packs, and gathers them.
pub mod Coalesce
mod Examples
