-- ===== src/Graph.antt =====
-- The commit graph of a push: crates/git/core/src/commit_meta.rs and crates/git/graph.
pub mod TopoOrder
pub mod Ancestry
mod Examples
