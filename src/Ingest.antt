-- ===== src/Ingest.antt =====
-- crates/git/ingest: what a push stores.
pub mod DeltaPlan
pub mod Chains
mod Examples
