-- ===== src/Lattice.antt =====
-- crates/lattice/core: segments over a dense key space, their framing, and what compaction merges.
pub mod Key
pub mod Frame
pub mod Plan
mod Examples
pub mod Tail
