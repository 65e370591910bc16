-- ===== src/Metadata.antt =====
-- The engine's rows: repositories, their refs, their numbered objects and their pack images.
pub mod Rows
pub mod Refs
pub mod Objects
pub mod Segments
pub mod Repos
mod Examples
