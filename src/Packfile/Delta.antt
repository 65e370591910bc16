-- ===== src/Packfile/Delta.antt =====
-- crates/git/packfile/src/delta: the delta instructions, both ways.
pub mod Apply
pub mod Encode
pub mod RoundTrip
use enroute.Prelude.{ℕ}

-- The longest run of one copy instruction, and of one insert instruction (delta/mod.rs).
abbrev pub max_copy : ℕ
max_copy = 0x00ff_ffff

abbrev pub max_insert : ℕ
max_insert = 0x7f
