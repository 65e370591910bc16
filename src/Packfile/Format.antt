-- ===== src/Packfile/Format.antt =====
-- crates/git/packfile/src/format.rs: the limits of the format, and an entry's header.
use enroute.Prelude.{ℕ, ◌*◌, List}

-- 100 MiB
abbrev pub max_object_bytes : ℕ
max_object_bytes = 100 * 1024 * 1024

abbrev pub max_pack_objects : ℕ
max_pack_objects = 10_000_000

-- `gix_object::Kind`
pub data Kind : Type 0 where
  commit tree blob tag : Kind

pub data EntryHeader : Type 0 where
  full : Kind → EntryHeader
  -- the base's distance back, in bytes
  ofs_delta : ℕ → EntryHeader
  -- the base's object id, 20 bytes
  ref_delta : List ℕ → EntryHeader
