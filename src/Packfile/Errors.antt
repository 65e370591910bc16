-- ===== src/Packfile/Errors.antt =====
-- The error type of crates/git/core/src/lib.rs, as the packfile code raises it. The text of an
-- `Error::Invalid` is a constructor here, with the values that the text prints.
use enroute.Prelude.{ℕ, List}

pub data Reason : Type 0 where
  varint_overflow varint_truncated : Reason
  truncated_after_base_size truncated_after_result_size : Reason
  base_size_mismatch : ℕ → ℕ → Reason
  result_too_large : ℕ → Reason
  copy_truncated copy_overflow copy_exceeds_base : Reason
  insert_overflow insert_truncated : Reason
  result_buffer_overflow zero_command fewer_bytes_than_promised : Reason
  inputs_too_large : ℕ → ℕ → Reason
  literal_out_of_bounds literal_tail_out_of_bounds : Reason
  insert_length copy_offset copy_size : Reason
  read_failed missing_pack_magic entry_size_overflow ofs_distance_overflow : Reason
  unsupported_version unknown_entry_type : ℕ → Reason
  unexpected_eof zlib trailer_failed checksum_mismatch : Reason
  size_mismatch : ℕ → ℕ → Reason

pub data Error : Type 0 where
  internal : Error
  invalid : Reason → Error
  missing : List ℕ → Error
  -- No Rust value: a loop of the model ran out of fuel. The theorems say that none does.
  out_of_fuel : Error
