-- ===== src/Packfile/Varint.antt =====
-- crates/git/packfile/src/varint.rs: unsigned LEB128.
pub mod Bounds
pub mod RoundTrip
pub mod Rejects
use enroute.Prelude.{
  ℕ, zero, suc, ◌+◌, ◌*◌, ◌/◌, ◌%◌, ◌^◌, ◌<◌, bit_and, bit_or, List, [], ◌∷◌, ◌++◌, ltb, leb, ◌==◌,
  if◌then◌else◌, Result, ok, err,
}
use enroute.Packfile.Errors.{Error, invalid, varint_overflow, varint_truncated}

abbrev pub IsByte : ℕ → Type 0
IsByte b = b < 256

abbrev pub IsU64 : ℕ → Type 0
IsU64 v = v < 2 ^ 64

-- `u64::from(x) << shift` for a shift below 64: bits that leave at the top are lost.
abbrev pub shl64 : ℕ → ℕ → ℕ
shl64 x shift = x * 2 ^ shift % 2 ^ 64

-- The loop of `read_varint` over what `data.iter().enumerate()` has still to yield.
unfoldable pub read_loop : List ℕ → ℕ → ℕ → ℕ → Result Error (ℕ × ℕ)
read_loop [] value shift i = err (invalid varint_truncated)
read_loop (byte ∷ bytes) value shift i =
    let value' = bit_or value (shl64 (bit_and byte 0x7f) shift) in
    let more = read_loop bytes value' (shift + 7) (i + 1) in
    if leb 64 shift
    then err (invalid varint_overflow)
    else if bit_and byte 0x80 == 0
    then ok (value', i + 1)
    else more

unfoldable pub read_varint : List ℕ → Result Error (ℕ × ℕ)
unfolding read_loop
read_varint bytes = read_loop bytes 0 0 0

-- One push for each round; a `u64` has ten groups of seven bits at most.
unfoldable pub write_loop : ℕ → List ℕ → ℕ → List ℕ
write_loop zero out value = out
write_loop (suc fuel) out value =
    let byte = bit_and value 0x7f in
    let value' = value / 2 ^ 7 in
    let out' = out ++ ((if ltb 0 value' then bit_or byte 0x80 else byte) ∷ []) in
    let more = write_loop fuel out' value' in if value' == 0 then out' else more

unfoldable pub write_varint : List ℕ → ℕ → List ℕ
unfolding write_loop
write_varint out value = write_loop 10 out value
