-- ===== src/Packfile/Delta/Apply.antt =====
-- crates/git/packfile/src/delta/apply.rs. The index into `delta` is the list of the bytes from it
-- on; a slice is shorter than 2 ^ 63, so the sums of such an index and a count do not overflow.
pub mod Total
use enroute.Prelude.{
  ℕ, zero, suc, ◌+◌, ◌-◌, ◌*◌, ◌%◌, ◌^◌, bit_and, bit_or, List, [], ◌∷◌, ◌++◌, leb, ltb, ◌==◌,
  length, drop, get_from, get_upto, get_range, if◌then◌else◌, Result, ok, err, ◌>>=◌, ◌>>◌, guard,
  ok_or,
}
use enroute.Packfile.Errors
use enroute.Packfile.Errors.{Error, invalid, out_of_fuel}
use enroute.Packfile.Format.{max_object_bytes}
use enroute.Packfile.Varint.{read_varint}

-- `result` up to what is written, and the length of the slice `out` behind that.
pub record Out : Type 0 where
  pub written : List ℕ
  pub room : ℕ

-- What `write_all` does where the slice has room.
abbrev pub wrote : List ℕ → Out → Out
wrote src out = record { written = out.written ++ src; room = out.room - length src }

unfoldable pub write_all : List ℕ → Out → Result Error Out
write_all src out =
    if leb (length src) out.room
    then ok (wrote src out)
    else err (invalid Errors.result_buffer_overflow)

-- `u32::from(byte) << shift`
abbrev pub shl32 : ℕ → ℕ → ℕ
shl32 x shift = x * 2 ^ shift % 2 ^ 32

-- The macro `read_byte!`: the value so far, and the bytes that follow.
unfoldable pub read_byte : ℕ → ℕ → ℕ → ℕ → List ℕ → Result Error (ℕ × List ℕ)
read_byte cmd mask shift dst [] =
    if bit_and cmd mask == 0 then ok (dst, []) else err (invalid Errors.copy_truncated)
read_byte cmd mask shift dst (byte ∷ rest) =
    if bit_and cmd mask == 0
    then ok (dst, byte ∷ rest)
    else ok (bit_or dst (shl32 byte shift), rest)

unfoldable pub read_offset : ℕ → List ℕ → Result Error (ℕ × List ℕ)
read_offset cmd rest = do
  (ofs, rest) ← read_byte cmd 0x01 0 0 rest
  (ofs, rest) ← read_byte cmd 0x02 8 ofs rest
  (ofs, rest) ← read_byte cmd 0x04 16 ofs rest
  read_byte cmd 0x08 24 ofs rest

unfoldable pub read_size : ℕ → List ℕ → Result Error (ℕ × List ℕ)
read_size cmd rest = do
  (sz, rest) ← read_byte cmd 0x10 0 0 rest
  (sz, rest) ← read_byte cmd 0x20 8 sz rest
  (sz, rest) ← read_byte cmd 0x40 16 sz rest
  ok (if sz == 0 then 0x10000 else sz, rest)

unfoldable pub copy_step : List ℕ → ℕ → List ℕ → Out → Result Error (List ℕ × Out)
copy_step base cmd rest out = do
  (ofs, rest) ← read_offset cmd rest
  (sz, rest) ← read_size cmd rest
  guard (ltb (ofs + sz) (2 ^ 64)) (invalid Errors.copy_overflow)
  src ← ok_or (get_range base ofs (ofs + sz)) (invalid Errors.copy_exceeds_base)
  out ← write_all src out
  ok (rest, out)

unfoldable pub insert_step : ℕ → List ℕ → Out → Result Error (List ℕ × Out)
insert_step count rest out = do
  src ← ok_or (get_upto rest count) (invalid Errors.insert_truncated)
  out ← write_all src out
  ok (drop count rest, out)

-- The body of the loop, behind the command byte.
unfoldable pub step : List ℕ → ℕ → List ℕ → Out → Result Error (List ℕ × Out)
step base cmd rest out =
    if bit_and cmd 0x80 == 0
    then (if cmd == 0 then err (invalid Errors.zero_command) else insert_step cmd rest out)
    else copy_step base cmd rest out

-- `while let Some(&cmd) = delta.get(i)`: each round takes the command byte at least.
unfoldable pub apply_loop : ℕ → List ℕ → List ℕ → Out → Result Error Out
apply_loop fuel base [] out = ok out
apply_loop zero base (cmd ∷ rest) out = err out_of_fuel
apply_loop (suc fuel) base (cmd ∷ rest) out = do
  (rest, out) ← step base cmd rest out
  apply_loop fuel base rest out

-- The loop, with fuel that is enough.
unfoldable pub run : List ℕ → List ℕ → Out → Result Error Out
run base delta out = apply_loop (length delta) base delta out

unfoldable pub apply_delta : List ℕ → List ℕ → Result Error (List ℕ)
apply_delta base delta = do
  (base_size, n) ← read_varint delta
  delta ← ok_or (get_from delta n) (invalid Errors.truncated_after_base_size)
  guard (base_size == length base) (invalid (Errors.base_size_mismatch base_size (length base)))
  (result_size, n) ← read_varint delta
  delta ← ok_or (get_from delta n) (invalid Errors.truncated_after_result_size)
  guard (leb result_size max_object_bytes) (invalid (Errors.result_too_large result_size))
  out ← run base delta (record { written = []; room = result_size })
  guard (out.room == 0) (invalid Errors.fewer_bytes_than_promised)
  ok out.written
