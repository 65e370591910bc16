-- ===== src/Packfile/Varint/Bounds.antt =====
-- `read_varint` on any input.
use enroute.Prelude.{
  ℕ, suc, ◌+◌, ◌*◌, ◌≤◌, bit_and, bit_or, ◌≡◌, refl, List, [], ◌∷◌, ◌++◌, ok, err, arith, length,
}
use enroute.Prelude.Bits.{bit_or-lt}
use enroute.Packfile.Errors.{invalid, varint_overflow}
use enroute.Packfile.Varint.{IsU64, shl64, read_loop, read_varint}

grows :
    (value byte shift : ℕ) → IsU64 value → IsU64 (bit_or value (shl64 (bit_and byte 0x7f) shift))
grows value byte shift h = bit_or-lt 64 value _ h (omega arith)

read_loop_takes :
    (bytes : List ℕ) (value shift i v n : ℕ)
    → IsU64 value
    → shift ≡ 7 * i
    → read_loop bytes value shift i ≡ ok (v, n)
    → IsU64 v × (suc i ≤ n) × (n ≤ i + length bytes) × (n ≤ 10)
unfolding read_loop
read_loop_takes [] value shift i v n hv hs e = cc
read_loop_takes (b ∷ bs) value shift i v n hv hs e = ground (
  arith,
  grows value b shift,
  read_loop_takes bs (bit_or value (shl64 (bit_and b 0x7f) shift)) (shift + 7) (i + 1) v n,
)

-- A value that `read_varint` accepts fits 64 bits, and took between one and ten bytes, all of them
-- bytes of the input.
pub read_varint_takes :
    (bytes : List ℕ) (v n : ℕ)
    → read_varint bytes ≡ ok (v, n)
    → IsU64 v × (1 ≤ n) × (n ≤ length bytes) × (n ≤ 10)
unfolding read_varint
read_varint_takes bytes v n e = omega (arith, read_loop_takes bytes 0 0 0 v n (omega arith) refl e)

-- Reading does not look past the value: more bytes behind the input change nothing.
pub read_loop-append :
    (bytes more : List ℕ) (value shift i v n : ℕ)
    → read_loop bytes value shift i ≡ ok (v, n)
    → read_loop (bytes ++ more) value shift i ≡ ok (v, n)
unfolding read_loop
read_loop-append [] more value shift i v n e = cc
read_loop-append (b ∷ bs) more value shift i v n e = ground (
  arith,
  read_loop-append bs more (bit_or value (shl64 (bit_and b 0x7f) shift)) (shift + 7) (i + 1) v n,
)

pub read_loop-append_overflow :
    (bytes more : List ℕ) (value shift i : ℕ)
    → read_loop bytes value shift i ≡ err (invalid varint_overflow)
    → read_loop (bytes ++ more) value shift i ≡ err (invalid varint_overflow)
unfolding read_loop
read_loop-append_overflow [] more value shift i e = cc
read_loop-append_overflow (b ∷ bs) more value shift i e = ground (
  arith,
  read_loop-append_overflow bs more (bit_or value (shl64 (bit_and b 0x7f) shift)) (shift + 7)
      (i + 1),
)
