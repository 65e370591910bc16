-- ===== src/Packfile/Varint/Rejects.antt =====
-- What `read_varint` refuses, and what it accepts although it should not.
use enroute.Prelude.{
  ℕ, ◌+◌, ◌*◌, ◌%◌, ◌≤◌, ◌<◌, bit_and, bit_or, ◌≡◌, refl, ◌⊎◌, inl, inr, List, [], ◌∷◌, ◌++◌,
  append-nil, ok, err, arith, length, length-append, All,
}
use enroute.Prelude.Bits.{low_seven, top_bit}
use enroute.Packfile.Errors.{invalid, varint_overflow, varint_truncated}
use enroute.Packfile.Varint.{IsU64, shl64, read_loop, read_varint, write_varint}
use enroute.Packfile.Varint.Bounds.{read_varint_takes, read_loop-append, read_loop-append_overflow}
use enroute.Packfile.Varint.RoundTrip.{read-write}

pub read_loop_cases :
    (bytes : List ℕ) (value shift i : ℕ)
    → ((p : ℕ × ℕ) × (read_loop bytes value shift i ≡ ok p))
      ⊎ ((read_loop bytes value shift i ≡ err (invalid varint_truncated))
          ⊎ (read_loop bytes value shift i ≡ err (invalid varint_overflow)))
unfolding read_loop
read_loop_cases [] value shift i = inr (inl refl)
read_loop_cases (b ∷ bs) value shift i =
    ground
      (arith, read_loop_cases bs (bit_or value (shl64 (bit_and b 0x7f) shift)) (shift + 7) (i + 1))

-- Every proper prefix of what `write_varint` writes of a `u64` is refused as truncated.
pub read_truncated :
    (v x : ℕ) (front back : List ℕ)
    → IsU64 v
    → write_varint [] v ≡ front ++ (x ∷ back)
    → read_varint front ≡ err (invalid varint_truncated)
unfolding read_varint
read_truncated v x front back h e = elim (read_loop_cases front 0 0 0) [
  | inl ((u, n), r) ↦ ground (
    arith,
    whole,
    takes front u n r,
    read_loop-append front (x ∷ back) 0 0 0 u n r,
    length-append front (x ∷ back),
  )
  | inr (inl r) ↦ r
  | inr (inr r) ↦ cc (whole, read_loop-append_overflow front (x ∷ back) 0 0 0 r)
]
  where
    whole : read_varint (front ++ (x ∷ back)) ≡ ok (v, length (front ++ (x ∷ back)))
    whole = rw (append-nil, e) at (read-write v [] h)

    takes : (bytes : List ℕ) (v n : ℕ) → read_varint bytes ≡ ok (v, n) → n ≤ length bytes
    takes bytes v n e = (read_varint_takes bytes v n e).2

abbrev pub IsContinuation : ℕ → Type 0
IsContinuation b = (128 ≤ b) × (b < 256)

last_bit : (value b : ℕ) → shl64 (bit_and b 0x7f) 63 ≡ shl64 (bit_and (b % 2) 0x7f) 63
last_bit value b = rw (low_seven b, low_seven (b % 2)) (omega arith)

overrun_loop :
    (front rest : List ℕ) (b value shift i : ℕ)
    → All IsContinuation front
    → b < 128
    → shift + 7 * length front ≡ 63
    → (v : ℕ) × (read_loop (front ++ (b ∷ rest)) value shift i ≡ ok (v, i + length front + 1))
      × (read_loop (front ++ ((b % 2) ∷ rest)) value shift i ≡ ok (v, i + length front + 1))
unfolding read_loop
overrun_loop [] rest b value shift i hf hb hs = (
  bit_or value (shl64 (bit_and b 0x7f) 63),
  let s63 : shift ≡ 63 = omega arith in rw s63 (ground (arith, top_bit b)),
  let s63 : shift ≡ 63 = omega arith in
      rw (s63, last_bit value b) (ground (arith, top_bit (b % 2))),
)
overrun_loop (c ∷ cs) rest b value shift i (hc, hcs) hb hs =
    let (v, p, q) =
      overrun_loop cs rest b (bit_or value (shl64 (bit_and c 0x7f) shift)) (shift + 7) (i + 1) hcs
        hb (omega arith) in
    (v, ground (arith, top_bit c, p), ground (arith, top_bit c, q))

-- After nine continuation bytes, the tenth byte's bits above the lowest are dropped with no error:
-- an input whose value overruns 64 bits is accepted, with the value of the input without them.
pub read_overrun :
    (front rest : List ℕ) (b : ℕ)
    → All IsContinuation front
    → length front ≡ 9
    → b < 128
    → (v : ℕ) × (read_varint (front ++ (b ∷ rest)) ≡ ok (v, 10))
      × (read_varint (front ++ ((b % 2) ∷ rest)) ≡ ok (v, 10))
unfolding read_varint
read_overrun front rest b hf h9 hb =
    let (v, p, q) = overrun_loop front rest b 0 0 0 hf hb (omega arith) in
    (v, ground (arith, p), ground (arith, q))
