-- ===== src/Packfile/Overruns.antt =====
-- The variable-length numbers of an entry's header that do not fit 64 bits.
use enroute.Prelude.{
  ℕ, zero, suc, ◌+◌, ◌*◌, ◌%◌, ◌^◌, ◌≤◌, ◌<◌, ◌≡◌, ◌≢◌, bit_and, List, [], ◌∷◌, lt→ltb, eq→==,
  ne→==, ok, arith,
}
use enroute.Prelude.Bits.{low_seven, top_bit}
use enroute.Packfile.Reader.{PackReader, ◌>>=◌, some_or, advanced, distance_loop}
use enroute.Packfile.Headers.{read_u8_lem}

distance_end :
    (fuel cur distance : ℕ) (r : PackReader)
    → bit_and cur 0x80 ≡ 0
    → distance_loop fuel cur distance r ≡ ok (distance, r)
unfolding distance_loop
distance_end zero cur distance r e = rw (eq→== (bit_and cur 0x80) 0 e)
distance_end (suc fuel) cur distance r e = rw (eq→== (bit_and cur 0x80) 0 e)

distance_last :
    (fuel cur distance byte : ℕ) (r : PackReader) (rest : List ℕ)
    → bit_and cur 0x80 ≢ 0
    → r.inner ≡ byte ∷ rest
    → byte < 128
    → distance + 1 < 2 ^ 64
    → distance_loop (suc fuel) cur distance r
      ≡ ok ((distance + 1) * 2 ^ 7 % 2 ^ 64 + byte, advanced (byte ∷ []) rest r)
unfolding distance_loop ◌>>=◌ some_or
distance_last fuel cur distance byte r rest more e hb hd =
    let low : bit_and byte 0x7f ≡ byte = omega (arith, low_seven byte) in
    rw
      (
        ne→== (bit_and cur 0x80) 0 more,
        read_u8_lem r byte rest e,
        lt→ltb (distance + 1) (2 ^ 64) hd,
        low,
        lt→ltb ((distance + 1) * 2 ^ 7 % 2 ^ 64 + byte) (2 ^ 64) (omega arith),
      )
      (distance_end fuel byte _ _ (omega (arith, top_bit byte)))

-- Where the distance so far is below 2 ^ 64 - 1 and the last byte makes one that does not fit 64 bits,
-- the loop reports no overflow: it returns the distance modulo 2 ^ 64.
pub distance_overrun :
    (fuel cur distance byte : ℕ) (r : PackReader) (rest : List ℕ)
    → bit_and cur 0x80 ≢ 0
    → r.inner ≡ byte ∷ rest
    → byte < 128
    → distance + 1 < 2 ^ 64
    → 2 ^ 64 ≤ (distance + 1) * 128 + byte
    → (d : ℕ) × (distance_loop (suc fuel) cur distance r ≡ ok (d, advanced (byte ∷ []) rest r))
      × (d < 2 ^ 64)
      × (((distance + 1) * 128 + byte) % 2 ^ 64 ≡ d)
distance_overrun fuel cur distance byte r rest more e hb hd over = (
  (distance + 1) * 2 ^ 7 % 2 ^ 64 + byte,
  distance_last fuel cur distance byte r rest more e hb hd,
  omega arith,
  omega arith,
)
