-- ===== src/Lattice/Frame/RoundTrip.antt =====
-- The header that is read is the header that was written, over bytes as long as it says.
use enroute.Prelude.{
  ℕ, suc, ◌+◌, ◌*◌, ◌^◌, ◌%◌, ◌/◌, ◌<◌, ◌≡◌, refl, ◌∙◌, List, [], ◌∷◌, ◌++◌, ltb, length, take,
  to_le_bytes, from_le_bytes, false, lt→ltb, eq→==, ok, arith, get_or,
}
use enroute.Prelude.Bytes.{bytes_eq, bytes_eq→eq}
use enroute.Lattice.Frame.{
  Layout, Header, header_bytes, version, expected_bytes, write_header, field64, counted,
  read_header,
}

-- `24 + n`, in a form that computes.
abbrev behind_header : ℕ → ℕ
behind_header n = suc (
    suc (
      suc (
        suc (
          suc (
            suc (
              suc (
                suc (
                  suc (
                    suc (
                      suc (
                        suc (
                          suc (
                            suc (
                              suc (
                                suc (suc (suc (suc (suc (suc (suc (suc (suc n)))))))))))))))))))))))

long_enough : (n : ℕ) → ltb (behind_header n) 24 ≡ false
long_enough n = ground arith

le4 :
    (n : ℕ)
    → n < 2 ^ 32
    → n % 256
        + 256
          * (n / 256 % 256 + 256 * (n / 256 / 256 % 256 + 256 * (n / 256 / 256 / 256 % 256 + 0)))
      ≡ n
le4 n h = omega arith

le8 :
    (n : ℕ)
    → n < 2 ^ 63
    → n % 256
        + 256
          * (n / 256 % 256
              + 256
                * (n / 256 / 256 % 256
                    + 256
                      * (n / 256 / 256 / 256 % 256
                          + 256
                            * (n / 256 / 256 / 256 / 256 % 256
                                + 256
                                  * (n / 256 / 256 / 256 / 256 / 256 % 256
                                      + 256
                                        * (n / 256 / 256 / 256 / 256 / 256 / 256 % 256
                                            + 256
                                              * (n / 256 / 256 / 256 / 256 / 256 / 256 / 256 % 256
                                                  + 0)))))))
      ≡ n
le8 n h = omega arith

-- A layout, by the four bytes of its magic.
abbrev pub layout_of : ℕ → ℕ → ℕ → ℕ → ℕ → ℕ → Layout
layout_of a b c d record_bytes unit = record {
  magic = a ∷ b ∷ c ∷ d ∷ [];
  record_bytes = record_bytes;
  unit = unit;
}

expected_lem :
    (records tail record_bytes unit n : ℕ) (layout : Layout)
    → layout.record_bytes ≡ record_bytes
    → layout.unit ≡ unit
    → n ≡ records * record_bytes + tail * unit
    → header_bytes + n < 2 ^ 64
    → expected_bytes records tail layout ≡ header_bytes + n
expected_lem records tail record_bytes unit n layout e f h small = rw (e, f) (omega arith)

-- What `write_header` wrote of counts below 2 ^ 32 and of a first key below 2 ^ 63 is read back, if
-- as many bytes follow as the counts say and the whole length fits a `usize`.
pub read_header-write_header :
    (a b c d record_bytes unit : ℕ) (header : Header) (body : List ℕ)
    → header.first < 2 ^ 63
    → header.records < 2 ^ 32
    → header.tail < 2 ^ 32
    → length body ≡ header.records * record_bytes + header.tail * unit
    → header_bytes + length body < 2 ^ 64
    → read_header
        (write_header header (layout_of a b c d record_bytes unit) [] ++ body)
        (layout_of a b c d record_bytes unit)
      ≡ ok header
unfolding read_header write_header field64 counted bytes_eq to_le_bytes from_le_bytes
read_header-write_header a b c d record_bytes unit header body hf hr ht hb small = rw (
  long_enough (length body),
  lt→ltb header.records (2 ^ 32) hr,
  lt→ltb header.tail (2 ^ 32) ht,
  eq→== a a refl,
  eq→== b b refl,
  eq→== c c refl,
  eq→== d d refl,
  le8 header.first hf,
  lt→ltb header.first (2 ^ 63) hf,
  le4 header.records hr,
  le4 header.tail ht,
  eq→== (expected_bytes header.records header.tail (layout_of a b c d record_bytes unit))
      (behind_header (length body))
      (expected_lem header.records header.tail record_bytes unit (length body)
          (layout_of a b c d record_bytes unit) refl refl hb small
        ∙ omega arith),
)

-- A header is accepted only over bytes that begin with the layout's magic and are exactly as long as
-- the counts say, and only with a first key below 2 ^ 63.
pub read_header_accepts :
    (bytes : List ℕ) (layout : Layout) (header : Header)
    → read_header bytes layout ≡ ok header
    → (take 4 (take header_bytes bytes) ≡ layout.magic)
      × (get_or (take header_bytes bytes) 4 0 ≡ version)
      × (header.first < 2 ^ 63)
      × (expected_bytes header.records header.tail layout ≡ length bytes)
unfolding read_header
read_header_accepts bytes layout header e =
    ground (arith, bytes_eq→eq (take 4 (take header_bytes bytes)) layout.magic)
