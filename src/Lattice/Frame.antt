-- ===== src/Lattice/Frame.antt =====
-- crates/lattice/core/src/frame.rs: the header of a segment. `usize` has 64 bits.
pub mod RoundTrip
pub mod Window
use enroute.Prelude.{
  ℕ, ◌+◌, ◌-◌, ◌*◌, ◌^◌, ◌≤◌, ◌<◌, min, max, Option, none, some, List, [], ◌∷◌, ◌++◌, ◌||◌, leb,
  ltb, ◌==◌, length, take, drop, get_range, get_or, to_le_bytes, from_le_bytes, if◌then◌else◌,
  Result, ok, err,
}
use enroute.Prelude.Bytes.{bytes_eq}
use enroute.Lattice.Key.{KeyRange}

abbrev pub header_bytes : ℕ
header_bytes = 24

abbrev pub version : ℕ
version = 1

pub record Layout : Type 0 where
  pub magic : List ℕ
  pub record_bytes : ℕ
  pub unit : ℕ

pub record Header : Type 0 where
  pub first : ℕ
  pub records : ℕ
  pub tail : ℕ

pub data Frame : Type 0 where
  short : ℕ → Frame
  magic : List ℕ → List ℕ → Frame
  unknown_version : ℕ → Frame
  truncated : ℕ → ℕ → Frame
  unnameable : ℕ → Frame

-- `saturating_add` and `saturating_mul` on `usize`
abbrev pub saturating_add : ℕ → ℕ → ℕ
saturating_add a b = min (a + b) (2 ^ 64 - 1)

abbrev pub saturating_mul : ℕ → ℕ → ℕ
saturating_mul a b = min (a * b) (2 ^ 64 - 1)

-- Which records fall inside a range, as a half-open window. The window of an empty header is nothing
-- because 0 - 1 is.
unfoldable pub slice_of : Header → KeyRange → Option (ℕ × ℕ)
slice_of header range =
    let first = header.first in
    let last = first + (header.records - 1) in
    if header.records == 0
    then none
    else if leb (2 ^ 64) last
    then none
    else if ltb range.last first || ltb last range.first
    then none
    else some (
      min (max range.first first - first) header.records,
      min (min range.last last - first + 1) header.records,
    )

-- A count as the header holds it.
unfoldable pub saturating : ℕ → ℕ
saturating n = if ltb n (2 ^ 32) then n else 2 ^ 32 - 1

unfoldable pub write_header : Header → Layout → List ℕ → List ℕ
unfolding saturating
write_header header layout out =
    out
    ++ (layout.magic
        ++ (version
            ∷ 0
            ∷ 0
            ∷ 0
            ∷ (to_le_bytes 8 header.first
                ++ (to_le_bytes 4 (saturating header.records)
                    ++ to_le_bytes 4 (saturating header.tail)))))

unfoldable pub field64 : List ℕ → ℕ → ℕ
field64 bytes at = elim (get_range bytes at (at + 8)) [
  | none ↦ 0
  | some chunk ↦ from_le_bytes chunk
]

unfoldable pub field32 : List ℕ → ℕ → ℕ
field32 bytes at = elim (get_range bytes at (at + 4)) [
  | none ↦ 0
  | some chunk ↦ from_le_bytes chunk
]

-- A `u32` always fits a `usize` of 64 bits.
unfoldable pub counted : List ℕ → ℕ → ℕ
unfolding field32
counted bytes at = field32 bytes at

-- What the counts of a header add up to.
abbrev pub expected_bytes : ℕ → ℕ → Layout → ℕ
expected_bytes records tail layout =
    saturating_add (saturating_add header_bytes (saturating_mul records layout.record_bytes))
      (saturating_mul tail layout.unit)

unfoldable pub read_header : List ℕ → Layout → Result Frame Header
read_header bytes layout =
    let head = take header_bytes bytes in
    let found = take 4 head in
    let written = get_or head 4 0 in
    let first = field64 head 8 in
    let records = counted head 16 in
    let tail = counted head 20 in
    let expected = expected_bytes records tail layout in
    if ltb (length bytes) header_bytes
    then err (short (length bytes))
    else if bytes_eq found layout.magic
    then (if written == version
        then (if ltb first (2 ^ 63)
            then (if expected == length bytes
                then ok (record { first = first; records = records; tail = tail })
                else err (truncated expected (length bytes)))
            else err (unnameable first))
        else err (unknown_version written))
    else err (magic found layout.magic)
