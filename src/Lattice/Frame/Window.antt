-- ===== src/Lattice/Frame/Window.antt =====
-- The window of records that a read of a range wants.
use enroute.Prelude.{
  ℕ, ◌+◌, ◌^◌, ◌≤◌, ◌<◌, ◌≡◌, ◌↔◌, true, false, ◌&&◌, leb, ltb, some, none, arith,
}
use enroute.Lattice.Key.{KeyRange, IsRange, contains}
use enroute.Lattice.Frame.{Header, slice_of}

-- A window that `slice_of` returns lies inside the records, is not empty, and holds a record exactly
-- if the record's key is in the range.
pub slice_of-some :
    (header : Header) (range : KeyRange) (from upto i : ℕ)
    → IsRange range
    → slice_of header range ≡ some (from, upto)
    → (from < upto)
      × (upto ≤ header.records)
      × ((leb from i && ltb i upto ≡ true)
          ↔ ((i < header.records) × (contains range (header.first + i) ≡ true)))
unfolding slice_of contains
slice_of-some header range from upto i h e = ground arith

-- Where it returns none, and the records' keys fit a `u64`, no record's key is in the range.
pub slice_of-none :
    (header : Header) (range : KeyRange) (i : ℕ)
    → IsRange range
    → header.first + header.records ≤ 2 ^ 64
    → slice_of header range ≡ none
    → i < header.records
    → contains range (header.first + i) ≡ false
unfolding slice_of contains
slice_of-none header range i h fits e hi = ground arith
