-- ===== src/Lattice/Key.antt =====
-- crates/lattice/core/src/key.rs: keys, and inclusive ranges of them. A key is its number.
pub mod Ranges
use enroute.Prelude.{
  ℕ, ◌+◌, ◌-◌, ◌%◌, ◌^◌, ◌≤◌, ◌<◌, Bool, ◌&&◌, leb, ltb, if◌then◌else◌, Result, ok, err,
}

pub record EmptyRange : Type 0 where
  pub first : ℕ
  pub last : ℕ

pub record KeyRange : Type 0 where
  pub first : ℕ
  pub last : ℕ

abbrev pub everything : KeyRange
everything = record { first = 0; last = 2 ^ 64 - 1 }

unfoldable pub new : ℕ → ℕ → Result EmptyRange KeyRange
new first last =
    if ltb last first
    then err (record { first = first; last = last })
    else ok (record { first = first; last = last })

-- The sum wraps, as it does in a build without overflow checks.
unfoldable pub span : KeyRange → ℕ
span range = (range.last - range.first + 1) % 2 ^ 64

unfoldable pub contains : KeyRange → ℕ → Bool
contains range key = leb range.first key && leb key range.last

unfoldable pub overlaps : KeyRange → KeyRange → Bool
overlaps a b = leb a.first b.last && leb b.first a.last

unfoldable pub hull : KeyRange → KeyRange → KeyRange
hull a b = record {
  first = if leb a.first b.first then a.first else b.first;
  last = if leb b.last a.last then a.last else b.last;
}

-- What `new` lets through, with keys that fit a `u64`.
pub record IsRange (range : KeyRange) : Type 0 where
  pub ordered : range.first ≤ range.last
  pub fits : range.last < 2 ^ 64
