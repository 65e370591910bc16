-- ===== src/Lattice/Key/Ranges.antt =====
-- Ranges as sets of keys.
use enroute.Prelude.{ℕ, ◌+◌, ◌-◌, ◌%◌, ◌^◌, ◌≤◌, ◌≡◌, ◌↔◌, ◌≢◌, true, ◌&&◌, ◌||◌, ok, arith, max}
use enroute.Lattice.Key.{KeyRange, IsRange, new, span, contains, overlaps, hull, everything}

-- `new` succeeds exactly on ends in order, and its range has those ends.
pub new_iff :
    (first last : ℕ) (range : KeyRange)
    → (new first last ≡ ok range)
      ↔ ((first ≤ last) × (range ≡ record { first = first; last = last }))
unfolding new
new_iff first last range = ground arith

-- Two ranges overlap exactly if the larger of the starts is in both.
pub overlaps_iff :
    (a b : KeyRange)
    → IsRange a
    → IsRange b
    → (overlaps a b ≡ true)
      ↔ ((contains a (max a.first b.first) ≡ true) × (contains b (max a.first b.first) ≡ true))
unfolding overlaps contains
overlaps_iff a b ha hb = ground arith

-- A key in two ranges makes them overlap.
pub overlaps_of_contains :
    (a b : KeyRange) (key : ℕ) → contains a key ≡ true → contains b key ≡ true → overlaps a b ≡ true
unfolding overlaps contains
overlaps_of_contains a b key p q = ground arith

-- The hull of two ranges holds each key of either.
pub hull_covers :
    (a b : KeyRange) (key : ℕ)
    → contains a key || contains b key ≡ true
    → contains (hull a b) key ≡ true
unfolding hull contains
hull_covers a b key h = ground arith

-- A range that holds the ends of two ranges holds every key of their hull.
pub hull_least :
    (a b c : KeyRange) (key : ℕ)
    → contains c a.first && contains c a.last ≡ true
    → contains c b.first && contains c b.last ≡ true
    → contains (hull a b) key ≡ true
    → contains c key ≡ true
unfolding hull contains
hull_least a b c key p q h = ground arith

-- The hull does not depend on order or grouping, and a repeat changes nothing.
pub hull_laws :
    (a b c : KeyRange)
    → (hull (hull a b) c ≡ hull a (hull b c)) × (hull a b ≡ hull b a) × (hull a a ≡ a)
unfolding hull
hull_laws a b c = (ground arith, ground arith, ground arith)

-- The span counts a range's keys, unless it is the range of every key.
pub span_lem :
    (range : KeyRange)
    → IsRange range
    → range ≢ everything
    → span range ≡ range.last - range.first + 1
unfolding span
span_lem range h ne = counts (λ e f. ne (same e f))
  where
    same : range.first ≡ 0 → range.last ≡ 2 ^ 64 - 1 → range ≡ everything
    same e f = λ i. record { first = e i; last = f i }

    counts :
        (range.first ≡ 0 → range.last ≢ 2 ^ 64 - 1)
        → (range.last - range.first + 1) % 2 ^ 64 ≡ range.last - range.first + 1
    counts ne = ground arith

-- The span of a range is 0 exactly for the range of every key, where the count wraps.
pub span_zero_iff : (range : KeyRange) → IsRange range → (span range ≡ 0) ↔ (range ≡ everything)
unfolding span
span_zero_iff range h = (λ e. whole (omega arith) (omega arith), λ e. rw e)
  where
    whole : range.first ≡ 0 → range.last ≡ 2 ^ 64 - 1 → range ≡ everything
    whole e f = λ i. record { first = e i; last = f i }
