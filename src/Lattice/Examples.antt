-- ===== src/Lattice/Examples.antt =====
-- The theorems on crates/lattice/core at concrete inputs.
use enroute.Prelude.{
  ℕ, ◌+◌, ◌^◌, ◌≤◌, ◌<◌, ◌≡◌, ◌↔◌, refl, true, false, ◌&&◌, some, List, [], ◌∷◌, ◌++◌, ok, leb, ltb,
  length, take, get_or, to_le_bytes, from_le_bytes, All, arith,
}
use enroute.Prelude.Bytes.{bytes_eq}
use enroute.Lattice.Key.{KeyRange, IsRange, everything, span, contains}
use enroute.Lattice.Key.Ranges.{span_zero_iff}
use enroute.Lattice.Frame.{
  Layout, Header, header_bytes, version, expected_bytes, slice_of, write_header, read_header,
  field64, counted,
}
use enroute.Lattice.Frame.Window.{slice_of-some, slice_of-none}
use enroute.Lattice.Frame.RoundTrip.{layout_of, read_header-write_header, read_header_accepts}
use enroute.Lattice.Tail.{stow, fetch, length_at}
use enroute.Lattice.Tail.Stow.{fetch-stow}
use enroute.Lattice.Plan.{inline, bucket, Placement, Policy, runs, plan}
use enroute.Lattice.Plan.Runs.{IsRun, concat, runs-covers, runs-IsRun}
use enroute.Lattice.Plan.Sound.{IsMerge, plan-IsMerge}

abbrev low : KeyRange
low = record { first = 2; last = 5 }

abbrev high : KeyRange
high = record { first = 4; last = 9 }

abbrev wide : KeyRange
wide = record { first = 1; last = 12 }

low-IsRange : IsRange low
low-IsRange = record { ordered = omega arith; fits = omega arith }

high-IsRange : IsRange high
high-IsRange = record { ordered = omega arith; fits = omega arith }

everything-IsRange : IsRange everything
everything-IsRange = record { ordered = omega arith; fits = omega arith }

span_zero_iff_example : (span everything ≡ 0) ↔ (everything ≡ everything)
span_zero_iff_example = span_zero_iff everything everything-IsRange

abbrev three : Header
three = record { first = 3; records = 3; tail = 0 }

slice_of-some_example :
    (0 < 3) × (3 ≤ 3) × ((leb 0 2 && ltb 2 3 ≡ true) ↔ ((2 < 3) × (contains low (3 + 2) ≡ true)))
unfolding slice_of
slice_of-some_example = slice_of-some three low 0 3 2 low-IsRange refl

slice_of-none_example : contains low (20 + 1) ≡ false
unfolding slice_of
slice_of-none_example =
    slice_of-none (record { first = 20; records = 2; tail = 0 }) low 1 low-IsRange (omega arith)
      refl (omega arith)

abbrev small_layout : Layout
small_layout = layout_of 84 69 83 84 4 2

abbrev small_header : Header
small_header = record { first = 9; records = 1; tail = 1 }

abbrev six : List ℕ
six = 1 ∷ 2 ∷ 3 ∷ 4 ∷ 5 ∷ 6 ∷ []

read_header-write_header_example :
    read_header (write_header small_header small_layout [] ++ six) small_layout ≡ ok small_header
read_header-write_header_example =
    read_header-write_header 84 69 83 84 4 2 small_header six (omega arith) (omega arith)
      (omega arith) refl (omega arith)

small_accepted :
    read_header (write_header small_header small_layout [] ++ six) small_layout ≡ ok small_header
unfolding read_header write_header field64 counted bytes_eq to_le_bytes from_le_bytes
small_accepted = refl

read_header_accepts_example :
    (take 4 (take header_bytes (write_header small_header small_layout [] ++ six))
      ≡ small_layout.magic)
    × (get_or (take header_bytes (write_header small_header small_layout [] ++ six)) 4 0 ≡ version)
    × (9 < 2 ^ 63)
    × (expected_bytes 1 1 small_layout ≡ length (write_header small_header small_layout [] ++ six))
read_header_accepts_example =
    read_header_accepts (write_header small_header small_layout [] ++ six) small_layout small_header
      small_accepted

fetch-stow_example :
    (fetch
        (stow (7 ∷ 8 ∷ []) (1 ∷ 0 ∷ 0 ∷ 0 ∷ 5 ∷ [])).0
        (stow (7 ∷ 8 ∷ []) (1 ∷ 0 ∷ 0 ∷ 0 ∷ 5 ∷ [])).1
      ≡ some (7 ∷ 8 ∷ []))
    × (fetch 0 (stow (7 ∷ 8 ∷ []) (1 ∷ 0 ∷ 0 ∷ 0 ∷ 5 ∷ [])).1 ≡ some (5 ∷ []))
unfolding fetch length_at from_le_bytes
fetch-stow_example =
    fetch-stow (7 ∷ 8 ∷ []) (1 ∷ 0 ∷ 0 ∷ 0 ∷ 5 ∷ []) 0 (5 ∷ []) (omega arith) (omega arith) refl

-- Three segments of tier 0 and one of tier 1.
abbrev segments : List Placement
segments =
    record { range = high; tier = 0; bytes = 10; residence = inline }
    ∷ record { range = low; tier = 0; bytes = 10; residence = inline }
    ∷ record { range = wide; tier = 1; bytes = 50; residence = bucket }
    ∷ record { range = low; tier = 0; bytes = 10; residence = inline }
    ∷ []

abbrev pairs : Policy
pairs = record {
  fanout = 3;
  max_inputs = 2;
  max_input_bytes = 100;
  graduation_bytes = 40;
  inline_ceiling = 9;
}

runs-covers_example :
    (dropped : List ℕ) × (concat (runs (1 ∷ 3 ∷ 0 ∷ []) segments pairs) ++ dropped ≡ 1 ∷ 3 ∷ 0 ∷ [])
    × (length dropped ≤ 1)
runs-covers_example = runs-covers (1 ∷ 3 ∷ 0 ∷ []) segments pairs

runs-IsRun_example : All (IsRun segments pairs) (runs (1 ∷ 3 ∷ 0 ∷ []) segments pairs)
runs-IsRun_example = runs-IsRun (1 ∷ 3 ∷ 0 ∷ []) segments pairs

plan-IsMerge_example : All (IsMerge segments pairs) (plan segments pairs)
plan-IsMerge_example = plan-IsMerge segments pairs
