-- ===== src/Lattice/Tail.antt =====
-- crates/lattice/core/src/tail.rs: the blobs that a record points at.
pub mod Stow
use enroute.Prelude.{
  ℕ, ◌+◌, ◌-◌, ◌^◌, Option, none, some, List, [], ◌∷◌, ◌++◌, leb, ltb, ◌==◌, length, take, drop,
  get_range, to_le_bytes, from_le_bytes, if◌then◌else◌,
}

-- `NONE`
abbrev pub no_blob : ℕ
no_blob = 2 ^ 32 - 1

abbrev pub length_bytes : ℕ
length_bytes = 4

-- The offset, and the tail behind it. A length past a `u32` is written as 0.
unfoldable pub stow : List ℕ → List ℕ → ℕ × List ℕ
stow [] tail = (no_blob, tail)
stow (b ∷ bs) tail =
    let blob = b ∷ bs in
    (
      if ltb (length tail) (2 ^ 32) then length tail else no_blob,
      tail ++ (to_le_bytes 4 (if ltb (length blob) (2 ^ 32) then length blob else 0) ++ blob),
    )

-- The length word at an offset.
unfoldable pub length_at : ℕ → List ℕ → Option ℕ
length_at at tail =
    if leb (at + length_bytes) (length tail)
    then some (from_le_bytes (take length_bytes (drop at tail)))
    else none

unfoldable pub fetch : ℕ → List ℕ → Option (List ℕ)
unfolding length_at
fetch at tail = if at == no_blob then some [] else elim (length_at at tail) [
  | none ↦ none
  | some len ↦ get_range tail (at + length_bytes) (at + length_bytes + len)
]
