-- ===== src/Packfile/Delta/Encode/Index.antt =====
-- crates/git/packfile/src/delta/encode.rs: the block index of a base, and the search for a match.
use mathlib.Core.List.{foldl}
use enroute.Prelude.{
  ℕ, zero, suc, ◌+◌, ◌-◌, ◌*◌, ◌/◌, ◌%◌, ◌^◌, bit_and, bit_xor, Bool, true, ◌&&◌, Option, none,
  some, List, [], ◌∷◌, leb, ltb, ◌==◌, length, get_elem?, set, take, drop, replicate, reverse,
  get_from, get_upto, get_range, if◌then◌else◌,
}

abbrev pub block : ℕ
block = 16

abbrev pub max_candidates : ℕ
max_candidates = 64

abbrev pub mult : ℕ
mult = 0x0100_0193

-- `wrapping_mul`, `wrapping_add` and `wrapping_sub` on `u32`
abbrev pub mul32 : ℕ → ℕ → ℕ
mul32 a b = a * b % 2 ^ 32

abbrev pub add32 : ℕ → ℕ → ℕ
add32 a b = (a + b) % 2 ^ 32

abbrev pub sub32 : ℕ → ℕ → ℕ
sub32 a b = (a + 2 ^ 32 - b) % 2 ^ 32

unfoldable pub power_loop : ℕ → ℕ → ℕ
power_loop zero pow = pow
power_loop (suc n) pow = power_loop n (mul32 pow mult)

-- MULT^(BLOCK-1)
unfoldable pub outgoing_weight : ℕ
unfolding power_loop
outgoing_weight = power_loop (block - 1) 1

unfoldable pub block_hash : List ℕ → ℕ
block_hash window = foldl (λ acc byte. add32 (mul32 acc mult) byte) 0 window

unfoldable pub roll : ℕ → ℕ → ℕ → ℕ
unfolding outgoing_weight
roll hash outgoing incoming =
    add32 (mul32 (sub32 hash (mul32 outgoing outgoing_weight)) mult) incoming

unfoldable pub bucket : ℕ → ℕ → ℕ
bucket hash mask = bit_and (bit_xor hash (hash / 2 ^ 13)) mask

unfoldable pub common_prefix : List ℕ → List ℕ → ℕ
common_prefix [] ys = 0
common_prefix (x ∷ xs) [] = 0
common_prefix (x ∷ xs) (y ∷ ys) = if x == y then suc (common_prefix xs ys) else 0

unfoldable pub common_suffix : List ℕ → List ℕ → ℕ
unfolding common_prefix
common_suffix xs ys = common_prefix (reverse xs) (reverse ys)

pub record Match : Type 0 where
  pub start : ℕ
  pub base_offset : ℕ
  pub len : ℕ

pub record BlockIndex : Type 0 where
  pub head : List ℕ
  pub next : List ℕ
  pub mask : ℕ

-- `NONE`, the end of a chain.
abbrev pub no_block : ℕ
no_block = 2 ^ 32 - 1

-- The least power of two that is not below `n`.
unfoldable pub power_of_two_loop : ℕ → ℕ → ℕ → ℕ
power_of_two_loop zero p n = p
power_of_two_loop (suc fuel) p n =
    let more = power_of_two_loop fuel (p * 2) n in if leb n p then p else more

unfoldable pub next_power_of_two : ℕ → ℕ
unfolding power_of_two_loop
next_power_of_two n = power_of_two_loop 64 1 n

-- The whole blocks of `base`, in order: `as_chunks::<BLOCK>().0`.
unfoldable pub windows : ℕ → List ℕ → List (List ℕ)
windows zero base = []
windows (suc n) base = take block base ∷ windows n (drop block base)

-- One round of the loop of `build`: the block becomes its bucket's head.
unfoldable pub link : BlockIndex → ℕ → ℕ → BlockIndex
link index number slot = elim (get_elem? index.head slot) [
  | none ↦ index
  | some head ↦
      if ltb number (length index.next)
      then record index { head = set index.head slot number; next = set index.next number head }
      else index
]

unfoldable pub link_loop : BlockIndex → ℕ → List (List ℕ) → BlockIndex
unfolding link block_hash bucket
link_loop index number [] = index
link_loop index number (window ∷ rest) =
    let more =
      link_loop (link index number (bucket (block_hash window) index.mask)) (number + 1) rest in
    if ltb number (2 ^ 32) then more else index

unfoldable pub build : List ℕ → BlockIndex
unfolding link_loop windows next_power_of_two
build base =
    let blocks = length base / block in
    let size = next_power_of_two blocks in
    if blocks == 0
    then record { head = []; next = []; mask = 0 }
    else link_loop
        (record {
          head = replicate size no_block;
          next = replicate blocks no_block;
          mask = size - 1;
        })
        0 (windows blocks base)

abbrev pub forward_of : List ℕ → List ℕ → ℕ → ℕ
forward_of base ahead offset = elim (get_from base offset) [
  | none ↦ 0
  | some from ↦ common_prefix from ahead
]

abbrev pub backward_of : List ℕ → List ℕ → ℕ → ℕ
backward_of base behind offset = elim (get_upto base offset) [
  | none ↦ 0
  | some upto ↦ common_suffix upto behind
]

-- `best.as_ref().is_none_or(|b| len > b.len)`
abbrev pub is_longer : ℕ → Option Match → Bool
is_longer len none = true
is_longer len (some b) = ltb b.len len

-- One candidate against the best match so far.
unfoldable pub better : List ℕ → List ℕ → List ℕ → ℕ → ℕ → Option Match → Option Match
better base ahead behind pos offset best =
    let forward = forward_of base ahead offset in
    let backward = backward_of base behind offset in
    let len = forward + backward in
    if ltb 0 forward && (leb block len && is_longer len best)
    then some (record { start = pos - backward; base_offset = offset - backward; len = len })
    else best

-- The rounds left of the loop. A block that `next` does not hold ends the search with no match.
unfoldable pub candidates :
    ℕ → BlockIndex → List ℕ → List ℕ → List ℕ → ℕ → ℕ → Option Match → Option Match
candidates zero index base ahead behind pos candidate best = best
candidates (suc rounds) index base ahead behind pos candidate best =
    let best' = better base ahead behind pos (candidate * block) best in
    elim (get_elem? index.next candidate) [
      | none ↦ none
      | some next ↦
          let more = candidates rounds index base ahead behind pos next best' in
          if next == no_block then best' else more
    ]

unfoldable pub best_match : BlockIndex → List ℕ → List ℕ → ℕ → ℕ → ℕ → Option Match
best_match index base target pos pending hash = elim (get_from target pos) [
  | none ↦ none
  | some ahead ↦ elim (get_range target pending pos) [
    | none ↦ none
    | some behind ↦ elim (get_elem? index.head (bucket hash index.mask)) [
      | none ↦ none
      | some candidate ↦ candidates max_candidates index base ahead behind pos candidate none
    ]
  ]
]
