-- ===== src/Packfile/Varint/RoundTrip.antt =====
-- `write_varint` and `read_varint` are inverse on `u64`.
use native.Mathlib.Nat.{div-add-mod}
use native.Mathlib.Numerals.{towards_suc}
use enroute.Prelude.{
  ℕ, zero, suc, ◌+◌, ◌*◌, ◌/◌, ◌%◌, ◌^◌, ◌≤◌, ◌<◌, bit_and, bit_or, ◌≡◌, sym, ap, List, [], ◌∷◌,
  ◌++◌, ok, arith, ltb, length, All, append_assoc, if◌then◌else◌,
}
use enroute.Prelude.Bits.{bit_or-above, low_seven, top_bit, set_top_bit}
use enroute.Packfile.Varint.{IsByte, IsU64, read_loop, read_varint, write_loop, write_varint}

-- The groups of seven bits of `v`, lowest first, for `v` below 128 ^ (k + 1).
unfoldable pub groups : ℕ → ℕ → List ℕ
groups zero v = v ∷ []
groups (suc k) v =
    let rest = groups k (v / 128) in if ltb v 128 then v ∷ [] else (v % 128 + 128) ∷ rest

inner_group : (v : ℕ) → bit_or (bit_and v 0x7f) 0x80 ≡ v % 128 + 128
inner_group v = rw low_seven (set_top_bit _ (omega arith))

write_loop-groups :
    (k : ℕ) (out : List ℕ) (v : ℕ) → v < 128 ^ suc k → write_loop (suc k) out v ≡ out ++ groups k v
unfolding write_loop groups
write_loop-groups zero out v h = ground (arith, low_seven v)
write_loop-groups (suc k) out v h = ground (
  arith,
  low_seven v,
  inner_group v,
  write_loop-groups k (out ++ ((v % 128 + 128) ∷ [])) (v / 128),
  append_assoc out ((v % 128 + 128) ∷ []) (groups k (v / 128)),
)

-- On a `u64` ten rounds are enough: what is written is the groups.
pub write_varint-groups : (out : List ℕ) (v : ℕ) → IsU64 v → write_varint out v ≡ out ++ groups 9 v
unfolding write_varint
write_varint-groups out v h = write_loop-groups 9 out v (omega arith)

last_byte :
    (w acc shift i : ℕ) (rest : List ℕ)
    → w < 128
    → shift < 64
    → acc < 2 ^ shift
    → IsU64 (acc + w * 2 ^ shift)
    → read_loop (w ∷ rest) acc shift i ≡ ok (acc + w * 2 ^ shift, i + 1)
unfolding read_loop
last_byte w acc shift i rest hw hs ha fits =
    ground (arith, low_seven w, top_bit w, bit_or-above shift acc w)

inner_byte :
    (g acc shift i : ℕ) (rest : List ℕ)
    → g < 128
    → shift < 64
    → acc < 2 ^ shift
    → IsU64 (acc + g * 2 ^ shift)
    → read_loop ((g + 128) ∷ rest) acc shift i
      ≡ read_loop rest (acc + g * 2 ^ shift) (shift + 7) (i + 1)
unfolding read_loop
inner_byte g acc shift i rest hg hs ha fits =
    ground (arith, low_seven (g + 128), top_bit (g + 128), bit_or-above shift acc g)

seven_up : (s : ℕ) → 128 * 2 ^ s ≡ 2 ^ (s + 7)
seven_up s = simp towards_suc (omega arith)

pub split_group : (v s : ℕ) → v % 128 * 2 ^ s + v / 128 * 2 ^ (s + 7) ≡ v * 2 ^ s
split_group v s = omega (
  arith,
  ap (λ (high : ℕ). v / 128 * high) (seven_up s),
  ap (λ (whole : ℕ). whole * 2 ^ s) (div-add-mod v 128),
)

next_fits : (g acc s : ℕ) → g < 128 → acc < 2 ^ s → acc + g * 2 ^ s < 2 ^ (s + 7)
next_fits g acc s hg ha = rw (sym (seven_up s)) (grind arith)

-- `w` is what is still to be read, and it counts from bit `shift` on.
read_loop-groups :
    (k w acc shift i : ℕ) (rest : List ℕ)
    → w < 128 ^ suc k
    → shift + 7 * k < 64
    → acc < 2 ^ shift
    → IsU64 (acc + w * 2 ^ shift)
    → read_loop (groups k w ++ rest) acc shift i ≡ ok (acc + w * 2 ^ shift, i + length (groups k w))
unfolding groups
read_loop-groups zero w acc shift i rest hw hs ha fits =
    ground (arith, last_byte w acc shift i rest)
read_loop-groups (suc k) w acc shift i rest hw hs ha fits = ground (
  arith,
  last_byte w acc shift i rest,
  split_group w shift,
  inner_byte (w % 128) acc shift i (groups k (w / 128) ++ rest),
  next_fits (w % 128) acc shift (omega arith) ha,
  read_loop-groups k (w / 128) (acc + w % 128 * 2 ^ shift) (shift + 7) (i + 1) rest (omega arith)
      (omega arith),
)

-- Reading back what `write_varint` wrote of a `u64` gives the value and the count of bytes written,
-- whatever follows it.
pub read-write :
    (v : ℕ) (rest : List ℕ)
    → IsU64 v
    → read_varint (write_varint [] v ++ rest) ≡ ok (v, length (write_varint [] v))
unfolding read_varint
read-write v rest h =
    rw (write_varint-groups [] v h)
      (ground (arith, read_loop-groups 9 v 0 0 0 rest (omega arith) (omega arith) (omega arith)))

pub length-groups : (k v : ℕ) → (1 ≤ length (groups k v)) × (length (groups k v) ≤ suc k)
unfolding groups
length-groups zero v = omega arith
length-groups (suc k) v = ground (arith, length-groups k (v / 128))

groups-IsByte : (k v : ℕ) → v < 128 ^ suc k → All IsByte (groups k v)
unfolding groups
groups-IsByte zero v h = omega arith
groups-IsByte (suc k) v h = ground (arith, groups-IsByte k (v / 128) (omega arith))

-- `write_varint` only appends: what it writes of a `u64` does not depend on what is there, and is
-- one to ten bytes.
pub write_varint_shape :
    (out : List ℕ) (v : ℕ)
    → IsU64 v
    → (write_varint out v ≡ out ++ write_varint [] v)
      × All IsByte (write_varint [] v)
      × (1 ≤ length (write_varint [] v))
      × (length (write_varint [] v) ≤ 10)
write_varint_shape out v h = rw (write_varint-groups [] v h) (
  write_varint-groups out v h,
  groups-IsByte 9 v (omega arith),
  (length-groups 9 v).0,
  (length-groups 9 v).1,
)
