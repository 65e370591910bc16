-- ===== src/Packfile/Delta/Encode.antt =====
-- crates/git/packfile/src/delta/encode.rs: a target as a delta against a base.
pub mod Index
use enroute.Prelude.{
  ℕ, zero, suc, ◌+◌, ◌-◌, ◌^◌, min, bit_or, Option, none, some, List, [], ◌∷◌, ◌++◌, ◌&&◌, leb, ltb,
  ◌==◌, length, get_elem?, take, drop, get_from, get_range, get_upto, to_le_bytes, if◌then◌else◌,
  Result, ok, err, ◌>>=◌, ◌>>◌, guard, ok_or,
}
use enroute.Packfile.Errors
use enroute.Packfile.Errors.{Error, invalid, out_of_fuel}
use enroute.Packfile.Format.{max_object_bytes}
use enroute.Packfile.Varint.{write_varint}
use enroute.Packfile.Delta.{max_copy, max_insert}
use Index.{Match, BlockIndex, block, block_hash, roll, build, best_match}

-- `data.chunks(n)`, with the length of the data for fuel.
unfoldable pub chunks : ℕ → ℕ → List ℕ → List (List ℕ)
chunks fuel n [] = []
chunks zero n (b ∷ bs) = []
chunks (suc fuel) n (b ∷ bs) = take n (b ∷ bs) ∷ chunks fuel n (drop n (b ∷ bs))

unfoldable pub push_chunks : List ℕ → List (List ℕ) → Result Error (List ℕ)
push_chunks out [] = ok out
push_chunks out (chunk ∷ rest) = do
  guard (ltb (length chunk) 256) (invalid Errors.insert_length)
  push_chunks (out ++ (length chunk ∷ chunk)) rest

unfoldable pub push_literal : List ℕ → List ℕ → Result Error (List ℕ)
unfolding chunks push_chunks
push_literal out literal = push_chunks out (chunks (length literal) max_insert literal)

-- The non-zero bytes go to the payload, and their bits, from bit `i` on, to the command. There are
-- seven bytes at most, which is what the payload's array has room for.
unfoldable pub select : ℕ → List ℕ → ℕ × List ℕ → ℕ × List ℕ
select i [] acc = acc
select i (byte ∷ bytes) (cmd, payload) =
    select (i + 1) bytes
      (if byte == 0 then (cmd, payload) else (bit_or cmd (2 ^ i), payload ++ (byte ∷ [])))

unfoldable pub push_copy_instruction : List ℕ → ℕ → ℕ → List ℕ
unfolding select
push_copy_instruction out offset size =
    let (cmd, payload) =
      select 4 (take 3 (to_le_bytes 4 size)) (select 0 (to_le_bytes 4 offset) (0x80, [])) in
    out ++ (cmd ∷ payload)

-- `while done < len`: a round copies one byte at least.
unfoldable pub push_copy_loop : ℕ → List ℕ → ℕ → ℕ → ℕ → Result Error (List ℕ)
push_copy_loop zero out base_offset len done = if ltb done len then err out_of_fuel else ok out
push_copy_loop (suc fuel) out base_offset len done =
    let taken = min (len - done) max_copy in
    let more = (do
      guard (ltb (base_offset + done) (2 ^ 32)) (invalid Errors.copy_offset)
      guard (ltb taken (2 ^ 32)) (invalid Errors.copy_size)
      push_copy_loop fuel (push_copy_instruction out (base_offset + done) taken) base_offset len
          (done + taken)) in
    if ltb done len then more else ok out

unfoldable pub push_copy : List ℕ → ℕ → ℕ → Result Error (List ℕ)
unfolding push_copy_loop
push_copy out base_offset len = push_copy_loop len out base_offset len 0

-- `target.get(pos..pos + BLOCK).map_or(0, block_hash)`
unfoldable pub hash_at : List ℕ → ℕ → ℕ
hash_at target pos = elim (get_range target pos (pos + block)) [
  | none ↦ 0
  | some window ↦ block_hash window
]

unfoldable pub find_match : List ℕ → List ℕ → BlockIndex → ℕ → ℕ → ℕ → Option Match
find_match base target index pending pos hash =
    if leb (pos + block) (length target)
    then best_match index base target pos pending hash
    else none

-- The hash one byte on, where the window has a byte behind it.
unfoldable pub rolled : List ℕ → ℕ → ℕ → ℕ
rolled target pos hash = elim (get_elem? target pos) [
  | none ↦ hash
  | some outgoing ↦ elim (get_elem? target (pos + block)) [
    | none ↦ hash
    | some incoming ↦ roll hash outgoing incoming
  ]
]

unfoldable pub push_match : List ℕ → List ℕ → ℕ → Match → Result Error (List ℕ)
push_match out target pending m = do
  literal ← ok_or (get_range target pending m.start) (invalid Errors.literal_out_of_bounds)
  out ← push_literal out literal
  push_copy out m.base_offset m.len

unfoldable pub push_tail : List ℕ → List ℕ → ℕ → Result Error (List ℕ)
push_tail out target pending = do
  literal ← ok_or (get_from target pending) (invalid Errors.literal_tail_out_of_bounds)
  push_literal out literal

-- `while pos < target.len()`, and what follows it.
unfoldable pub encode_loop :
    ℕ → List ℕ → List ℕ → BlockIndex → List ℕ → ℕ → ℕ → ℕ → Result Error (List ℕ)
encode_loop zero base target index out pending pos hash =
    if ltb pos (length target) then err out_of_fuel else push_tail out target pending
encode_loop (suc fuel) base target index out pending pos hash =
    let round : Result Error (List ℕ) = elim (find_match base target index pending pos hash) [
      | some m ↦ push_match out target pending m >>= λ out.
          encode_loop fuel base target index out (m.start + m.len) (m.start + m.len)
            (hash_at target (m.start + m.len))
      | none ↦ encode_loop fuel base target index out pending (pos + 1) (rolled target pos hash)
    ] in
    if ltb pos (length target) then round else push_tail out target pending

unfoldable pub encode_delta : List ℕ → List ℕ → Result Error (List ℕ)
encode_delta base target = do
  guard (leb (length base) max_object_bytes && leb (length target) max_object_bytes)
      (invalid (Errors.inputs_too_large (length base) (length target)))
  encode_loop (length target) base target (build base)
      (write_varint (write_varint [] (length base)) (length target)) 0 0 (hash_at target 0)
