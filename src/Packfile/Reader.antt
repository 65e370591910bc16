-- ===== src/Packfile/Reader.antt =====
-- crates/git/packfile/src/reader.rs: `PackReader`, the streaming decoder of one pack. A call that
-- fails ends the parse, so an error carries no reader.
pub mod Consumes
use enroute.Prelude.{
  ℕ, zero, suc, ◌+◌, ◌-◌, ◌*◌, ◌/◌, ◌%◌, ◌^◌, bit_and, Option, none, some, List, [], ◌∷◌, ◌++◌, leb,
  ltb, ◌==◌, length, take, drop, from_be_bytes, if◌then◌else◌, Bool, Result, ok, err,
}
use enroute.Prelude.Bytes.{bytes_eq}
use enroute.Packfile.Errors
use enroute.Packfile.Errors.{Error, Reason, invalid, out_of_fuel}
use enroute.Packfile.Format.{Kind, EntryHeader, commit, tree, blob, tag, full, ofs_delta, ref_delta}

-- `inner` is what the stream has still to yield, and `hashed` what the hasher has been fed.
pub record PackReader : Type 0 where
  pub inner : List ℕ
  pub kept : Option (List ℕ)
  pub hashed : List ℕ
  pub offset : ℕ

abbrev pub M : Type 0 → Type 0
M A = PackReader → Result Error (A × PackReader)

abbrev pub continue :
    {A B : Type 0} → Result Error (A × PackReader) → (A → M B) → Result Error (B × PackReader)
continue (ok (a, r)) f = f a r
continue (err e) f = err e

infixl 5 ◌>>=◌ ◌>>◌
unfoldable pub ◌>>=◌ : {A B : Type 0} → M A → (A → M B) → M B
◌>>=◌ m f r = continue (m r) f

abbrev pub ◌>>◌ : {A B : Type 0} → M A → M B → M B
m >> n = m >>= λ _. n

unfoldable pub pure : {A : Type 0} → A → M A
pure a r = ok (a, r)

unfoldable pub fail : {A : Type 0} → Reason → M A
fail reason r = err (invalid reason)

-- `ok_or_else(...)?`
unfoldable pub some_or : {A : Type 0} → Option A → Reason → M A
some_or none reason r = err (invalid reason)
some_or (some a) reason r = ok (a, r)

with_kept : List ℕ → Option (List ℕ) → PackReader
with_kept inner kept = record { inner = inner; kept = kept; hashed = []; offset = 0 }

unfoldable pub new : List ℕ → PackReader
unfolding with_kept
new inner = with_kept inner none

unfoldable pub retaining : List ℕ → PackReader
unfolding with_kept
retaining inner = with_kept inner (some [])

-- The copy, and the reader without it.
unfoldable pub take_pack : PackReader → List ℕ × PackReader
take_pack r = (elim r.kept [ none ↦ [] | some bytes ↦ bytes ], record r { kept = none })

unfoldable pub keep : Option (List ℕ) → List ℕ → Option (List ℕ)
keep none bytes = none
keep (some kept) bytes = some (kept ++ bytes)

-- `saturating_add` on `u64`
abbrev pub saturating_add : ℕ → ℕ → ℕ
saturating_add a b = if ltb (a + b) (2 ^ 64) then a + b else 2 ^ 64 - 1

-- What one hashed read of `bytes` leaves, with `rest` still to come.
abbrev pub advanced : List ℕ → List ℕ → PackReader → PackReader
advanced bytes rest r = record {
  inner = rest;
  kept = keep r.kept bytes;
  hashed = r.hashed ++ bytes;
  offset = saturating_add r.offset (length bytes);
}

unfoldable pub read_exact_hashing : ℕ → M (List ℕ)
unfolding keep
read_exact_hashing n r =
    if leb n (length r.inner)
    then ok (take n r.inner, advanced (take n r.inner) (drop n r.inner) r)
    else err (invalid Errors.read_failed)

unfoldable pub head_or : ℕ → List ℕ → ℕ
head_or default [] = default
head_or default (byte ∷ _) = byte

unfoldable pub read_u8_hashing : M ℕ
unfolding read_exact_hashing head_or ◌>>=◌ pure
read_u8_hashing = do bytes ← read_exact_hashing 1; pure (head_or 0 bytes)

-- `b"PACK"`
abbrev pub pack_magic : List ℕ
pack_magic = b'P' ∷ b'A' ∷ b'C' ∷ b'K' ∷ []

unfoldable pub read_pack_header : M ℕ
unfolding read_exact_hashing bytes_eq ◌>>=◌ pure fail from_be_bytes
read_pack_header = do
  buf ← read_exact_hashing 12
  let version = from_be_bytes (take 4 (drop 4 buf))
  if bytes_eq (take 4 buf) pack_magic
      then (if version == 2
          then pure (from_be_bytes (take 4 (drop 8 buf)))
          else fail (Errors.unsupported_version version))
      else fail Errors.missing_pack_magic

-- `checked_shl` on `u64` looks at the shift alone: bits that leave at the top are lost.
abbrev pub checked_shl : ℕ → ℕ → Option ℕ
checked_shl x shift = if ltb shift 64 then some (x * 2 ^ shift % 2 ^ 64) else none

abbrev pub checked_add : ℕ → ℕ → Option ℕ
checked_add a b = if ltb (a + b) (2 ^ 64) then some (a + b) else none

-- `while cur & 0x80 != 0`: a round reads a byte.
unfoldable pub size_loop : ℕ → ℕ → ℕ → ℕ → M ℕ
size_loop zero cur size shift r = if bit_and cur 0x80 == 0 then ok (size, r) else err out_of_fuel
size_loop (suc fuel) cur size shift r =
    let more =
      (do
        cur ← read_u8_hashing
        bits ← some_or (checked_shl (bit_and cur 0x7f) shift) Errors.entry_size_overflow
        size ← some_or (checked_add size bits) Errors.entry_size_overflow
        size_loop fuel cur size (shift + 7))
        r in
    if bit_and cur 0x80 == 0 then ok (size, r) else more

unfoldable pub distance_loop : ℕ → ℕ → ℕ → M ℕ
distance_loop zero cur value r = if bit_and cur 0x80 == 0 then ok (value, r) else err out_of_fuel
distance_loop (suc fuel) cur value r =
    let more =
      (do
        cur ← read_u8_hashing
        value ← some_or (checked_add value 1) Errors.ofs_distance_overflow
        value ← some_or (checked_shl value 7) Errors.ofs_distance_overflow
        value ← some_or (checked_add value (bit_and cur 0x7f)) Errors.ofs_distance_overflow
        distance_loop fuel cur value)
        r in
    if bit_and cur 0x80 == 0 then ok (value, r) else more

-- A round takes a byte of the stream, so there are no more rounds than one past its length.
unfoldable pub read_ofs_delta_distance : M ℕ
unfolding ◌>>=◌
read_ofs_delta_distance = do
  c ← read_u8_hashing
  λ r. distance_loop (suc (length r.inner)) c (bit_and c 0x7f) r

unfoldable pub entry_header : ℕ → M EntryHeader
unfolding pure fail ◌>>=◌
entry_header type_id =
    if type_id == 1
    then pure (full commit)
    else if type_id == 2
    then pure (full tree)
    else if type_id == 3
    then pure (full blob)
    else if type_id == 4
    then pure (full tag)
    else if type_id == 6
    then (do distance ← read_ofs_delta_distance; pure (ofs_delta distance))
    else if type_id == 7
    then (do sha ← read_exact_hashing 20; pure (ref_delta sha))
    else fail (Errors.unknown_entry_type type_id)

unfoldable pub read_entry_header : M (EntryHeader × ℕ)
unfolding pure ◌>>=◌
read_entry_header = do
  c ← read_u8_hashing
  size ← λ r. size_loop (suc (length r.inner)) c (bit_and c 0x0f) 4 r
  header ← entry_header (bit_and (c / 2 ^ 4) 0x07)
  pure (header, size)

-- The hash is that of the `sha1` crate. The trailer is kept and not hashed; the hasher starts anew.
unfoldable pub verify_trailer : (List ℕ → List ℕ) → M (Unit {0})
unfolding keep bytes_eq
verify_trailer sha1 r =
    let trailer = take 20 r.inner in
    let after : PackReader = record {
      inner = drop 20 r.inner;
      kept = keep r.kept trailer;
      hashed = [];
      offset = r.offset;
    } in
    if leb 20 (length r.inner)
    then (if bytes_eq (sha1 r.hashed) trailer
        then ok (tt, after)
        else err (invalid Errors.checksum_mismatch))
    else err (invalid Errors.trailer_failed)
