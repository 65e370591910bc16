-- ===== src/Store/CommitPack.antt =====
-- crates/git/store/src/commit_pack.rs: the file of a commit's objects. An object id is its 20 bytes.
pub mod Reads
pub mod Entry
pub mod Trailer
use enroute.Prelude.{
  ◌%◌, ℕ, zero, suc, ◌+◌, ◌-◌, ◌*◌, ◌^◌, bit_and, bit_or, Bool, true, false, Option, none, some,
  List, [], ◌∷◌, ◌++◌, leb, ltb, ◌==◌, length, take, drop, get_elem?, set, to_be_bytes,
  from_be_bytes, if◌then◌else◌, Result, ok, err, ◌>>=◌, ◌>>◌, guard,
}
use enroute.Prelude.Bytes.{bytes_eq}
use enroute.Packfile.Errors
use enroute.Packfile.Format.{Kind, commit, tree, blob, tag}
use enroute.Packfile.Varint
use enroute.Packfile.Varint.{write_varint}
use enroute.Metadata.Rows.{kind_to_u8}

-- Why a decoder refuses its input.
pub data Refusal : Type 0 where
  too_short_for_header too_short_for_sha too_short_for_kind too_short_for_base : Refusal
  invalid_magic : List ℕ → Refusal
  unsupported_version unknown_kind : ℕ → Refusal
  header_too_large : ℕ → Refusal
  empty_buffer shorter_than_header_length trailing_bytes : Refusal
  varint_of : Errors.Error → Refusal
  too_short_for_count : Refusal
  length_mismatch : ℕ → ℕ → Refusal
  sha_out_of_bounds kind_out_of_bounds length_out_of_bounds offset_out_of_bounds
        entry_len_out_of_bounds :
      Refusal

-- `buf.get(..n)` with an `advance(n)`, and `try_copy_to_slice`: the bytes, and what follows them.
unfoldable pub split_bytes : ℕ → Refusal → List ℕ → Result Refusal (List ℕ × List ℕ)
split_bytes n why buf = if leb n (length buf) then ok (take n buf, drop n buf) else err why

-- `try_get_u8`, `try_get_u32` and `try_get_u64`.
unfoldable pub read_word : ℕ → Refusal → List ℕ → Result Refusal (ℕ × List ℕ)
unfolding split_bytes from_be_bytes
read_word width why buf = do (bytes, buf) ← split_bytes width why buf; ok (from_be_bytes bytes, buf)

-- `CPAK`
abbrev pub commit_pack_magic : List ℕ
commit_pack_magic = b'C' ∷ b'P' ∷ b'A' ∷ b'K' ∷ []

abbrev pub commit_pack_version : ℕ
commit_pack_version = 1

unfoldable pub encode_commit_pack_header : ℕ → List ℕ
unfolding to_be_bytes
encode_commit_pack_header object_count =
    commit_pack_magic ++ (to_be_bytes 4 commit_pack_version ++ to_be_bytes 4 object_count)

unfoldable pub decode_commit_pack_header : List ℕ → Result Refusal ℕ
decode_commit_pack_header raw = do
  (magic, raw) ← split_bytes 4 too_short_for_header raw
  guard (bytes_eq magic commit_pack_magic) (invalid_magic magic)
  (version, raw) ← read_word 4 too_short_for_header raw
  guard (version == commit_pack_version) (unsupported_version version)
  (object_count, raw) ← read_word 4 too_short_for_header raw
  ok object_count

abbrev pub trailer_entry_len : ℕ
trailer_entry_len = 45

unfoldable pub trailer_suffix_len : ℕ → ℕ
trailer_suffix_len object_count = 4 + object_count * trailer_entry_len

unfoldable pub encode_kind : Kind → ℕ
unfolding kind_to_u8
encode_kind kind = kind_to_u8 kind

-- `kind_from_u8`
unfoldable pub kind_from_u8 : ℕ → Option Kind
kind_from_u8 byte =
    if byte == 1
    then some commit
    else if byte == 2
    then some tree
    else if byte == 3
    then some blob
    else if byte == 4
    then some tag
    else none

unfoldable pub decode_kind : ℕ → Result Refusal Kind
unfolding kind_from_u8
decode_kind byte = elim (kind_from_u8 byte) [ none ↦ err (unknown_kind byte) | some kind ↦ ok kind ]

unfoldable pub advance_varint : List ℕ → Result Refusal (ℕ × List ℕ)
advance_varint buf = elim (Varint.read_varint buf) [
  | err e ↦ err (varint_of e)
  | ok (value, consumed) ↦ ok (value, drop consumed buf)
]

pub record PackEntryHeader : Type 0 where
  pub sha : List ℕ
  pub kind : Kind
  pub base : Option (List ℕ)
  pub length : ℕ
  pub compressed_len : ℕ

abbrev pub delta_flag : ℕ
delta_flag = 0x80

-- The kind byte, and the base's id behind it for a delta.
unfoldable pub put_base : Kind → Option (List ℕ) → List ℕ
unfolding encode_kind
put_base kind none = encode_kind kind ∷ []
put_base kind (some base) = bit_or (encode_kind kind) delta_flag ∷ base

unfoldable pub encode_pack_entry_header : PackEntryHeader → Result Refusal (List ℕ)
encode_pack_entry_header header =
    let buf =
      write_varint
        (write_varint (0 ∷ (header.sha ++ put_base header.kind header.base)) header.length)
        header.compressed_len in
    let body_len = length buf - 1 in
    if ltb body_len 256 then ok (set buf 0 body_len) else err (header_too_large body_len)

unfoldable pub has_pack_entry_header : List ℕ → Bool
has_pack_entry_header [] = false
has_pack_entry_header (header_length ∷ rest) = leb header_length (length rest)

-- The base's id, if the flag says that there is one.
unfoldable pub read_base : ℕ → List ℕ → Result Refusal (Option (List ℕ) × List ℕ)
unfolding split_bytes
read_base kind_byte body =
    let read = (do (base, body) ← split_bytes 20 too_short_for_base body; ok (some base, body)) in
    if bit_and kind_byte delta_flag == 0 then ok (none, body) else read

unfoldable pub is_empty : List ℕ → Bool
is_empty [] = true
is_empty (b ∷ body) = false

unfoldable pub decode_pack_entry_header : List ℕ → Result Refusal (PackEntryHeader × ℕ)
decode_pack_entry_header buf = do
  (header_length, buf) ← read_word 1 empty_buffer buf
  (body, rest) ← split_bytes header_length shorter_than_header_length buf
  (sha, body) ← split_bytes 20 too_short_for_sha body
  (kind_byte, body) ← read_word 1 too_short_for_kind body
  kind ← decode_kind (bit_and kind_byte 0x7f)
  (base, body) ← read_base kind_byte body
  (length, body) ← advance_varint body
  (compressed_len, body) ← advance_varint body
  guard (is_empty body) trailing_bytes
  ok (
    record {
      sha = sha;
      kind = kind;
      base = base;
      length = length;
      compressed_len = compressed_len;
    },
    1 + header_length,
  )

pub record PackTrailerEntry : Type 0 where
  pub sha : List ℕ
  pub kind : Kind
  pub length : ℕ
  pub offset : ℕ
  pub entry_len : ℕ

-- The first blob's offset, if there is one.
unfoldable pub first_blob : List PackTrailerEntry → Option ℕ
first_blob [] = none
first_blob (e ∷ entries) =
    let rest = first_blob entries in
    elim e.kind [ commit ↦ rest | tree ↦ rest | blob ↦ some e.offset | tag ↦ rest ]

-- The end of the last entry, or of the file's header.
unfoldable pub last_end : ℕ → List PackTrailerEntry → ℕ
last_end end [] = end
last_end end (e ∷ entries) = last_end ((e.offset + e.entry_len) % 2 ^ 64) entries

unfoldable pub blob_section_offset : List PackTrailerEntry → ℕ
unfolding first_blob last_end
blob_section_offset entries = elim (first_blob entries) [
  | none ↦ last_end 12 entries
  | some offset ↦ offset
]

unfoldable pub put_entry : PackTrailerEntry → List ℕ
unfolding encode_kind to_be_bytes
put_entry e =
    e.sha
    ++ (encode_kind e.kind
        ∷ (to_be_bytes 8 e.length ++ (to_be_bytes 8 e.offset ++ to_be_bytes 8 e.entry_len)))

unfoldable pub put_entries : List PackTrailerEntry → List ℕ
unfolding put_entry
put_entries [] = []
put_entries (e ∷ entries) = put_entry e ++ put_entries entries

unfoldable pub encode_pack_trailer : List PackTrailerEntry → List ℕ
unfolding put_entries to_be_bytes
encode_pack_trailer entries =
    to_be_bytes 4 (if ltb (length entries) (2 ^ 32) then length entries else 2 ^ 32 - 1)
    ++ put_entries entries

-- One round of the loop of `decode_pack_trailer`.
unfoldable pub read_entry : List ℕ → Result Refusal (PackTrailerEntry × List ℕ)
read_entry raw = do
  (sha, raw) ← split_bytes 20 sha_out_of_bounds raw
  (kind_byte, raw) ← read_word 1 kind_out_of_bounds raw
  kind ← decode_kind kind_byte
  (length, raw) ← read_word 8 length_out_of_bounds raw
  (offset, raw) ← read_word 8 offset_out_of_bounds raw
  (entry_len, raw) ← read_word 8 entry_len_out_of_bounds raw
  ok (
    record { sha = sha; kind = kind; length = length; offset = offset; entry_len = entry_len },
    raw,
  )

unfoldable pub read_entries : ℕ → List ℕ → Result Refusal (List PackTrailerEntry)
read_entries zero raw = ok []
read_entries (suc count) raw = do
  (e, raw) ← read_entry raw
  entries ← read_entries count raw
  ok (e ∷ entries)

unfoldable pub decode_pack_trailer : List ℕ → Result Refusal (List PackTrailerEntry)
decode_pack_trailer raw = do
  (count, rest) ← read_word 4 too_short_for_count raw
  guard (length raw == 4 + count * trailer_entry_len)
      (length_mismatch (length raw) (4 + count * trailer_entry_len))
  read_entries count rest
