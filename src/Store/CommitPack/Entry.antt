-- ===== src/Store/CommitPack/Entry.antt =====
-- The inline header of an entry.
use enroute.Prelude.{
  ℕ, suc, ◌-◌, ◌≤◌, ◌<◌, ◌≡◌, refl, sym, ap, ◌∙◌, bit_and, bit_or, true, Option, none, some, List,
  [], ◌∷◌, ◌++◌, append-nil, append_assoc, ltb, le→leb, length, length-append, ok, err,
  if◌then◌else◌, guard, arith,
}
use enroute.Packfile.Format.{Kind, commit, tree, blob, tag}
use enroute.Packfile.Varint.{IsU64, write_varint}
use enroute.Packfile.Varint.RoundTrip.{write_varint_shape}
use enroute.Store.CommitPack.{
  too_short_for_kind, header_too_large, PackEntryHeader, encode_kind, decode_kind, put_base,
  read_base, is_empty, encode_pack_entry_header, has_pack_entry_header, decode_pack_entry_header,
  advance_varint,
}
use enroute.Store.CommitPack.Reads.{split_bytes-append, read_word_one, advance_varint-write}

-- An object id, where there is one.
abbrev pub IsBase : Option (List ℕ) → Type 0
IsBase none = Unit {0}
IsBase (some base) = length base ≡ 20

pub record IsHeader (header : PackEntryHeader) : Type 0 where
  pub sha : length header.sha ≡ 20
  pub base : IsBase header.base
  pub length : IsU64 header.length
  pub compressed_len : IsU64 header.compressed_len

-- The kind byte that stands before a base.
abbrev kind_byte : Kind → Option (List ℕ) → ℕ
kind_byte kind none = encode_kind kind
kind_byte kind (some base) = bit_or (encode_kind kind) 0x80

abbrev base_bytes : Option (List ℕ) → List ℕ
base_bytes none = []
base_bytes (some base) = base

put_base_shape :
    (kind : Kind) (base : Option (List ℕ))
    → put_base kind base ≡ kind_byte kind base ∷ base_bytes base
unfolding put_base
put_base_shape kind none = refl
put_base_shape kind (some base) = refl

decode_kind_byte :
    (kind : Kind) (base : Option (List ℕ))
    → decode_kind (bit_and (kind_byte kind base) 0x7f) ≡ ok kind
unfolding decode_kind encode_kind
decode_kind_byte commit none = refl
decode_kind_byte tree none = refl
decode_kind_byte blob none = refl
decode_kind_byte tag none = refl
decode_kind_byte commit (some base) = refl
decode_kind_byte tree (some base) = refl
decode_kind_byte blob (some base) = refl
decode_kind_byte tag (some base) = refl

read_base-base_bytes :
    (kind : Kind) (base : Option (List ℕ)) (back : List ℕ)
    → IsBase base
    → read_base (kind_byte kind base) (base_bytes base ++ back) ≡ ok (base, back)
unfolding read_base encode_kind
read_base-base_bytes commit none back h = refl
read_base-base_bytes tree none back h = refl
read_base-base_bytes blob none back h = refl
read_base-base_bytes tag none back h = refl
read_base-base_bytes commit (some base) back h = rw (split_bytes-append 20 _ base back h)
read_base-base_bytes tree (some base) back h = rw (split_bytes-append 20 _ base back h)
read_base-base_bytes blob (some base) back h = rw (split_bytes-append 20 _ base back h)
read_base-base_bytes tag (some base) back h = rw (split_bytes-append 20 _ base back h)

-- What follows the length byte.
abbrev body_of : PackEntryHeader → List ℕ
body_of header =
    header.sha
    ++ (kind_byte header.kind header.base
        ∷ (base_bytes header.base
            ++ (write_varint [] header.length ++ write_varint [] header.compressed_len)))

length-base_bytes : (base : Option (List ℕ)) → IsBase base → length (base_bytes base) ≤ 20
length-base_bytes none h = omega arith
length-base_bytes (some base) h = omega (arith, h)

module _ (header : PackEntryHeader) (h : IsHeader header) where
  length-body_of : length (body_of header) ≤ 61
  length-body_of = omega (
    arith,
    length-append header.sha (
        kind_byte header.kind header.base
        ∷ (base_bytes header.base
            ++ (write_varint [] header.length ++ write_varint [] header.compressed_len))),
    length-append (base_bytes header.base)
        (write_varint [] header.length ++ write_varint [] header.compressed_len),
    length-append (write_varint [] header.length) (write_varint [] header.compressed_len),
    length-base_bytes header.base h.base,
    (write_varint_shape [] header.length h.length).3,
    (write_varint_shape [] header.compressed_len h.compressed_len).3,
    h.sha,
  )

  buffer :
      write_varint
        (write_varint (0 ∷ (header.sha ++ put_base header.kind header.base)) header.length)
        header.compressed_len
      ≡ 0 ∷ body_of header
  buffer =
      let front = 0 ∷ (header.sha ++ put_base header.kind header.base) in
      (write_varint_shape (write_varint front header.length) header.compressed_len
        h.compressed_len).0
      ∙ ap (λ (bs : List ℕ). bs ++ write_varint [] header.compressed_len)
          (write_varint_shape front header.length h.length).0
      ∙ append_assoc front (write_varint [] header.length) (write_varint [] header.compressed_len)
      ∙ ap (λ (bs : List ℕ). 0 ∷ bs)
          (append_assoc header.sha (put_base header.kind header.base)
              (write_varint [] header.length ++ write_varint [] header.compressed_len)
            ∙ ap
                (λ (bs : List ℕ).
                  header.sha
                  ++ (bs
                      ++ (write_varint [] header.length ++ write_varint [] header.compressed_len)))
                (put_base_shape header.kind header.base))

  encoded : encode_pack_entry_header header ≡ ok (length (body_of header) ∷ body_of header)
  unfolding encode_pack_entry_header
  encoded = rw buffer (small (length (body_of header)) (omega (arith, length-body_of)))
    where
      small :
          (n : ℕ)
          → n < 256
          → (if ltb (suc n - 1) 256
              then ok ((suc n - 1) ∷ body_of header)
              else err (header_too_large (suc n - 1)))
            ≡ ok (n ∷ body_of header)
      small n h = ground arith

  decoded :
      (rest : List ℕ)
      → decode_pack_entry_header (length (body_of header) ∷ (body_of header ++ rest))
        ≡ ok (header, suc (length (body_of header)))
  unfolding decode_pack_entry_header guard is_empty
  decoded rest =
      rw
        (
          read_word_one (length (body_of header)) _ (body_of header ++ rest),
          split_bytes-append (length (body_of header)) _ (body_of header) rest refl,
          split_bytes-append 20 _ header.sha _ h.sha,
          read_word_one (kind_byte header.kind header.base) too_short_for_kind _,
          decode_kind_byte header.kind header.base,
          read_base-base_bytes header.kind header.base _ h.base,
          advance_varint-write header.length _ h.length,
          back,
        )
        (ap (λ (n : ℕ). ok (header, n)) (omega arith))
    where
      back : advance_varint (write_varint [] header.compressed_len) ≡ ok (header.compressed_len, [])
      back =
          ap advance_varint (sym (append-nil (write_varint [] header.compressed_len)))
          ∙ advance_varint-write header.compressed_len [] h.compressed_len

-- The header of an entry is encoded in at most 62 bytes, a reader sees that it is whole, and decoding
-- gives the header and its size, whatever bytes follow.
pub decode_pack_entry_header-encode :
    (header : PackEntryHeader) (rest : List ℕ)
    → IsHeader header
    → (bytes : List ℕ) × (encode_pack_entry_header header ≡ ok bytes)
      × (length bytes ≤ 62)
      × (has_pack_entry_header (bytes ++ rest) ≡ true)
      × (decode_pack_entry_header (bytes ++ rest) ≡ ok (header, length bytes))
unfolding has_pack_entry_header
decode_pack_entry_header-encode header rest h = (
  length (body_of header) ∷ body_of header,
  encoded header h,
  omega (arith, length-body_of header h),
  le→leb (length (body_of header)) (length (body_of header ++ rest))
      (omega (arith, length-append (body_of header) rest)),
  decoded header h rest,
)
