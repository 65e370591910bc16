-- ===== src/Store/CommitPack/Trailer.antt =====
-- The trailer of a file, and the file around it.
use enroute.Prelude.{
  ℕ, ◌+◌, ◌-◌, ◌*◌, ◌^◌, ◌≤◌, ◌<◌, ◌≡◌, refl, sym, ap, ◌∙◌, List, [], ◌∷◌, ◌++◌, append-nil,
  append_assoc, lt→ltb, eq→==, length, length-append, drop, drop_front, ok, guard, All, to_be_bytes,
  length-to_be_bytes, arith,
}
use enroute.Packfile.Varint.{IsU64}
use enroute.Prelude.Bytes.{bytes_eq}
use enroute.Store.CommitPack.{
  too_short_for_count, too_short_for_header, commit_pack_magic, trailer_entry_len,
  trailer_suffix_len, encode_commit_pack_header, decode_commit_pack_header, encode_kind,
  PackTrailerEntry, put_entry, put_entries, encode_pack_trailer, read_entry, read_entries,
  decode_pack_trailer,
}
use enroute.Store.CommitPack.Reads.{
  split_bytes-append, read_word_one, read_word-to_be_bytes, decode_kind-encode_kind,
}

-- An entry of the width that the format gives it.
pub record IsEntry (e : PackTrailerEntry) : Type 0 where
  pub sha : length e.sha ≡ 20
  pub length : IsU64 e.length
  pub offset : IsU64 e.offset
  pub entry_len : IsU64 e.entry_len

length-put_entry : (e : PackTrailerEntry) → IsEntry e → length (put_entry e) ≡ trailer_entry_len
unfolding put_entry
length-put_entry e h = omega (
  arith,
  length-append e.sha (
      encode_kind e.kind
      ∷ (to_be_bytes 8 e.length ++ (to_be_bytes 8 e.offset ++ to_be_bytes 8 e.entry_len))),
  length-append (to_be_bytes 8 e.length) (to_be_bytes 8 e.offset ++ to_be_bytes 8 e.entry_len),
  length-append (to_be_bytes 8 e.offset) (to_be_bytes 8 e.entry_len),
  length-to_be_bytes 8 e.length,
  length-to_be_bytes 8 e.offset,
  length-to_be_bytes 8 e.entry_len,
  h.sha,
)

length-put_entries :
    (entries : List PackTrailerEntry)
    → All IsEntry entries
    → length (put_entries entries) ≡ length entries * trailer_entry_len
unfolding put_entries
length-put_entries [] h = refl
length-put_entries (e ∷ entries) h = omega (
  arith,
  length-append (put_entry e) (put_entries entries),
  length-put_entry e h.0,
  length-put_entries entries h.1,
)

put_entry-append :
    (e : PackTrailerEntry) (back : List ℕ)
    → put_entry e ++ back
      ≡ e.sha
        ++ (encode_kind e.kind
            ∷ (to_be_bytes 8 e.length
                ++ (to_be_bytes 8 e.offset ++ (to_be_bytes 8 e.entry_len ++ back))))
unfolding put_entry
put_entry-append e back = rw (append_assoc, append_assoc, append_assoc) refl

read_entry-put_entry :
    (e : PackTrailerEntry) (back : List ℕ)
    → IsEntry e
    → read_entry (put_entry e ++ back) ≡ ok (e, back)
unfolding read_entry
read_entry-put_entry e back h = rw (
  put_entry-append e back,
  split_bytes-append 20 _ e.sha _ h.sha,
  read_word_one (encode_kind e.kind) _ _,
  decode_kind-encode_kind e.kind,
  read_word-to_be_bytes 8 e.length _ _ (omega (arith, h.length)),
  read_word-to_be_bytes 8 e.offset _ _ (omega (arith, h.offset)),
  read_word-to_be_bytes 8 e.entry_len _ back (omega (arith, h.entry_len)),
)

read_entries-put_entries :
    (entries : List PackTrailerEntry) (back : List ℕ)
    → All IsEntry entries
    → read_entries (length entries) (put_entries entries ++ back) ≡ ok entries
unfolding read_entries put_entries
read_entries-put_entries [] back h = refl
read_entries-put_entries (e ∷ entries) back h = rw (
  append_assoc (put_entry e) (put_entries entries) back,
  read_entry-put_entry e (put_entries entries ++ back) h.0,
  read_entries-put_entries entries back h.1,
)

module _ (entries : List PackTrailerEntry) (h : All IsEntry entries)
    (few : length entries < 2 ^ 32) where
  encode_shape : encode_pack_trailer entries ≡ to_be_bytes 4 (length entries) ++ put_entries entries
  unfolding encode_pack_trailer
  encode_shape = rw (lt→ltb (length entries) (2 ^ 32) few) refl

  length-encode : length (encode_pack_trailer entries) ≡ trailer_suffix_len (length entries)
  unfolding trailer_suffix_len
  length-encode = rw encode_shape (
      omega (
        arith,
        length-append (to_be_bytes 4 (length entries)) (put_entries entries),
        length-to_be_bytes 4 (length entries),
        length-put_entries entries h,
      ))

  all_entries : read_entries (length entries) (put_entries entries) ≡ ok entries
  all_entries =
      ap (read_entries (length entries)) (sym (append-nil (put_entries entries)))
      ∙ read_entries-put_entries entries [] h

  decode-encode : decode_pack_trailer (encode_pack_trailer entries) ≡ ok entries
  unfolding decode_pack_trailer trailer_suffix_len guard
  decode-encode =
      rw
        (
          encode_shape,
          read_word-to_be_bytes 4 (length entries) too_short_for_count (put_entries entries)
              (omega arith),
          eq→== (length (to_be_bytes 4 (length entries) ++ put_entries entries))
              (4 + length entries * trailer_entry_len)
              (ap length (sym encode_shape) ∙ length-encode),
        )
        all_entries

decode_header :
    (count : ℕ) (back : List ℕ)
    → count < 2 ^ 32
    → decode_commit_pack_header (encode_commit_pack_header count ++ back) ≡ ok count
unfolding decode_commit_pack_header encode_commit_pack_header bytes_eq guard
decode_header count back h =
    rw
      (
        append_assoc commit_pack_magic (to_be_bytes 4 1 ++ to_be_bytes 4 count) back,
        append_assoc (to_be_bytes 4 1) (to_be_bytes 4 count) back,
        split_bytes-append 4 too_short_for_header commit_pack_magic
            (to_be_bytes 4 1 ++ (to_be_bytes 4 count ++ back)) refl,
        read_word-to_be_bytes 4 1 too_short_for_header (to_be_bytes 4 count ++ back) (omega arith),
        read_word-to_be_bytes 4 count too_short_for_header back (omega arith),
      )
      refl

-- In a file of a header, entries and a trailer, the header tells the count of objects; the trailer is
-- as many bytes at the end as `trailer_suffix_len` makes of that; and decoding those gives its entries.
pub trailer-of-file :
    (entries : List PackTrailerEntry) (body : List ℕ)
    → All IsEntry entries
    → length entries < 2 ^ 32
    → (file : List ℕ) × (file
        ≡ encode_commit_pack_header (length entries) ++ (body ++ encode_pack_trailer entries))
      × (decode_commit_pack_header file ≡ ok (length entries))
      × (trailer_suffix_len (length entries) ≤ length file)
      × (decode_pack_trailer (drop (length file - trailer_suffix_len (length entries)) file)
          ≡ ok entries)
trailer-of-file entries body h few = (
  encode_commit_pack_header (length entries) ++ (body ++ encode_pack_trailer entries),
  refl,
  decode_header (length entries) (body ++ encode_pack_trailer entries) few,
  omega (arith, total),
  ap decode_pack_trailer suffix ∙ decode-encode entries h few,
)
  where
    header : List ℕ
    header = encode_commit_pack_header (length entries)

    trailer : List ℕ
    trailer = encode_pack_trailer entries

    total :
        length (header ++ (body ++ trailer))
        ≡ length (header ++ body) + trailer_suffix_len (length entries)
    total = omega (
      arith,
      length-append header (body ++ trailer),
      length-append body trailer,
      length-append header body,
      length-encode entries h few,
    )

    suffix :
        drop
          (length (header ++ (body ++ trailer)) - trailer_suffix_len (length entries))
          (header ++ (body ++ trailer))
        ≡ trailer
    suffix =
        ap
          (λ (bs : List ℕ).
            drop (length (header ++ (body ++ trailer)) - trailer_suffix_len (length entries)) bs)
          (sym (append_assoc header body trailer))
        ∙ drop_front (length (header ++ (body ++ trailer)) - trailer_suffix_len (length entries))
            (header ++ body) trailer (omega (arith, total))
