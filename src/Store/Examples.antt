-- ===== src/Store/Examples.antt =====
-- The theorems on commit packs at concrete inputs.
use enroute.Prelude.{
  ℕ, ◌-◌, ◌≤◌, ◌≡◌, refl, true, some, List, [], ◌∷◌, ◌++◌, length, drop, replicate, All, arith, ok,
}
use enroute.Packfile.Format.{tree, blob}
use enroute.Store.CommitPack.{
  PackEntryHeader, PackTrailerEntry, encode_pack_entry_header, has_pack_entry_header,
  decode_pack_entry_header, encode_commit_pack_header, decode_commit_pack_header,
  trailer_suffix_len, encode_pack_trailer, decode_pack_trailer,
}
use enroute.Store.CommitPack.Entry.{IsHeader, decode_pack_entry_header-encode}
use enroute.Store.CommitPack.Trailer.{IsEntry, trailer-of-file}

-- A blob of 300 bytes against a base.
abbrev header : PackEntryHeader
header = record {
  sha = replicate 20 7;
  kind = blob;
  base = some (replicate 20 9);
  length = 300;
  compressed_len = 129;
}

header-IsHeader : IsHeader header
header-IsHeader = record {
  sha = refl;
  base = refl;
  length = omega arith;
  compressed_len = omega arith;
}

decode_pack_entry_header-encode_example :
    (bytes : List ℕ) × (encode_pack_entry_header header ≡ ok bytes)
    × (length bytes ≤ 62)
    × (has_pack_entry_header (bytes ++ (1 ∷ 2 ∷ [])) ≡ true)
    × (decode_pack_entry_header (bytes ++ (1 ∷ 2 ∷ [])) ≡ ok (header, length bytes))
decode_pack_entry_header-encode_example =
    decode_pack_entry_header-encode header (1 ∷ 2 ∷ []) header-IsHeader

abbrev entries : List PackTrailerEntry
entries =
    record { sha = replicate 20 1; kind = tree; length = 40; offset = 12; entry_len = 30 }
    ∷ record { sha = replicate 20 7; kind = blob; length = 300; offset = 42; entry_len = 170 }
    ∷ []

entries-IsEntry : All IsEntry entries
entries-IsEntry = (
  record { sha = refl; length = omega arith; offset = omega arith; entry_len = omega arith },
  (record { sha = refl; length = omega arith; offset = omega arith; entry_len = omega arith }, tt),
)

trailer-of-file_example :
    (file : List ℕ) × (file
      ≡ encode_commit_pack_header (length entries)
        ++ ((1 ∷ 2 ∷ 3 ∷ []) ++ encode_pack_trailer entries))
    × (decode_commit_pack_header file ≡ ok (length entries))
    × (trailer_suffix_len (length entries) ≤ length file)
    × (decode_pack_trailer (drop (length file - trailer_suffix_len (length entries)) file)
        ≡ ok entries)
trailer-of-file_example = trailer-of-file entries (1 ∷ 2 ∷ 3 ∷ []) entries-IsEntry (omega arith)
