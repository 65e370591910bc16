-- ===== src/Packfile/Examples.antt =====
-- The theorems on crates/git/packfile at concrete inputs.
use enroute.Prelude.{
  ℕ, ◌+◌, ◌*◌, ◌%◌, ◌^◌, ◌≤◌, ◌<◌, ◌≡◌, ◌≢◌, refl, some, List, [], ◌∷◌, ◌++◌, ok, length, Ensures,
  arith,
}
use enroute.Packfile.Errors.{out_of_fuel}
use enroute.Packfile.Format.{tree, full, max_object_bytes}
use enroute.Packfile.Varint.{IsU64, read_loop, read_varint, write_varint}
use enroute.Packfile.Varint.Bounds.{read_varint_takes}
use enroute.Packfile.Varint.RoundTrip.{read-write}
use enroute.Packfile.Varint.Rejects.{read_overrun}
use enroute.Packfile.Delta.Apply.{apply_delta}
use enroute.Packfile.Delta.Apply.Total.{apply_delta_total}
use enroute.Packfile.Delta.Encode.{encode_delta}
use enroute.Packfile.Delta.RoundTrip.{apply-encode}
use enroute.Packfile.Reader.{
  PackReader, read_pack_header, read_entry_header, distance_loop, advanced,
}
use enroute.Packfile.Reader.Consumes.{read_entry_header_reads, Takes}
use enroute.Packfile.Writer.{write_pack_header}
use enroute.Packfile.Headers.{
  read_pack_header-write, read_entry_header-full, header_bytes, type_id_of,
}
use enroute.Packfile.Overruns.{distance_overrun}

abbrev old_text : List ℕ
old_text = 1 ∷ 2 ∷ 3 ∷ 4 ∷ 5 ∷ 6 ∷ 7 ∷ 8 ∷ 9 ∷ 10 ∷ 11 ∷ 12 ∷ 13 ∷ 14 ∷ 15 ∷ 16 ∷ 17 ∷ 18 ∷ []

abbrev new_text : List ℕ
new_text = 99 ∷ 1 ∷ 2 ∷ 3 ∷ 4 ∷ 5 ∷ 6 ∷ 7 ∷ 8 ∷ 9 ∷ 10 ∷ 11 ∷ 12 ∷ 13 ∷ 14 ∷ 15 ∷ 16 ∷ 17 ∷ 77 ∷ []

apply-encode_example :
    (delta : List ℕ) × (encode_delta old_text new_text ≡ ok delta)
    × (apply_delta old_text delta ≡ ok new_text)
apply-encode_example = apply-encode old_text new_text (omega arith) (omega arith)

apply_delta_total_example :
    Ensures
      (λ (result : List ℕ). length result ≤ max_object_bytes)
      (λ e. e ≢ out_of_fuel)
      (apply_delta old_text (18 ∷ 3 ∷ 0x91 ∷ 4 ∷ 3 ∷ []))
apply_delta_total_example = apply_delta_total old_text (18 ∷ 3 ∷ 0x91 ∷ 4 ∷ 3 ∷ [])

read-write_example :
    read_varint (write_varint [] 300 ++ (7 ∷ [])) ≡ ok (300, length (write_varint [] 300))
read-write_example = read-write 300 (7 ∷ []) (omega arith)

read_varint_takes_example : IsU64 300 × (1 ≤ 2) × (2 ≤ length {A = ℕ} (172 ∷ 2 ∷ 9 ∷ [])) × (2 ≤ 10)
unfolding read_varint read_loop
read_varint_takes_example = read_varint_takes (172 ∷ 2 ∷ 9 ∷ []) 300 2 refl

abbrev nine : List ℕ
nine = 128 ∷ 128 ∷ 128 ∷ 128 ∷ 128 ∷ 128 ∷ 128 ∷ 128 ∷ 129 ∷ []

read_overrun_example :
    (v : ℕ) × (read_varint (nine ++ (3 ∷ [])) ≡ ok (v, 10))
    × (read_varint (nine ++ ((3 % 2) ∷ [])) ≡ ok (v, 10))
read_overrun_example =
    read_overrun nine [] 3
      (
        (omega arith, omega arith),
        (
          (omega arith, omega arith),
          (
            (omega arith, omega arith),
            (
              (omega arith, omega arith),
              (
                (omega arith, omega arith),
                (
                  (omega arith, omega arith),
                  (
                    (omega arith, omega arith),
                    ((omega arith, omega arith), ((omega arith, omega arith), tt)),
                  ),
                ),
              ),
            ),
          ),
        ),
      )
      refl (omega arith)

-- A reader that keeps what it takes, in front of some bytes.
abbrev before : List ℕ → PackReader
before bytes = record { inner = bytes; kept = some []; hashed = []; offset = 0 }

read_entry_header_reads_example :
    Ensures
      (λ p. Takes 1 (before (0xb5 ∷ 0x0a ∷ 1 ∷ [])) p.1)
      (λ e. e ≢ out_of_fuel)
      (read_entry_header (before (0xb5 ∷ 0x0a ∷ 1 ∷ [])))
read_entry_header_reads_example = read_entry_header_reads (before (0xb5 ∷ 0x0a ∷ 1 ∷ []))

abbrev tree_header : List ℕ
tree_header = header_bytes (type_id_of tree) 300 ++ (1 ∷ [])

read_entry_header-full_example :
    read_entry_header (before tree_header)
    ≡ ok (
      (full tree, 300),
      advanced (header_bytes (type_id_of tree) 300) (1 ∷ []) (before tree_header),
    )
read_entry_header-full_example =
    read_entry_header-full (before tree_header) tree 300 (1 ∷ []) (omega arith) refl

read_pack_header-write_example :
    read_pack_header (before (write_pack_header 3 [] ++ (9 ∷ [])))
    ≡ ok (
      3,
      advanced (write_pack_header 3 []) (9 ∷ []) (before (write_pack_header 3 [] ++ (9 ∷ []))),
    )
read_pack_header-write_example =
    read_pack_header-write (before (write_pack_header 3 [] ++ (9 ∷ []))) 3 (9 ∷ []) (omega arith)
      refl

distance_overrun_example :
    (d : ℕ) × (distance_loop 1 0x80 (2 ^ 60) (before (5 ∷ []))
      ≡ ok (d, advanced (5 ∷ []) [] (before (5 ∷ []))))
    × (d < 2 ^ 64)
    × (((2 ^ 60 + 1) * 128 + 5) % 2 ^ 64 ≡ d)
distance_overrun_example =
    distance_overrun 0 0x80 (2 ^ 60) 5 (before (5 ∷ [])) [] (omega arith) refl (omega arith)
      (omega arith) (omega arith)
