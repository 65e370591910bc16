-- ===== src/Retrieve/Coalesce/Chunks.antt =====
-- The chunks of one stream, written one after another.
use enroute.Prelude.{
  ℕ, ◌+◌, ◌≤◌, ◌≡◌, sym, ◌∙◌, List, [], ◌∷◌, ◌++◌, append-nil, append_assoc, length, length-append,
  arith,
}
use enroute.Retrieve.Coalesce.{u64_max, add64, copy_chunks}

-- The bytes of a stream.
unfoldable pub bytes_of : List (List ℕ) → List ℕ
bytes_of [] = []
bytes_of (chunk ∷ chunks) = chunk ++ bytes_of chunks

pub copy_chunks_out :
    (chunks : List (List ℕ)) (written : ℕ) (out : List ℕ)
    → (copy_chunks written out chunks).1 ≡ out ++ bytes_of chunks
unfolding copy_chunks bytes_of
copy_chunks_out [] written out = sym (append-nil out)
copy_chunks_out (chunk ∷ chunks) written out =
    copy_chunks_out chunks (add64 written (length chunk)) (out ++ chunk)
    ∙ append_assoc out chunk (bytes_of chunks)

pub add64_exact : (a b : ℕ) → a + b ≤ u64_max → add64 a b ≡ a + b
unfolding add64
add64_exact a b h = omega (arith, h)

pub copy_chunks_written :
    (chunks : List (List ℕ)) (written : ℕ) (out : List ℕ)
    → written + length (bytes_of chunks) ≤ u64_max
    → (copy_chunks written out chunks).0 ≡ written + length (bytes_of chunks)
unfolding copy_chunks bytes_of
copy_chunks_written [] written out h = omega arith
copy_chunks_written (chunk ∷ chunks) written out h = omega (
  arith,
  h,
  length-append chunk (bytes_of chunks),
  add64_exact written (length chunk) (omega (arith, h, length-append chunk (bytes_of chunks))),
  copy_chunks_written chunks (add64 written (length chunk)) (out ++ chunk) (
      omega (
        arith,
        h,
        length-append chunk (bytes_of chunks),
        add64_exact written (length chunk)
            (omega (arith, h, length-append chunk (bytes_of chunks))),
      )),
)
