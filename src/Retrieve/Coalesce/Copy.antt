-- ===== src/Retrieve/Coalesce/Copy.antt =====
-- The copy holds every source's bytes where the plan says.
use mathlib.Core.Path.{subst}
use enroute.Prelude.{
  ℕ, ◌+◌, ◌-◌, ◌≤◌, ◌≡◌, refl, sym, ap, ◌∙◌, Option, some, List, [], ◌∷◌, ◌++◌, append-nil,
  append_assoc, length, length-append, All, arith, Result, ok, err,
}
use enroute.Retrieve.Coalesce.{Source, u64_max, CopyError, copy_chunks, copy_loop, copy}
use enroute.Retrieve.Coalesce.Chunks.{bytes_of, copy_chunks_out, copy_chunks_written}
use enroute.Retrieve.Coalesce.Checked.{goes, goes_on}

-- A source's bytes stand in the copy, from its shift on.
pub data IsCopied (stream : ℕ → Option (List (List ℕ))) (out : List ℕ) (s : Source) : Type 0 where
  copied :
      (chunks : List (List ℕ)) (front back : List ℕ)
      → stream s.id ≡ some chunks
      → out ≡ front ++ (bytes_of chunks ++ back)
      → length front ≡ s.shift
      → length (bytes_of chunks) ≡ s.bytes
      → IsCopied stream out s

-- What a copy that ends well is.
pub record IsCopy (stream : ℕ → Option (List (List ℕ))) (sources : List Source) (out : List ℕ)
    (done : ℕ × List ℕ) : Type 0 where
  pub tail : List ℕ
  pub follows : done.1 ≡ out ++ tail
  pub measured : done.0 ≡ length done.1
  pub sources_in : All (IsCopied stream done.1) sources

done_of : (done : ℕ × List ℕ) → Result CopyError (ℕ × List ℕ) → ℕ × List ℕ
done_of done (ok a) = a
done_of done (err e) = done

nothing_left :
    (stream : ℕ → Option (List (List ℕ))) (written : ℕ) (out : List ℕ) (done : ℕ × List ℕ)
    → copy_loop stream [] written out ≡ ok done
    → (written, out) ≡ done
unfolding copy_loop done_of
nothing_left stream written out done h = ap (done_of done) h

-- What is written stays.
prefix :
    (sources : List Source) (stream : ℕ → Option (List (List ℕ))) (written : ℕ) (out : List ℕ)
    (done : ℕ × List ℕ)
    → copy_loop stream sources written out ≡ ok done
    → (tail : List ℕ) × (done.1 ≡ out ++ tail)
prefix [] stream written out done h =
    ([], ap (λ d. d.1) (sym (nothing_left stream written out done h)) ∙ sym (append-nil out))
prefix (s ∷ sources) stream written out done h = elim (goes stream s sources written out done h) [
  | goes_on chunks e p q r ↦
      let t = prefix sources stream _ _ done r in
      (
        bytes_of chunks ++ t.0,
        t.1
            ∙ ap (λ o. o ++ t.0) (copy_chunks_out chunks written out)
            ∙ append_assoc out (bytes_of chunks) t.0,
      )
]

nothing-IsCopy :
    (stream : ℕ → Option (List (List ℕ))) (written : ℕ) (out : List ℕ)
    → written ≡ length out
    → IsCopy stream [] out (written, out)
nothing-IsCopy stream written out h = record {
  tail = [];
  follows = sym (append-nil out);
  measured = h;
  sources_in = tt;
}

more-IsCopy :
    (stream : ℕ → Option (List (List ℕ))) (s : Source) (sources : List Source) (written : ℕ)
    (out : List ℕ) (done : ℕ × List ℕ) (chunks : List (List ℕ))
    → stream s.id ≡ some chunks
    → written ≡ length out
    → written ≡ s.shift
    → (copy_chunks written out chunks).0 - written ≡ s.bytes
    → (copy_chunks written out chunks).0 ≡ length out + length (bytes_of chunks)
    → IsCopy stream sources (copy_chunks written out chunks).1 done
    → IsCopy stream (s ∷ sources) out done
more-IsCopy stream s sources written out done chunks e m p q n r = record {
  tail = bytes_of chunks ++ r.tail;
  follows = whole;
  measured = r.measured;
  sources_in =
      (copied chunks out r.tail e whole (sym m ∙ p) (omega (arith, m, q, n)), r.sources_in);
}
  where
    whole : done.1 ≡ out ++ (bytes_of chunks ++ r.tail)
    whole =
        r.follows
        ∙ ap (λ o. o ++ r.tail) (copy_chunks_out chunks written out)
        ∙ append_assoc out (bytes_of chunks) r.tail

copy_loop-IsCopy :
    (sources : List Source) (stream : ℕ → Option (List (List ℕ))) (written : ℕ) (out : List ℕ)
    (done : ℕ × List ℕ)
    → written ≡ length out
    → length done.1 ≤ u64_max
    → copy_loop stream sources written out ≡ ok done
    → IsCopy stream sources out done
copy_loop-IsCopy [] stream written out done m u h =
    subst (IsCopy stream [] out) (nothing_left stream written out done h)
      (nothing-IsCopy stream written out m)
copy_loop-IsCopy (s ∷ sources) stream written out done m u h =
    elim (goes stream s sources written out done h) [
      | goes_on chunks e p q r ↦
          let t = prefix sources stream _ _ done r in
          let n = measured chunks t.0 t.1 in
          more-IsCopy stream s sources written out done chunks e m p q n
            (copy_loop-IsCopy sources stream _ _ done (n ∙ sym (placed chunks)) u r)
    ]
  where
    placed :
        (chunks : List (List ℕ))
        → length (copy_chunks written out chunks).1 ≡ length out + length (bytes_of chunks)
    placed chunks =
        ap length (copy_chunks_out chunks written out) ∙ length-append out (bytes_of chunks)

    measured :
        (chunks : List (List ℕ)) (tail : List ℕ)
        → done.1 ≡ (copy_chunks written out chunks).1 ++ tail
        → (copy_chunks written out chunks).0 ≡ length out + length (bytes_of chunks)
    measured chunks tail f =
        copy_chunks_written chunks written out (
          omega (
            arith,
            m,
            u,
            ap length f,
            length-append (copy_chunks written out chunks).1 tail,
            placed chunks,
          ))
        ∙ ap (λ n. n + length (bytes_of chunks)) m

-- From an empty object on: a copy that ends well has each source's bytes at the shift that was planned, and
-- is as long as it says.
pub copy-IsCopy :
    (stream : ℕ → Option (List (List ℕ))) (sources : List Source) (done : ℕ × List ℕ)
    → length done.1 ≤ u64_max
    → copy stream sources ≡ ok done
    → IsCopy stream sources [] done
unfolding copy
copy-IsCopy stream sources done u h = copy_loop-IsCopy sources stream 0 [] done refl u h
