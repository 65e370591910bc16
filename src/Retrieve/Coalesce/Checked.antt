-- ===== src/Retrieve/Coalesce/Checked.antt =====
-- What a source whose copying goes on has passed.
use mathlib.Core.Bool.{true≢false}
use enroute.Prelude.{
  ℕ, ◌-◌, ◌≡◌, refl, sym, ap, ◌∙◌, Bool, true, false, not, ◌||◌, Option, none, some, Option-cases,
  Bool-cases, inl, inr, List, ◌∷◌, ◌==◌, ==_iff, if◌then◌else◌, Result, ok, err,
}
use enroute.Retrieve.Coalesce.{Source, CopyError, missing, streamed_wrong, copy_chunks, copy_loop}

-- The three ways that a source goes.
pub data Goes (stream : ℕ → Option (List (List ℕ))) (s : Source) (sources : List Source)
    (written : ℕ) (out : List ℕ) (done : ℕ × List ℕ) : Type 0 where
  goes_on :
      (chunks : List (List ℕ))
      → stream s.id ≡ some chunks
      → written ≡ s.shift
      → (copy_chunks written out chunks).0 - written ≡ s.bytes
      → copy_loop stream sources
          (copy_chunks written out chunks).0
          (copy_chunks written out chunks).1
        ≡ ok done
      → Goes stream s sources written out done

unfoldable pub is_ok : Result CopyError (ℕ × List ℕ) → Bool
is_ok (ok a) = true
is_ok (err e) = false

pub copy_missing :
    (stream : ℕ → Option (List (List ℕ))) (s : Source) (sources : List Source) (written : ℕ)
    (out : List ℕ)
    → stream s.id ≡ none
    → copy_loop stream (s ∷ sources) written out ≡ err (missing s.id)
unfolding copy_loop
copy_missing stream s sources written out e = rw (e, copy_loop) refl

-- What a stream that is there comes to.
unfoldable pub checked :
    ℕ → Source → ℕ → Result CopyError (ℕ × List ℕ) → Result CopyError (ℕ × List ℕ)
checked written s streamed rest =
    if not (written == s.shift) || not (streamed == s.bytes)
    then err (streamed_wrong s.id streamed written)
    else rest

pub copy_found :
    (stream : ℕ → Option (List (List ℕ))) (s : Source) (sources : List Source) (written : ℕ)
    (out : List ℕ) (chunks : List (List ℕ))
    → stream s.id ≡ some chunks
    → copy_loop stream (s ∷ sources) written out
      ≡ checked written s ((copy_chunks written out chunks).0 - written) (
          copy_loop stream sources
            (copy_chunks written out chunks).0
            (copy_chunks written out chunks).1)
unfolding copy_loop checked
copy_found stream s sources written out chunks e = rw (e, copy_loop) refl

pub checked_passes :
    (written : ℕ) (s : Source) (streamed : ℕ) (rest : Result CopyError (ℕ × List ℕ))
    (done : ℕ × List ℕ)
    → checked written s streamed rest ≡ ok done
    → (written ≡ s.shift) × (streamed ≡ s.bytes) × (rest ≡ ok done)
unfolding checked is_ok
checked_passes written s streamed rest done h = elim (Bool-cases (written == s.shift)) [
  | inr p ↦ absurd (true≢false (ap is_ok (sym h ∙ misplaced p)))
  | inl p ↦ elim (Bool-cases (streamed == s.bytes)) [
    | inr q ↦ absurd (true≢false (ap is_ok (sym h ∙ mismeasured p q)))
    | inl q ↦ ((==_iff written s.shift).0 p, (==_iff streamed s.bytes).0 q, sym (passed p q) ∙ h)
  ]
]
  where
    misplaced :
        (written == s.shift) ≡ false
        → checked written s streamed rest ≡ err (streamed_wrong s.id streamed written)
    misplaced p = rw p refl

    mismeasured :
        (written == s.shift) ≡ true
        → (streamed == s.bytes) ≡ false
        → checked written s streamed rest ≡ err (streamed_wrong s.id streamed written)
    mismeasured p q = rw (p, q) refl

    passed :
        (written == s.shift) ≡ true
        → (streamed == s.bytes) ≡ true
        → checked written s streamed rest ≡ rest
    passed p q = rw (p, q) refl

pub goes :
    (stream : ℕ → Option (List (List ℕ))) (s : Source) (sources : List Source) (written : ℕ)
    (out : List ℕ) (done : ℕ × List ℕ)
    → copy_loop stream (s ∷ sources) written out ≡ ok done
    → Goes stream s sources written out done
unfolding is_ok
goes stream s sources written out done h = elim (Option-cases (stream s.id)) [
  | inl e ↦ absurd (true≢false (ap is_ok (sym h ∙ copy_missing stream s sources written out e)))
  | inr (chunks, e) ↦
      let p =
        checked_passes written s _ _ done
          (sym (copy_found stream s sources written out chunks e) ∙ h) in
      goes_on chunks e p.0 p.1 p.2
]
