-- ===== src/Retrieve/Coalesce/Moved.antt =====
-- An image that is moved reads as it did.
use mathlib.Core.Path.{subst}
use enroute.Prelude.{
  none≢some, some_eq, ℕ, zero, suc, ◌+◌, ◌≤◌, ◌≡◌, refl, sym, ap, ◌∙◌, true, false, Option, none,
  some, Option-cases, Bool-cases, inl, inr, List, [], ◌∷◌, ◌++◌, length, length-append, take, drop,
  ◌==◌, ==_iff, All, arith, ok,
}
use enroute.Prelude.Dict.{get, nat_key}
use enroute.Retrieve.Coalesce.{Source, SegmentLocation, u64_max, add64, copy, moved_of, relocate}
use enroute.Retrieve.Coalesce.Copy.{IsCopied, copied, copy-IsCopy}
use enroute.Retrieve.Coalesce.Chunks.{bytes_of, add64_exact}

drop_past : (front rest : List ℕ) (n : ℕ) → drop (length front + n) (front ++ rest) ≡ drop n rest
drop_past [] rest n = ap (λ (k : ℕ). drop k rest) (omega arith)
drop_past (x ∷ front) rest n =
    ap (λ (k : ℕ). drop k (x ∷ (front ++ rest))) (reassociate (length front) n)
    ∙ drop_past front rest n
  where
    reassociate : (a b : ℕ) → suc a + b ≡ suc (a + b)
    reassociate a b = omega arith

take_within :
    (body back : List ℕ) (len : ℕ) → len ≤ length body → take len (body ++ back) ≡ take len body
take_within body back zero h = refl
take_within [] back (suc len) h = absurd (omega (arith, h))
take_within (x ∷ body) back (suc len) h =
    ap (λ xs. x ∷ xs) (take_within body back len (omega (arith, h)))

-- A slice that a list has is the same with more behind the list.
slice_front :
    (body back : List ℕ) (n len : ℕ)
    → n + len ≤ length body
    → take len (drop n (body ++ back)) ≡ take len (drop n body)
slice_front body back zero len h = take_within body back len (omega (arith, h))
slice_front [] back (suc n) len h = absurd (omega (arith, h))
slice_front (x ∷ body) back (suc n) len h = slice_front body back n len (omega (arith, h))

-- The source that a segment's new place came from.
data From (P : Source → Type 0) (id into : ℕ) (to : ℕ × ℕ) : Type 0 where
  from : (s : Source) → s.id ≡ id → to ≡ (into, s.shift) → P s → From P id into to

found_here :
    (s : Source) (sources : List Source) (into id : ℕ)
    → (s.id == id) ≡ true
    → get (moved_of into (s ∷ sources)) id ≡ some (into, s.shift)
unfolding moved_of get
found_here s sources into id q = rw q refl

found_later :
    (s : Source) (sources : List Source) (into id : ℕ)
    → (s.id == id) ≡ false
    → get (moved_of into (s ∷ sources)) id ≡ get (moved_of into sources) id
unfolding moved_of get
found_later s sources into id q = rw q refl

found_nowhere : (into id : ℕ) → get (moved_of into []) id ≡ none
unfolding moved_of get
found_nowhere into id = refl

source_of :
    (sources : List Source) (P : Source → Type 0) (into id : ℕ) (to : ℕ × ℕ)
    → All P sources
    → get (moved_of into sources) id ≡ some to
    → From P id into to
source_of [] P into id to h g = absurd (none≢some (found_nowhere into id) g)
source_of (s ∷ sources) P into id to h g = elim (Bool-cases (s.id == id)) [
  | inl q ↦
      from s ((==_iff s.id id).0 q)
        (some_eq to (into, s.shift) (sym g ∙ found_here s sources into id q)) h.0
  | inr q ↦ source_of sources P into id to h.1 (sym (found_later s sources into id q) ∙ g)
]

placed_at : SegmentLocation → ℕ × ℕ → SegmentLocation
placed_at at to = record at { id = to.0; base_offset = add64 at.base_offset to.1 }

relocate_nowhere :
    (moved : List (ℕ × (ℕ × ℕ))) (at : SegmentLocation)
    → get moved at.id ≡ none
    → relocate moved at ≡ none
unfolding relocate
relocate_nowhere moved at e = rw (e, relocate) refl

relocate_found :
    (moved : List (ℕ × (ℕ × ℕ))) (at : SegmentLocation) (to : ℕ × ℕ)
    → get moved at.id ≡ some to
    → relocate moved at ≡ some (placed_at at to)
unfolding relocate placed_at
relocate_found moved at to e = rw (e, relocate) refl

-- Where an image of a source stands in a copy that has the source's bytes.
reads :
    (stream : ℕ → Option (List (List ℕ))) (done : ℕ × List ℕ) (into : ℕ) (at : SegmentLocation)
    (chunks : List (List ℕ)) (to : ℕ × ℕ)
    → length done.1 ≤ u64_max
    → stream at.id ≡ some chunks
    → at.base_offset + at.image_len ≤ length (bytes_of chunks)
    → From (IsCopied stream done.1) at.id into to
    → ((placed_at at to).id ≡ into)
      × (take (placed_at at to).image_len (drop (placed_at at to).base_offset done.1)
          ≡ take at.image_len (drop at.base_offset (bytes_of chunks)))
unfolding placed_at
reads stream done into at chunks to u e l (from s q t (copied held front back f w m n)) = (
  ap (λ p. p.0) t,
  ap (λ (k : ℕ). take at.image_len (drop k done.1)) offset
      ∙ ap (λ o. take at.image_len (drop (length front + at.base_offset) o)) whole
      ∙ ap (take at.image_len) (drop_past front (bytes_of chunks ++ back) at.base_offset)
      ∙ slice_front (bytes_of chunks) back at.base_offset at.image_len l,
)
  where
    same : bytes_of held ≡ bytes_of chunks
    same = ap bytes_of (some_eq held chunks (sym f ∙ ap stream q ∙ e))

    whole : done.1 ≡ front ++ (bytes_of chunks ++ back)
    whole = w ∙ ap (λ b. front ++ (b ++ back)) same

    offset : add64 at.base_offset to.1 ≡ length front + at.base_offset
    offset =
        ap (λ p. add64 at.base_offset p.1) t
        ∙ add64_exact at.base_offset s.shift (
            omega (
              arith,
              u,
              m,
              l,
              ap length whole,
              length-append front (bytes_of chunks ++ back),
              length-append (bytes_of chunks) back,
            ))
        ∙ omega (arith, m)

-- After a copy that ends well, every image of a source that lies within it is read from its new place as it
-- was read from its old one.
pub relocate_reads :
    (stream : ℕ → Option (List (List ℕ))) (sources : List Source) (done : ℕ × List ℕ) (into : ℕ)
    (at to : SegmentLocation) (chunks : List (List ℕ))
    → length done.1 ≤ u64_max
    → copy stream sources ≡ ok done
    → stream at.id ≡ some chunks
    → at.base_offset + at.image_len ≤ length (bytes_of chunks)
    → relocate (moved_of into sources) at ≡ some to
    → (to.id ≡ into)
      × (take to.image_len (drop to.base_offset done.1)
          ≡ take at.image_len (drop at.base_offset (bytes_of chunks)))
relocate_reads stream sources done into at to chunks u c e l r =
    elim (Option-cases (get (moved_of into sources) at.id)) [
      | inl q ↦ absurd (none≢some (relocate_nowhere (moved_of into sources) at q) r)
      | inr (place, q) ↦
          subst
            (λ x.
              (x.id ≡ into)
              × (take x.image_len (drop x.base_offset done.1)
                  ≡ take at.image_len (drop at.base_offset (bytes_of chunks))))
            (some_eq (placed_at at place) to
              (sym (relocate_found (moved_of into sources) at place q) ∙ r))
            (reads stream done into at chunks place u e l (
              source_of sources (IsCopied stream done.1) into at.id place
                (copy-IsCopy stream sources done u c).sources_in q))
    ]
