-- ===== src/Retrieve/Examples.antt =====
-- The theorems on gathering segments at concrete inputs.
use enroute.Prelude.{
  ℕ, ◌≡◌, refl, Option, none, some, List, [], ◌∷◌, ◌==◌, take, drop, All, arith, if◌then◌else◌, ok,
}
use enroute.Prelude.Dict.{nat_key}
use enroute.Retrieve.Coalesce.{
  CoalescePolicy, Source, SegmentLocation, plan_sources, copy, moved_of, relocate,
}
use enroute.Retrieve.Coalesce.Plan.{IsLaid, IsSmall, plan_sources-IsLaid}
use enroute.Retrieve.Coalesce.Chunks.{bytes_of}
use enroute.Retrieve.Coalesce.Moved.{relocate_reads}

abbrev policy : CoalescePolicy
policy = record { small_bytes = 100; max_output_bytes = 250; max_inputs = 8 }

-- Segment 2 is large, and no row names segment 4.
abbrev listed : List (ℕ × ℕ)
listed = (3, 2) ∷ (2, 500) ∷ (1, 3) ∷ (4, 30) ∷ []

plan_sources-IsLaid_example :
    IsLaid policy 0 0 (plan_sources listed (1 ∷ 2 ∷ 3 ∷ []) policy)
    × All
        (λ s. IsSmall listed (1 ∷ 2 ∷ 3 ∷ []) policy (s.id, s.bytes))
        (plan_sources listed (1 ∷ 2 ∷ 3 ∷ []) policy)
plan_sources-IsLaid_example = plan_sources-IsLaid listed (1 ∷ 2 ∷ 3 ∷ []) policy (omega arith)

abbrev stream : ℕ → Option (List (List ℕ))
stream id =
    if id == 1
    then some ((10 ∷ 20 ∷ []) ∷ (30 ∷ []) ∷ [])
    else if id == 3
    then some ((40 ∷ 50 ∷ []) ∷ [])
    else none

abbrev sources : List Source
sources = record { id = 1; bytes = 3; shift = 0 } ∷ record { id = 3; bytes = 2; shift = 3 } ∷ []

copied : copy stream sources ≡ ok (5, 10 ∷ 20 ∷ 30 ∷ 40 ∷ 50 ∷ [])
unfolding copy
copied = refl

-- The second byte of segment 3, and where it is in segment 9.
abbrev image : SegmentLocation
image = record { id = 3; base_offset = 1; image_len = 1 }

abbrev moved_image : SegmentLocation
moved_image = record { id = 9; base_offset = 4; image_len = 1 }

moved : relocate (moved_of 9 sources) image ≡ some moved_image
unfolding relocate moved_of
moved = refl

relocate_reads_example :
    (moved_image.id ≡ 9)
    × (take moved_image.image_len (drop moved_image.base_offset (10 ∷ 20 ∷ 30 ∷ 40 ∷ 50 ∷ []))
        ≡ take image.image_len (drop image.base_offset (bytes_of ((40 ∷ 50 ∷ []) ∷ []))))
unfolding bytes_of
relocate_reads_example =
    relocate_reads stream sources (5, 10 ∷ 20 ∷ 30 ∷ 40 ∷ 50 ∷ []) 9 image moved_image
      ((40 ∷ 50 ∷ []) ∷ []) (omega arith) copied refl (omega arith) moved
