-- ===== src/Retrieve/Coalesce.antt =====
-- crates/git/retrieve/src/coalesce.rs: which segments are copied into one, the copy, and where an image
-- stands after it. A segment's id is a number; its bytes are a stream of chunks.
pub mod Plan
pub mod Chunks
pub mod Checked
pub mod Copy
pub mod Moved
use enroute.Prelude.{
  ℕ, zero, suc, ◌+◌, ◌-◌, ◌*◌, ◌^◌, min, max, Bool, true, false, not, ◌&&◌, ◌||◌, Option, none,
  some, List, [], ◌∷◌, ◌++◌, length, leb, ltb, ◌==◌, if◌then◌else◌, Result, ok, err,
}
use enroute.Prelude.Sets.{has}
use enroute.Prelude.Dict.{get, Key, nat_key}

pub record CoalescePolicy : Type 0 where
  pub small_bytes : ℕ
  pub max_output_bytes : ℕ
  pub max_inputs : ℕ

-- 8 and 256 MiB
abbrev pub starting_coalesce : CoalescePolicy
starting_coalesce = record {
  small_bytes = 8 * 2 ^ 20;
  max_output_bytes = 256 * 2 ^ 20;
  max_inputs = 32;
}

pub record Source : Type 0 where
  pub id : ℕ
  pub bytes : ℕ
  pub shift : ℕ

abbrev pub u64_max : ℕ
u64_max = 2 ^ 64 - 1

-- `u64::saturating_add`
unfoldable pub add64 : ℕ → ℕ → ℕ
add64 a b = min (a + b) u64_max

pub record Coalesced : Type 0 where
  pub segments : ℕ
  pub bytes : ℕ
  pub images : ℕ
  pub locations : ℕ

unfoldable pub sum_of : Coalesced → Coalesced → Coalesced
unfolding add64
sum_of a b = record {
  segments = add64 a.segments b.segments;
  bytes = add64 a.bytes b.bytes;
  images = add64 a.images b.images;
  locations = add64 a.locations b.locations;
}

-- The listed segments that are live and small.
unfoldable pub small_of : List (ℕ × ℕ) → List ℕ → CoalescePolicy → List (ℕ × ℕ)
unfolding has
small_of [] live policy = []
small_of (one ∷ listed) live policy =
    let rest = small_of listed live policy in
    if has live one.0 && ltb one.1 policy.small_bytes then one ∷ rest else rest

-- `sort_unstable` of the pairs
unfoldable pub comes_before : ℕ × ℕ → ℕ × ℕ → Bool
comes_before a b = ltb a.0 b.0 || (a.0 == b.0 && ltb a.1 b.1)

unfoldable pub insert_segment : ℕ × ℕ → List (ℕ × ℕ) → List (ℕ × ℕ)
unfolding comes_before
insert_segment one [] = one ∷ []
insert_segment one (first ∷ rest) =
    let more = insert_segment one rest in
    if comes_before first one then first ∷ more else one ∷ first ∷ rest

unfoldable pub sort_segments : List (ℕ × ℕ) → List (ℕ × ℕ)
unfolding insert_segment
sort_segments [] = []
sort_segments (one ∷ rest) = insert_segment one (sort_segments rest)

-- The loop of `plan`: how many are taken, and where the next one lands.
unfoldable pub take_run : CoalescePolicy → ℕ → ℕ → List (ℕ × ℕ) → List Source
unfolding add64
take_run policy taken shift [] = []
take_run policy taken shift (one ∷ small) =
    let rest = take_run policy (taken + 1) (add64 shift one.1) small in
    if leb policy.max_inputs taken || ltb policy.max_output_bytes (add64 shift one.1)
    then []
    else record { id = one.0; bytes = one.1; shift = shift } ∷ rest

unfoldable pub plan_sources : List (ℕ × ℕ) → List ℕ → CoalescePolicy → List Source
unfolding take_run sort_segments small_of
plan_sources listed live policy = take_run policy 0 0 (sort_segments (small_of listed live policy))

pub data CopyError : Type 0 where
  missing : ℕ → CopyError
  streamed_wrong : ℕ → ℕ → ℕ → CopyError

-- The chunks of one stream, written one after another: how much is written, and what.
unfoldable pub copy_chunks : ℕ → List ℕ → List (List ℕ) → ℕ × List ℕ
unfolding add64
copy_chunks written out [] = (written, out)
copy_chunks written out (chunk ∷ chunks) =
    copy_chunks (add64 written (length chunk)) (out ++ chunk) chunks

unfoldable pub copy_loop :
    (ℕ → Option (List (List ℕ))) → List Source → ℕ → List ℕ → Result CopyError (ℕ × List ℕ)
unfolding copy_chunks
copy_loop stream [] written out = ok (written, out)
copy_loop stream (source ∷ sources) written out = elim (stream source.id) [
  | none ↦ err (missing source.id)
  | some chunks ↦
      let done = copy_chunks written out chunks in
      let rest = copy_loop stream sources done.0 done.1 in
      let streamed = done.0 - written in
      if not (written == source.shift) || not (streamed == source.bytes)
      then err (streamed_wrong source.id streamed written)
      else rest
]

unfoldable pub copy : (ℕ → Option (List (List ℕ))) → List Source → Result CopyError (ℕ × List ℕ)
unfolding copy_loop
copy stream sources = copy_loop stream sources 0 []

-- `moved`: where each source's images go.
unfoldable pub moved_of : ℕ → List Source → List (ℕ × (ℕ × ℕ))
moved_of into [] = []
moved_of into (source ∷ sources) = (source.id, (into, source.shift)) ∷ moved_of into sources

-- `SegmentLocation`, the part of a `Pack` that a move touches.
pub record SegmentLocation : Type 0 where
  pub id : ℕ
  pub base_offset : ℕ
  pub image_len : ℕ

-- The location of one image after the move, if its segment is one of the sources.
unfoldable pub relocate : List (ℕ × (ℕ × ℕ)) → SegmentLocation → Option SegmentLocation
unfolding get add64
relocate moved at = elim (get moved at.id) [
  | none ↦ none
  | some to ↦ some (record at { id = to.0; base_offset = add64 at.base_offset to.1 })
]

unfoldable pub relocated :
    List (ℕ × SegmentLocation) → List (ℕ × (ℕ × ℕ)) → List (ℕ × SegmentLocation)
unfolding relocate
relocated [] moved = []
relocated (image ∷ images) moved =
    let rest = relocated images moved in
    elim (relocate moved image.1) [ none ↦ rest | some at ↦ (image.0, at) ∷ rest ]
