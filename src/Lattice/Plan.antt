-- ===== src/Lattice/Plan.antt =====
-- crates/lattice/core/src/plan.rs: which segments compaction merges. A tier is its number, a byte.
pub mod Runs
pub mod Sound
use enroute.Prelude.{
  ℕ, zero, suc, ◌+◌, ◌-◌, ◌^◌, min, max, Bool, true, false, ◌&&◌, ◌||◌, not, Option, none, some,
  List, [], ◌∷◌, ◌++◌, leb, ltb, ◌==◌, length, get_elem?, if◌then◌else◌,
}
use enroute.Lattice.Key.{KeyRange, hull}

-- `Tier::next`, saturating at the top.
unfoldable pub next : ℕ → ℕ
next tier = min (tier + 1) 255

pub data Residence : Type 0 where
  inline : Residence
  bucket : Residence

pub record Placement : Type 0 where
  pub range : KeyRange
  pub tier : ℕ
  pub bytes : ℕ
  pub residence : Residence

pub record Policy : Type 0 where
  pub fanout : ℕ
  pub max_inputs : ℕ
  pub max_input_bytes : ℕ
  pub graduation_bytes : ℕ
  pub inline_ceiling : ℕ

unfoldable pub residence_for : Policy → ℕ → Residence
residence_for policy bytes = if leb policy.graduation_bytes bytes then bucket else inline

pub record Merge : Type 0 where
  pub inputs : List ℕ
  pub tier : ℕ
  pub range : KeyRange

-- `u64::saturating_add`
abbrev pub plus : ℕ → ℕ → ℕ
plus a b = min (a + b) (2 ^ 64 - 1)

-- The size of the placement at an index, 0 if there is none.
unfoldable pub size_at : List Placement → ℕ → ℕ
size_at placements index = elim (get_elem? placements index) [
  | none ↦ 0
  | some placement ↦ placement.bytes
]

-- Whether a run takes no further segment of that size.
unfoldable pub is_full : Policy → ℕ → ℕ → ℕ → Bool
is_full policy n bytes size =
    leb (max policy.max_inputs 2) n || (leb 2 n && ltb policy.max_input_bytes (plus bytes size))

-- `runs`, from a run that is open and its size on.
unfoldable pub runs_loop : List Placement → Policy → List ℕ → List ℕ → ℕ → List (List ℕ)
unfolding is_full size_at
runs_loop placements policy [] run bytes = if leb 2 (length run) then run ∷ [] else []
runs_loop placements policy (index ∷ indices) run bytes =
    let size = size_at placements index in
    let full = is_full policy (length run) bytes size in
    let closed = if full then run ∷ [] else [] in
    let kept = if full then [] else run in
    let held = if full then 0 else bytes in
    closed ++ runs_loop placements policy indices (kept ++ (index ∷ [])) (plus held size)

unfoldable pub runs : List ℕ → List Placement → Policy → List (List ℕ)
unfolding runs_loop
runs indices placements policy = runs_loop placements policy indices [] 0

-- One step of `reduce(KeyRange::hull)`.
unfoldable pub joined : Option KeyRange → KeyRange → KeyRange
joined so_far range = elim so_far [ none ↦ range | some before ↦ hull before range ]

-- `hull`, from the hull of the ranges before on.
unfoldable pub hull_loop : List Placement → List ℕ → Option KeyRange → Option KeyRange
unfolding joined
hull_loop placements [] so_far = so_far
hull_loop placements (index ∷ run) so_far =
    hull_loop placements run (elim (get_elem? placements index) [
      | none ↦ so_far
      | some placement ↦ some (joined so_far placement.range)
    ])

unfoldable pub hull_of_run : List ℕ → List Placement → Option KeyRange
unfolding hull_loop
hull_of_run run placements = hull_loop placements run none

-- Whether a placement sorts strictly before another: by its first key, then by its last.
unfoldable pub sorts_before : Placement → Placement → Bool
sorts_before a b =
    ltb a.range.first b.range.first
    || (a.range.first == b.range.first && ltb a.range.last b.range.last)

-- The same of indices; one that names no placement sorts before all that do.
unfoldable pub index_before : List Placement → ℕ → ℕ → Bool
unfolding sorts_before
index_before placements i j = elim (get_elem? placements j) [
  | none ↦ false
  | some b ↦ elim (get_elem? placements i) [ none ↦ true | some a ↦ sorts_before a b ]
]

unfoldable pub insert_index : List Placement → ℕ → List ℕ → List ℕ
insert_index placements i [] = i ∷ []
insert_index placements i (j ∷ indices) =
    let rest = insert_index placements i indices in
    if index_before placements j i then j ∷ rest else i ∷ j ∷ indices

-- `sort_by_key`, stable: an index stands before those of the same key that came after it.
unfoldable pub sort_indices : List Placement → List ℕ → List ℕ
unfolding insert_index
sort_indices placements [] = []
sort_indices placements (i ∷ indices) = insert_index placements i (sort_indices placements indices)

-- `by_tier.entry(tier).or_default().push(index)`, with the tiers in order.
unfoldable pub push_tier : ℕ → ℕ → List (ℕ × List ℕ) → List (ℕ × List ℕ)
push_tier tier index [] = (tier, index ∷ []) ∷ []
push_tier tier index (entry ∷ by_tier) =
    let rest = push_tier tier index by_tier in
    if entry.0 == tier
    then (entry.0, entry.1 ++ (index ∷ [])) ∷ by_tier
    else if ltb tier entry.0
    then (tier, index ∷ []) ∷ entry ∷ by_tier
    else entry ∷ rest

unfoldable pub group_loop : List Placement → ℕ → List (ℕ × List ℕ) → List (ℕ × List ℕ)
unfolding push_tier
group_loop [] index by_tier = by_tier
group_loop (placement ∷ placements) index by_tier =
    group_loop placements (index + 1) (push_tier placement.tier index by_tier)

unfoldable pub count_inline : List Placement → ℕ
count_inline [] = 0
count_inline (placement ∷ placements) = elim placement.residence [
  | inline ↦ count_inline placements + 1
  | bucket ↦ count_inline placements
]

-- The merges of some runs of one tier.
unfoldable pub merges_of : List Placement → ℕ → List (List ℕ) → List Merge
unfolding hull_of_run next
merges_of placements tier [] = []
merges_of placements tier (run ∷ more) =
    let rest = merges_of placements tier more in
    elim (hull_of_run run placements) [
      | none ↦ rest
      | some range ↦ record { inputs = run; tier = next tier; range = range } ∷ rest
    ]

-- Whether a tier of that many segments is merged.
unfoldable pub is_due : Policy → Bool → ℕ → Bool
is_due policy pressured n = leb policy.fanout n || (pressured && leb 2 n)

-- The body of the loop over the tiers.
unfoldable pub tier_merges : List Placement → Policy → Bool → ℕ → List ℕ → List Merge
unfolding merges_of runs sort_indices is_due
tier_merges placements policy pressured tier indices =
    if is_due policy pressured (length (sort_indices placements indices))
    then merges_of placements tier (runs (sort_indices placements indices) placements policy)
    else []

unfoldable pub tiers_loop : List Placement → Policy → Bool → List (ℕ × List ℕ) → List Merge
unfolding tier_merges
tiers_loop placements policy pressured [] = []
tiers_loop placements policy pressured (entry ∷ by_tier) =
    let merges = tier_merges placements policy pressured entry.0 entry.1 in
    merges
    ++ tiers_loop placements policy (if ltb 0 (length merges) then false else pressured) by_tier

unfoldable pub plan : List Placement → Policy → List Merge
unfolding tiers_loop group_loop count_inline
plan placements policy =
    tiers_loop placements policy (ltb policy.inline_ceiling (count_inline placements))
      (group_loop placements 0 [])
