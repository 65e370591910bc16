-- ===== src/Lattice/Plan/Sound.antt =====
-- What the merges of a plan are.
use enroute.Prelude.{
  ℕ, suc, ◌+◌, ◌≤◌, ◌≡◌, refl, sym, ap, ◌∙◌, Bool, false, Option, none, some, Option-cases, List,
  [], ◌∷◌, ◌++◌, ltb, ◌==◌, length, get_elem?, All, All-++, All-front, All-back, if◌then◌else◌,
  Bool-cases, inl, inr, ==_iff, arith,
}
use enroute.Lattice.Key.{KeyRange, hull}
use enroute.Lattice.Plan.{
  Placement, Policy, Merge, next, joined, hull_loop, hull_of_run, index_before, insert_index,
  sort_indices, push_tier, group_loop, runs, merges_of, is_due, tier_merges, tiers_loop, plan,
}
use enroute.Lattice.Plan.Runs.{IsRun, runs-IsRun, runs-covers, concat}

-- A range with every key of another.
pub record IsInside (inner : KeyRange) (outer : KeyRange) : Type 0 where
  pub below : outer.first ≤ inner.first
  pub above : inner.last ≤ outer.last

-- An index of a placement of that tier.
pub record IsMember (placements : List Placement) (tier : ℕ) (index : ℕ) : Type 0 where
  pub placement : Placement
  pub found : get_elem? placements index ≡ some placement
  pub of_tier : placement.tier ≡ tier

-- An index of a placement of that tier inside that range.
pub record IsInput (placements : List Placement) (tier : ℕ) (range : KeyRange) (index : ℕ)
    : Type 0 where
  pub placement : Placement
  pub found : get_elem? placements index ≡ some placement
  pub of_tier : placement.tier ≡ tier
  pub inside : IsInside placement.range range

-- A merge of a run of placements of one tier into the next, whose range holds theirs.
pub record IsMerge (placements : List Placement) (policy : Policy) (merge : Merge) : Type 0 where
  pub below : ℕ
  pub tier : merge.tier ≡ next below
  pub run : IsRun placements policy merge.inputs
  pub inputs : All (IsInput placements below merge.range) merge.inputs

All-concat {κ} : (P : ℕ → Type κ) (xss : List (List ℕ)) → All P (concat xss) → All (All P) xss
unfolding concat
All-concat P [] h = tt
All-concat P (xs ∷ xss) h =
    (All-front P xs (concat xss) h, All-concat P xss (All-back P xs (concat xss) h))

-- The runs are of the indices.
All-runs {κ} :
    (P : ℕ → Type κ) (indices : List ℕ) (placements : List Placement) (policy : Policy)
    → All P indices
    → All (All P) (runs indices placements policy)
All-runs P indices placements policy h = of (runs-covers indices placements policy)
  where
    of :
        (dropped : List ℕ) × (concat (runs indices placements policy) ++ dropped ≡ indices)
          × (length dropped ≤ 1)
        → All (All P) (runs indices placements policy)
    of (dropped, e, small) =
        All-concat P (runs indices placements policy)
          (All-front P (concat (runs indices placements policy)) dropped (rw e h))

module _ {κ} (P : ℕ → Type κ) (placements : List Placement) where
  All-insert_index :
      (i : ℕ) (indices : List ℕ) → P i → All P indices → All P (insert_index placements i indices)
  unfolding insert_index
  All-insert_index i [] p h = (p, tt)
  All-insert_index i (j ∷ indices) p h = elim (Bool-cases (index_before placements j i)) [
    | inl e ↦ rw e (h.0, All-insert_index i indices p h.1)
    | inr e ↦ rw e (p, h)
  ]

  All-sort_indices : (indices : List ℕ) → All P indices → All P (sort_indices placements indices)
  unfolding sort_indices
  All-sort_indices [] h = tt
  All-sort_indices (i ∷ indices) h =
      All-insert_index i (sort_indices placements indices) h.0 (All-sort_indices indices h.1)

IsGroup : List Placement → ℕ × List ℕ → Type 0
IsGroup placements entry = All (IsMember placements entry.0) entry.1

module _ (placements : List Placement) where
  push_tier-IsGroup :
      (tier index : ℕ) (by_tier : List (ℕ × List ℕ))
      → IsMember placements tier index
      → All (IsGroup placements) by_tier
      → All (IsGroup placements) (push_tier tier index by_tier)
  unfolding push_tier IsGroup
  push_tier-IsGroup tier index [] m h = ((m, tt), tt)
  push_tier-IsGroup tier index (entry ∷ by_tier) m h = elim (Bool-cases (entry.0 == tier)) [
    | inl e ↦ rw e (
      All-++ (IsMember placements entry.0) entry.1 (index ∷ []) h.0
          (rw ((==_iff entry.0 tier).0 e) (m, tt)),
      h.1,
    )
    | inr e ↦ elim (Bool-cases (ltb tier entry.0)) [
      | inl l ↦ rw (e, l) ((m, tt), h)
      | inr l ↦ rw (e, l) (h.0, push_tier-IsGroup tier index by_tier m h.1)
    ]
  ]

  group_loop-IsGroup :
      (rest : List Placement) (index : ℕ) (by_tier : List (ℕ × List ℕ))
      → ((i : ℕ) (placement : Placement)
          → get_elem? rest i ≡ some placement
          → get_elem? placements (index + i) ≡ some placement)
      → All (IsGroup placements) by_tier
      → All (IsGroup placements) (group_loop rest index by_tier)
  unfolding group_loop
  group_loop-IsGroup [] index by_tier at h = h
  group_loop-IsGroup (placement ∷ rest) index by_tier at h =
      group_loop-IsGroup rest (index + 1) (push_tier placement.tier index by_tier)
        (λ i p e. ap (λ (n : ℕ). get_elem? placements n) (omega arith) ∙ at (suc i) p e)
        (push_tier-IsGroup placement.tier index by_tier
          (record {
            placement = placement;
            found = ap (λ (n : ℕ). get_elem? placements n) (omega arith) ∙ at 0 placement refl;
            of_tier = refl;
          })
          h)

hull-IsInside : (a b : KeyRange) → IsInside a (hull a b) × IsInside b (hull a b)
unfolding hull
hull-IsInside a b = (
  record { below = ground arith; above = ground arith },
  record { below = ground arith; above = ground arith },
)

IsInside-trans : (a b c : KeyRange) → IsInside a b → IsInside b c → IsInside a c
IsInside-trans a b c p q = record {
  below = omega (arith, p.below, q.below);
  above = omega (arith, p.above, q.above);
}

-- The range so far is inside the one after.
joined-IsInside : (before range : KeyRange) → IsInside before (joined (some before) range)
unfolding joined
joined-IsInside before range = (hull-IsInside before range).0

-- The range that a step adds is inside the one after.
range-IsInside :
    (so_far : Option KeyRange) (range : KeyRange) → IsInside range (joined so_far range)
unfolding joined
range-IsInside none range = record { below = omega arith; above = omega arith }
range-IsInside (some before) range = (hull-IsInside before range).1

module _ (placements : List Placement) where
  hull_loop_member :
      (tier index : ℕ) (run : List ℕ) (so_far : Option KeyRange)
      (m : IsMember placements tier index)
      → hull_loop placements (index ∷ run) so_far
        ≡ hull_loop placements run (some (joined so_far m.placement.range))
  unfolding hull_loop
  hull_loop_member tier index run so_far m = rw (m.found)

  hull_loop_keeps :
      (tier : ℕ) (run : List ℕ) (before range : KeyRange)
      → All (IsMember placements tier) run
      → hull_loop placements run (some before) ≡ some range
      → IsInside before range
  unfolding hull_loop
  hull_loop_keeps tier [] before range ms e =
      rw (ap {B = KeyRange} (λ o. elim o [ none ↦ before | some r ↦ r ]) e)
        (record { below = omega arith; above = omega arith })
  hull_loop_keeps tier (index ∷ run) before range ms e =
      IsInside-trans before (joined (some before) ms.0.placement.range) range
        (joined-IsInside before ms.0.placement.range)
        (hull_loop_keeps tier run (joined (some before) ms.0.placement.range) range ms.1
          (sym (hull_loop_member tier index run (some before) ms.0) ∙ e))

  hull_loop_inputs :
      (tier : ℕ) (run : List ℕ) (so_far : Option KeyRange) (range : KeyRange)
      → All (IsMember placements tier) run
      → hull_loop placements run so_far ≡ some range
      → All (IsInput placements tier range) run
  hull_loop_inputs tier [] so_far range ms e = tt
  hull_loop_inputs tier (index ∷ run) so_far range ms e = (
    record {
      placement = ms.0.placement;
      found = ms.0.found;
      of_tier = ms.0.of_tier;
      inside =
          IsInside-trans ms.0.placement.range (joined so_far ms.0.placement.range) range
            (range-IsInside so_far ms.0.placement.range)
            (hull_loop_keeps tier run (joined so_far ms.0.placement.range) range ms.1
              (sym (hull_loop_member tier index run so_far ms.0) ∙ e));
    },
    hull_loop_inputs tier run (some (joined so_far ms.0.placement.range)) range ms.1
        (sym (hull_loop_member tier index run so_far ms.0) ∙ e),
  )

  merges_of-IsMerge :
      (policy : Policy) (tier : ℕ) (chosen : List (List ℕ))
      → All (All (IsMember placements tier)) chosen
      → All (IsRun placements policy) chosen
      → All (IsMerge placements policy) (merges_of placements tier chosen)
  unfolding merges_of hull_of_run
  merges_of-IsMerge policy tier [] ms rs = tt
  merges_of-IsMerge policy tier (run ∷ more) ms rs =
      elim (Option-cases (hull_loop placements run none)) [
        | inl e ↦ rw (e, All) (merges_of-IsMerge policy tier more ms.1 rs.1)
        | inr (range, e) ↦
            rw (e, All)
              (
                record {
                  below = tier;
                  tier = refl;
                  run = rs.0;
                  inputs = hull_loop_inputs tier run none range ms.0 e;
                },
                merges_of-IsMerge policy tier more ms.1 rs.1,
              )
      ]

  tier_merges-IsMerge :
      (policy : Policy) (pressured : Bool) (tier : ℕ) (indices : List ℕ)
      → All (IsMember placements tier) indices
      → All (IsMerge placements policy) (tier_merges placements policy pressured tier indices)
  unfolding tier_merges
  tier_merges-IsMerge policy pressured tier indices ms =
      elim (Bool-cases (is_due policy pressured (length (sort_indices placements indices)))) [
        | inl e ↦ rw e (
            merges_of-IsMerge policy tier (runs (sort_indices placements indices) placements policy)
              (All-runs (IsMember placements tier) (sort_indices placements indices) placements
                policy (All-sort_indices (IsMember placements tier) placements indices ms))
              (runs-IsRun (sort_indices placements indices) placements policy))
        | inr e ↦ rw e tt
      ]

  abbrev relieved : Policy → Bool → ℕ × List ℕ → Bool
  relieved policy pressured entry =
      if ltb 0 (length (tier_merges placements policy pressured entry.0 entry.1))
      then false
      else pressured

  tiers_loop-IsMerge :
      (policy : Policy) (by_tier : List (ℕ × List ℕ)) (pressured : Bool)
      → All (IsGroup placements) by_tier
      → All (IsMerge placements policy) (tiers_loop placements policy pressured by_tier)
  unfolding tiers_loop IsGroup
  tiers_loop-IsMerge policy [] pressured h = tt
  tiers_loop-IsMerge policy (entry ∷ by_tier) pressured h =
      All-++ (IsMerge placements policy) (tier_merges placements policy pressured entry.0 entry.1)
        (tiers_loop placements policy (relieved policy pressured entry) by_tier)
        (tier_merges-IsMerge policy pressured entry.0 entry.1 h.0)
        (tiers_loop-IsMerge policy by_tier (relieved policy pressured entry) h.1)

-- Each merge of a plan is of a run of placements that all exist and are of one tier, it is written at
-- the tier after that one, and its range holds the range of each of them.
pub plan-IsMerge :
    (placements : List Placement) (policy : Policy)
    → All (IsMerge placements policy) (plan placements policy)
unfolding plan
plan-IsMerge placements policy =
    tiers_loop-IsMerge placements policy (group_loop placements 0 []) _ (
      group_loop-IsGroup placements placements 0 []
        (λ i p e. ap (λ (n : ℕ). get_elem? placements n) (omega arith) ∙ e) tt)
