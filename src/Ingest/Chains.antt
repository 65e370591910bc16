-- ===== src/Ingest/Chains.antt =====
-- crates/git/ingest/src/delta_plan.rs: `bound_chains`, which walks a push's plan and cuts the chains
-- that are too long or could loop. The object index is an interface.
pub mod Ranks
pub mod Sets
pub mod Tested
pub mod Backward
pub mod Walked
pub mod Came
pub mod Bounds
pub mod Cycle
use enroute.Prelude.{
  ℕ, zero, suc, ◌+◌, ◌-◌, ◌^◌, min, Bool, true, false, not, ◌&&◌, ◌||◌, Option, none, some, List,
  [], ◌∷◌, ◌++◌, leb, ltb, ◌==◌, if◌then◌else◌, Result, ok, err, ◌>>=◌,
}
use enroute.Prelude.Sets.{has}
use enroute.Prelude.Dict.{get, put, remove, Key, nat_key}
use enroute.Graph.TopoOrder.{topo_order, TopoError, cycle_detected}
use enroute.Ingest.DeltaPlan.{
  DeltaEntry, Placed, max_blob_chain, max_chain, oids, cut, at_or_after, placed, or_insert_at,
}

pub data PlanError : Type 0 where
  unreadable cyclic : PlanError

-- What the walk reads of the repository's object index.
pub record ObjectIndex : Type 0 where
  pub chain_depths : List ℕ → ℕ → Result PlanError (List (ℕ × ℕ))
  pub first_packs : List ℕ → Result PlanError (List (ℕ × ℕ))

pub record Walk : Type 0 where
  pub depth : List (ℕ × ℕ)
  pub rank : List (ℕ × ℕ)
  pub next_rank : ℕ

abbrev pub u32_max : ℕ
u32_max = 2 ^ 32 - 1

-- `is_some_and(|base| base >= own)`, under an own place that is known.
unfoldable pub follows : Option Placed → Option Placed → Bool
unfolding at_or_after
follows none own = false
follows (some base) none = false
follows (some base) (some own) = at_or_after base own

-- A base that does not strictly precede the object.
unfoldable pub could_loop : List (ℕ × ℕ) → Walk → DeltaEntry → Bool
unfolding follows placed
could_loop stored_at walk entry = elim entry.base [
  | none ↦ false
  | some base ↦
      follows (placed base stored_at walk.rank false) (placed entry.oid stored_at walk.rank true)
]

-- The depth of a base that is known, of this push or of an older one.
unfoldable pub depth_of : List (ℕ × ℕ) → Walk → ℕ → Option ℕ
unfolding get
depth_of older walk base = elim (get walk.depth base) [ none ↦ get older base | some d ↦ some d ]

unfoldable pub reached : List (ℕ × ℕ) → Walk → Option ℕ → ℕ
unfolding depth_of
reached older walk none = 0
reached older walk (some base) = elim (depth_of older walk base) [
  | none ↦ u32_max
  | some d ↦ min (d + 1) u32_max
]

unfoldable pub note : Walk → ℕ → ℕ → Walk
unfolding or_insert_at get
note walk oid depth = record {
  depth = or_insert_at walk.depth oid depth;
  rank = or_insert_at walk.rank oid walk.next_rank;
  next_rank = elim (get walk.rank oid) [ none ↦ walk.next_rank + 1 | some r ↦ walk.next_rank ];
}

-- The body of the loop: the entry as it is left, and the depth that is noted for it.
unfoldable pub unlooped : List (ℕ × ℕ) → Walk → DeltaEntry → DeltaEntry
unfolding could_loop cut
unlooped stored_at walk entry = if could_loop stored_at walk entry then cut entry else entry

unfoldable pub is_too_deep : List (ℕ × ℕ) → Walk → DeltaEntry → Bool
unfolding reached max_chain
is_too_deep older walk entry = ltb (max_chain entry.kind) (reached older walk entry.base)

unfoldable pub walk_entry : List (ℕ × ℕ) → List (ℕ × ℕ) → Walk → DeltaEntry → Walk × DeltaEntry
unfolding unlooped is_too_deep reached note cut
walk_entry older stored_at walk entry =
    let kept = unlooped stored_at walk entry in
    if is_too_deep older walk kept
    then (note walk kept.oid 0, cut kept)
    else (note walk kept.oid (reached older walk kept.base), kept)

unfoldable pub walk_entries :
    List (ℕ × ℕ) → List (ℕ × ℕ) → Walk → List DeltaEntry → Walk × List DeltaEntry
unfolding walk_entry
walk_entries older stored_at walk [] = (walk, [])
walk_entries older stored_at walk (entry ∷ entries) =
    let one = walk_entry older stored_at walk entry in
    let rest = walk_entries older stored_at one.0 entries in (rest.0, one.1 ∷ rest.1)

unfoldable pub walk_commits :
    List (ℕ × ℕ)
    → List (ℕ × ℕ)
    → Walk
    → List (ℕ × List DeltaEntry)
    → List ℕ
    → Walk × List (ℕ × List DeltaEntry)
unfolding walk_entries get put
walk_commits older stored_at walk packs [] = (walk, packs)
walk_commits older stored_at walk packs (commit ∷ order) = elim (get packs commit) [
  | none ↦ walk_commits older stored_at walk packs order
  | some entries ↦
      let done = walk_entries older stored_at walk entries in
      walk_commits older stored_at done.0 (put packs commit done.1) order
]

-- `packs.values().flat_map(..)`
unfoldable pub values : List (ℕ × List DeltaEntry) → List DeltaEntry
values [] = []
values (pack ∷ packs) = pack.1 ++ values packs

-- The bases that the push does not carry, each once.
unfoldable pub older_bases : List ℕ → List ℕ → List DeltaEntry → List ℕ
unfolding has
older_bases carried seen [] = []
older_bases carried seen (entry ∷ entries) = elim entry.base [
  | none ↦ older_bases carried seen entries
  | some base ↦
      let rest = older_bases carried seen entries in
      let more = older_bases carried (base ∷ seen) entries in
      if not (has carried base) && not (has seen base) then base ∷ more else rest
]

-- The objects that are encoded against something.
unfoldable pub deltified : List DeltaEntry → List ℕ
deltified [] = []
deltified (entry ∷ entries) = elim entry.base [
  | none ↦ deltified entries
  | some base ↦ entry.oid ∷ deltified entries
]

-- `collect::<ObjectHashSet>()`
unfoldable pub distinct : List ℕ → List ℕ → List ℕ
unfolding has
distinct seen [] = []
distinct seen (oid ∷ rest) =
    let skipped = distinct seen rest in
    let more = distinct (oid ∷ seen) rest in if has seen oid then skipped else oid ∷ more

abbrev pub unwalked : Walk
unwalked = record { depth = []; rank = []; next_rank = 0 }

-- The `?` on `topo_order`.
unfoldable pub ordered : Result TopoError (List ℕ) → Result PlanError (List ℕ)
ordered (ok order) = ok order
ordered (err cycle_detected) = err cyclic

unfoldable pub bound_chains :
    ObjectIndex
    → List (ℕ × List DeltaEntry)
    → List (ℕ × List ℕ)
    → Result PlanError (Walk × List (ℕ × List DeltaEntry))
bound_chains objects packs parents_of = do
  let older = older_bases (oids (values packs)) [] (values packs)
  older_depths ← objects.chain_depths older max_blob_chain
  stored_at ← objects.first_packs (distinct [] (deltified (values packs) ++ older))
  order ← ordered (topo_order parents_of)
  ok (walk_commits older_depths stored_at unwalked packs order)
