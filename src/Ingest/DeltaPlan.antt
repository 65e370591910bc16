-- ===== src/Ingest/DeltaPlan.antt =====
-- crates/git/ingest/src/delta_plan.rs: the entries of a commit's pack, and where an entry's chain of
-- bases is cut. An object id is a number; a `HashSet` is the list of what it holds.
pub mod Loop
pub mod Order
use enroute.Prelude.{
  ℕ, zero, suc, ◌+◌, ◌-◌, ◌^◌, min, Bool, true, false, not, ◌&&◌, ◌||◌, Option, none, some, List,
  [], ◌∷◌, ◌++◌, leb, ltb, ◌==◌, if◌then◌else◌,
}
use enroute.Prelude.Dict.{get, put, remove, Key, nat_key}
use enroute.Prelude.Sets.{has}
use enroute.Packfile.Format.{Kind, commit, tree, blob, tag}

pub record WireRef : Type 0 where
  pub pack : ℕ
  pub at : ℕ

pub data EntrySource : Type 0 where
  wire : WireRef → EntrySource
  encoded : EntrySource

pub record DeltaEntry : Type 0 where
  pub oid : ℕ
  pub kind : Kind
  pub base : Option ℕ
  pub source : EntrySource

abbrev pub max_tree_chain : ℕ
max_tree_chain = 8

abbrev pub max_blob_chain : ℕ
max_blob_chain = 32

unfoldable pub max_chain : Kind → ℕ
max_chain tree = max_tree_chain
max_chain commit = max_blob_chain
max_chain blob = max_blob_chain
max_chain tag = max_blob_chain

unfoldable pub cut_source : Option ℕ → EntrySource → EntrySource
cut_source (some base) (wire at) = encoded
cut_source (some base) encoded = encoded
cut_source none source = source

unfoldable pub oids : List DeltaEntry → List ℕ
oids [] = []
oids (entry ∷ entries) = entry.oid ∷ oids entries

-- `cut`
unfoldable pub cut : DeltaEntry → DeltaEntry
unfolding cut_source
cut entry = record entry { base = none; source = cut_source entry.base entry.source }

pub data Placed : Type 0 where
  stored in_push : ℕ → Placed

-- `Ord` as `Placed` derives it: whether the first is at or after the second.
unfoldable pub at_or_after : Placed → Placed → Bool
at_or_after (stored a) (stored b) = leb b a
at_or_after (stored a) (in_push b) = false
at_or_after (in_push a) (stored b) = true
at_or_after (in_push a) (in_push b) = leb b a

unfoldable pub or_else : Option Placed → Option Placed → Option Placed
or_else (some at) other = some at
or_else none other = other

unfoldable pub placed_by : (ℕ → Placed) → Option ℕ → Option Placed
placed_by place none = none
placed_by place (some at) = some (place at)

unfoldable pub placed : ℕ → List (ℕ × ℕ) → List (ℕ × ℕ) → Bool → Option Placed
unfolding or_else placed_by get
placed oid stored_at rank prefer_stored =
    let held = placed_by stored (get stored_at oid) in
    let walked = placed_by in_push (get rank oid) in
    if prefer_stored then or_else held walked else or_else walked held

-- `entry(key).or_insert(value)`
unfoldable pub or_insert_at : List (ℕ × ℕ) → ℕ → ℕ → List (ℕ × ℕ)
unfolding get put
or_insert_at d k v = elim (get d k) [ none ↦ put d k v | some held ↦ d ]

-- `graph::Change`, less the path that no one here reads.
pub record Change : Type 0 where
  pub kind : Kind
  pub old : Option ℕ
  pub new : ℕ

unfoldable pub entry_of : Change → DeltaEntry
entry_of change = record {
  oid = change.new;
  kind = change.kind;
  base = change.old;
  source = encoded;
}

unfoldable pub is_tree : Kind → Bool
is_tree tree = true
is_tree commit = false
is_tree blob = false
is_tree tag = false

-- The loop of `order_entries`: what is pushed to `trees` and to `blobs`.
unfoldable pub order_loop : List ℕ → List Change → List DeltaEntry × List DeltaEntry
unfolding has entry_of is_tree
order_loop seen [] = ([], [])
order_loop seen (change ∷ changes) =
    let skipped = order_loop seen changes in
    let rest = order_loop (change.new ∷ seen) changes in
    if has seen change.new
    then skipped
    else if is_tree change.kind
    then (entry_of change ∷ rest.0, rest.1)
    else (rest.0, entry_of change ∷ rest.1)

unfoldable pub is_unchanged : ℕ → Option ℕ → List Change → Bool
is_unchanged root_tree (some base) [] = base == root_tree
is_unchanged root_tree none [] = false
is_unchanged root_tree base_root (change ∷ changes) = false

unfoldable pub order_entries : ℕ → Option ℕ → List Change → List DeltaEntry
unfolding order_loop is_unchanged
order_entries root_tree base_root changes =
    let found = order_loop (root_tree ∷ []) changes in
    let root : DeltaEntry = record {
      oid = root_tree;
      kind = tree;
      base = base_root;
      source = encoded;
    } in
    if is_unchanged root_tree base_root changes then [] else (root ∷ found.0) ++ found.1
