-- ===== src/Graph/TopoOrder.antt =====
-- crates/git/core/src/commit_meta.rs: `topo_order`. A map's entries are listed in the order that an
-- iteration visits them; a queue has its front first.
pub mod Sort
pub mod Counts
pub mod Undone
pub mod Degrees
pub mod Waiting
pub mod Positives
pub mod Released
pub mod Queued
pub mod Sorted
pub mod Ready
pub mod Order
use enroute.Prelude.{
  ℕ, zero, suc, ◌+◌, ◌-◌, Bool, true, false, Option, none, some, List, [], ◌∷◌, ◌++◌, length, ltb,
  ◌==◌, if◌then◌else◌, Result, ok, err,
}
use enroute.Prelude.Dict.{get, put, remove, Key, nat_key}

pub data TopoError : Type 0 where
  cycle_detected : TopoError

-- The degree of a commit, `or_insert(0)` where there is none.
unfoldable pub degree : List (ℕ × ℕ) → ℕ → ℕ
unfolding get
degree in_degree oid = elim (get in_degree oid) [ none ↦ 0 | some deg ↦ deg ]

unfoldable pub deps : List (ℕ × List ℕ) → ℕ → List ℕ
unfolding get
deps rev_deps oid = elim (get rev_deps oid) [ none ↦ [] | some held ↦ held ]

-- `new_commits.contains_key`
unfoldable pub in_batch : List (ℕ × List ℕ) → ℕ → Bool
unfolding get
in_batch new_commits oid = elim (get new_commits oid) [ none ↦ false | some parents ↦ true ]

unfoldable pub keys : List (ℕ × List ℕ) → List ℕ
keys [] = []
keys (commit ∷ commits) = commit.0 ∷ keys commits

pub record Edges : Type 0 where
  pub in_degree : List (ℕ × ℕ)
  pub rev_deps : List (ℕ × List ℕ)

unfoldable pub add_edge : Edges → ℕ → ℕ → Edges
unfolding degree deps put
add_edge edges oid parent = record {
  in_degree = put edges.in_degree oid (degree edges.in_degree oid + 1);
  rev_deps = put edges.rev_deps parent (deps edges.rev_deps parent ++ (oid ∷ []));
}

unfoldable pub add_parents : List (ℕ × List ℕ) → ℕ → List ℕ → Edges → Edges
unfolding in_batch add_edge
add_parents new_commits oid [] edges = edges
add_parents new_commits oid (parent ∷ parents) edges =
    let skipped = add_parents new_commits oid parents edges in
    let added = add_parents new_commits oid parents (add_edge edges oid parent) in
    if in_batch new_commits parent then added else skipped

unfoldable pub add_commits : List (ℕ × List ℕ) → List (ℕ × List ℕ) → Edges → Edges
unfolding add_parents
add_commits new_commits [] edges = edges
add_commits new_commits (commit ∷ commits) edges =
    add_commits new_commits commits (add_parents new_commits commit.0 commit.1 edges)

-- `new_commits.keys().map(|&oid| (oid, 0))`
unfoldable pub zeros : List (ℕ × List ℕ) → List (ℕ × ℕ)
zeros [] = []
zeros (commit ∷ commits) = (commit.0, 0) ∷ zeros commits

unfoldable pub edges_of : List (ℕ × List ℕ) → Edges
unfolding add_commits zeros
edges_of new_commits =
    add_commits new_commits new_commits (record { in_degree = zeros new_commits; rev_deps = [] })

-- The commits of degree 0. The source lists the degrees' own keys, which are the batch's.
unfoldable pub ready_of : List (ℕ × ℕ) → List ℕ → List ℕ
unfolding degree
ready_of in_degree [] = []
ready_of in_degree (oid ∷ oids) =
    let rest = ready_of in_degree oids in if degree in_degree oid == 0 then oid ∷ rest else rest

-- `sort_unstable`
unfoldable pub insert_oid : ℕ → List ℕ → List ℕ
insert_oid oid [] = oid ∷ []
insert_oid oid (first ∷ rest) =
    let more = insert_oid oid rest in if ltb first oid then first ∷ more else oid ∷ first ∷ rest

unfoldable pub sort_oids : List ℕ → List ℕ
unfolding insert_oid
sort_oids [] = []
sort_oids (oid ∷ oids) = insert_oid oid (sort_oids oids)

-- The loop over the commits that wait for the one popped: the degrees after it, and `next_ready`.
unfoldable pub release : List (ℕ × ℕ) → List ℕ → List (ℕ × ℕ) × List ℕ
unfolding degree put
release in_degree [] = (in_degree, [])
release in_degree (dep ∷ waiting) =
    let deg = degree in_degree dep - 1 in
    let rest = release (put in_degree dep deg) waiting in
    if deg == 0 then (rest.0, dep ∷ rest.1) else rest

-- The loop over the queue, on fuel: what was popped in order, and what is left in the queue.
unfoldable pub drain : ℕ → List (ℕ × ℕ) → List (ℕ × List ℕ) → List ℕ → List ℕ × List ℕ
unfolding release deps sort_oids
drain zero in_degree rev_deps queue = ([], queue)
drain (suc fuel) in_degree rev_deps [] = ([], [])
drain (suc fuel) in_degree rev_deps (oid ∷ queue) =
    let released = release in_degree (deps rev_deps oid) in
    let rest = drain fuel released.0 rev_deps (queue ++ sort_oids released.1) in
    (oid ∷ rest.0, rest.1)

unfoldable pub drained : List (ℕ × List ℕ) → List ℕ × List ℕ
unfolding edges_of drain sort_oids ready_of keys
drained new_commits =
    let edges = edges_of new_commits in
    drain (length new_commits) edges.in_degree edges.rev_deps
      (sort_oids (ready_of edges.in_degree (keys new_commits)))

unfoldable pub topo_order : List (ℕ × List ℕ) → Result TopoError (List ℕ)
unfolding drained
topo_order new_commits =
    let order = (drained new_commits).0 in
    if length order == length new_commits then ok order else err cycle_detected
