-- ===== src/Graph/Ancestry.antt =====
-- crates/git/graph/src/ancestry.rs: the closures over a push's own commits. A bitmap is the list of its
-- bits, each once; a `HashMap` from a commit to what is asked of it is the list of the queries.
pub mod Bits
pub mod Live
pub mod Sound
use enroute.Prelude.{
  ◌%◌, ℕ, zero, suc, ◌+◌, ◌-◌, ◌*◌, ◌^◌, min, Bool, true, false, not, ◌&&◌, ◌||◌, Option, none,
  some, List, [], ◌∷◌, ◌++◌, length, get_elem?, set, replicate, take, leb, ltb, ◌==◌, if◌then◌else◌,
  Result, ok, err, ◌>>=◌,
}
use enroute.Prelude.Sets.{has}
use enroute.Prelude.Dict.{get, put, remove, Key, nat_key}
use enroute.Graph.TopoOrder.{TopoError, topo_order, deps, in_batch}

abbrev pub max_live_ancestor_bits : ℕ
max_live_ancestor_bits = 16 * 1024 * 1024

pub record Query : Type 0 where
  pub target : ℕ
  pub home : ℕ

pub record Push : Type 0 where
  pub order : List ℕ
  pub parents_of : List (ℕ × List ℕ)
  pub index_of : List (ℕ × ℕ)

pub record Boundaries : Type 0 where
  pub oids : List ℕ
  pub reachable : List (List ℕ)

abbrev pub u32_max : ℕ
u32_max = 2 ^ 32 - 1

-- The places of an order from one on, those that fit a `u32`.
unfoldable pub index_from : ℕ → List ℕ → List (ℕ × ℕ)
index_from at [] = []
index_from at (commit ∷ order) =
    let rest = index_from (at + 1) order in if leb at u32_max then (commit, at) ∷ rest else rest

-- `Push::new`
unfoldable pub push_of : List (ℕ × List ℕ) → Result TopoError Push
push_of parents_of = do
  order ← topo_order parents_of
  ok (record { order = order; parents_of = parents_of; index_of = index_from 0 order })

-- `RoaringBitmap::insert` and `|=`
unfoldable pub insert_bit : List ℕ → ℕ → List ℕ
unfolding has
insert_bit closure bit = if has closure bit then closure else bit ∷ closure

unfoldable pub union : List ℕ → List ℕ → List ℕ
unfolding insert_bit
union closure [] = closure
union closure (bit ∷ bits) = insert_bit (union closure bits) bit

pub record Closures : Type 0 where
  pub live : List (ℕ × List ℕ)
  pub resident : ℕ
  pub oldest : List ℕ

unfoldable pub inherit : Closures → List ℕ → ℕ → List ℕ
unfolding get union insert_bit
inherit closures closure parent_at =
    insert_bit
      (elim (get closures.live parent_at) [
        | none ↦ closure
        | some inherited ↦ union closure inherited
      ])
      parent_at

unfoldable pub drop_one : Closures → ℕ → Closures
unfolding get remove
drop_one closures at = elim (get closures.live at) [
  | none ↦ closures
  | some dropped ↦ record closures {
    live = remove closures.live at;
    resident = closures.resident - length dropped;
  }
]

-- `retire`, with the children still to be built beside it.
unfoldable pub retire : Closures → List ℕ → ℕ → Closures × List ℕ
unfolding drop_one
retire closures children_left parent_at = elim (get_elem? children_left parent_at) [
  | none ↦ (closures, children_left)
  | some count ↦
      let left = count - 1 in
      let counted = set children_left parent_at left in
      if left == 0 then (drop_one closures parent_at, counted) else (closures, counted)
]

-- The loop of `keep`, over the oldest closures.
unfoldable pub evict : List ℕ → Closures → Closures
unfolding drop_one
evict [] closures = record closures { oldest = [] }
evict (at ∷ oldest) closures =
    let rest = evict oldest (drop_one closures at) in
    if ltb max_live_ancestor_bits closures.resident
    then rest
    else record closures { oldest = at ∷ oldest }

unfoldable pub keep_closure : Closures → ℕ → List ℕ → Closures
unfolding evict put
keep_closure closures at closure = evict (closures.oldest ++ (at ∷ [])) (record closures {
  live = put closures.live at closure;
  resident = min (closures.resident + length closure) (2 ^ 64 - 1);
})

-- `iter().position`
unfoldable pub position : List ℕ → ℕ → Option ℕ
position [] oid = none
position (b ∷ oids) oid =
    let rest = position oids oid in
    if b == oid then some 0 else elim rest [ none ↦ none | some at ↦ some (at + 1) ]

unfoldable pub reached_bit : List ℕ → ℕ → Boundaries → ℕ → List ℕ
unfolding position insert_bit
reached_bit closure commits boundaries parent = elim (position boundaries.oids parent) [
  | none ↦ closure
  | some bit ↦ if leb bit u32_max then insert_bit closure (min (commits + bit) u32_max) else closure
]

-- The loop of `reaches_older`, from one boundary on.
unfoldable pub older_from : ℕ → List (List ℕ) → List ℕ → ℕ → ℕ → Bool
unfolding has
older_from at [] closure commits home = false
older_from at (reachable ∷ rest) closure commits home =
    let more = older_from (at + 1) rest closure commits home in
    if leb at u32_max && has closure (min (commits + at) u32_max) && has reachable home
    then true
    else more

unfoldable pub reaches_older : List ℕ → ℕ → Boundaries → ℕ → Bool
unfolding older_from
reaches_older closure commits boundaries home =
    older_from 0 boundaries.reachable closure commits home

-- The loop of `closure_of` over the parents.
unfoldable pub closure_loop : Push → Closures → Boundaries → ℕ → List ℕ → List ℕ → List ℕ
unfolding get inherit reached_bit
closure_loop push closures boundaries commits [] closure = closure
closure_loop push closures boundaries commits (parent ∷ parents) closure =
    closure_loop push closures boundaries commits parents (elim (get push.index_of parent) [
      | none ↦ reached_bit closure commits boundaries parent
      | some parent_at ↦ inherit closures closure parent_at
    ])

unfoldable pub closure_of : Push → ℕ → Closures → Boundaries → ℕ → List ℕ
unfolding closure_loop deps
closure_of push commit closures boundaries commits =
    closure_loop push closures boundaries commits (deps push.parents_of commit) []

-- `Push::parents`
unfoldable pub parents_along : List (ℕ × List ℕ) → List ℕ → List ℕ
unfolding deps
parents_along parents_of [] = []
parents_along parents_of (commit ∷ order) = deps parents_of commit ++ parents_along parents_of order

-- The filters of `Push::boundaries`.
unfoldable pub boundaries_loop : List (ℕ × List ℕ) → List ℕ → List ℕ → List ℕ
unfolding in_batch has
boundaries_loop parents_of seen [] = []
boundaries_loop parents_of seen (parent ∷ parents) =
    let skipped = boundaries_loop parents_of seen parents in
    let more = boundaries_loop parents_of (parent ∷ seen) parents in
    if in_batch parents_of parent || has seen parent then skipped else parent ∷ more

unfoldable pub count_children : List (ℕ × ℕ) → List ℕ → List ℕ → List ℕ
unfolding get
count_children index_of counts [] = counts
count_children index_of counts (parent ∷ parents) =
    count_children index_of
      (elim (get index_of parent) [
        | none ↦ counts
        | some at ↦ elim (get_elem? counts at) [
          | none ↦ counts
          | some count ↦ set counts at ((count + 1) % 2 ^ 32)
        ]
      ])
      parents

unfoldable pub children_left : Push → List ℕ
unfolding count_children parents_along
children_left push =
    count_children push.index_of (replicate (length push.order) 0)
      (parents_along push.parents_of push.order)

-- Whether a closure proves a home.
unfoldable pub proves : Push → List ℕ → ℕ → Boundaries → ℕ → Bool
unfolding get has reaches_older
proves push closure commits boundaries home = elim (get push.index_of home) [
  | some home_at ↦ has closure home_at
  | none ↦ reaches_older closure commits boundaries home
]

-- What is proven of the queries that are aimed at a commit.
unfoldable pub proven_of : Push → ℕ → List ℕ → ℕ → Boundaries → List Query → List (ℕ × ℕ)
unfolding proves
proven_of push commit closure commits boundaries [] = []
proven_of push commit closure commits boundaries (query ∷ queries) =
    let rest = proven_of push commit closure commits boundaries queries in
    if query.target == commit && proves push closure commits boundaries query.home
    then (commit, query.home) ∷ rest
    else rest

unfoldable pub retire_parents : Push → List ℕ → Closures × List ℕ → Closures × List ℕ
unfolding get retire
retire_parents push [] state = state
retire_parents push (parent ∷ parents) state =
    retire_parents push parents
      (elim (get push.index_of parent) [ none ↦ state | some at ↦ retire state.0 state.1 at ])

-- Whether a commit's closure is still wanted.
unfoldable pub is_awaited : List ℕ → ℕ → Bool
is_awaited counts at = elim (get_elem? counts at) [ none ↦ false | some left ↦ ltb 0 left ]

-- The loop of `prove`, from one place of the order on.
unfoldable pub prove_loop :
    Push → Boundaries → List Query → ℕ → ℕ → List ℕ → Closures → List ℕ → List (ℕ × ℕ)
unfolding closure_of proven_of retire_parents is_awaited keep_closure deps
prove_loop push boundaries queries commits at [] closures counts = []
prove_loop push boundaries queries commits at (commit ∷ order) closures counts =
    let closure = closure_of push commit closures boundaries commits in
    let retired = retire_parents push (deps push.parents_of commit) (closures, counts) in
    let kept =
      if is_awaited retired.1 (min at u32_max)
      then keep_closure retired.0 (min at u32_max) closure
      else retired.0 in
    proven_of push commit closure commits boundaries queries
    ++ prove_loop push boundaries queries commits (at + 1) order kept retired.1

unfoldable pub prove : Push → Boundaries → List Query → List (ℕ × ℕ)
unfolding prove_loop children_left
prove push boundaries queries =
    prove_loop push boundaries queries (min (length push.order) u32_max) 0 push.order
      (record { live = []; resident = 0; oldest = [] }) (children_left push)

-- `Ancestry::holds`
unfoldable pub proven_has : List (ℕ × ℕ) → ℕ → ℕ → Bool
proven_has [] target home = false
proven_has (pair ∷ proven) target home =
    let rest = proven_has proven target home in
    if pair.0 == target && pair.1 == home then true else rest

unfoldable pub holds : List (ℕ × ℕ) → Query → Bool
unfolding proven_has
holds proven query = query.target == query.home || proven_has proven query.target query.home

-- `Push::boundaries`
unfoldable pub boundaries_of : Push → ℕ → List ℕ
unfolding boundaries_loop parents_along
boundaries_of push max =
    take max (boundaries_loop push.parents_of [] (parents_along push.parents_of push.order))
