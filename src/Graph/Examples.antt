-- ===== src/Graph/Examples.antt =====
-- The theorems on a push's commits at concrete inputs.
use enroute.Prelude.{All, ℕ, ◌<◌, ◌≡◌, refl, true, List, [], ◌∷◌, arith, ok}
use enroute.Prelude.Sets.{has, IsDistinct}
use enroute.Prelude.Dict.{get, nat_key}
use enroute.Graph.TopoOrder.{keys, in_batch, drained, topo_order}
use enroute.Graph.TopoOrder.Counts.{parents_in}
use enroute.Graph.TopoOrder.Sorted.{IsDrained}
use enroute.Graph.TopoOrder.Order.{
  IsTopological, drained-IsDrained, topo_order-IsTopological, topo_order_total,
}
use enroute.Graph.Ancestry.{Push, Boundaries, Query, index_from, push_of, prove}
use enroute.Graph.Ancestry.Sound.{IsReached, prove-IsReached}

-- A line of commits, the last one first, whose first has a parent that the push does not send.
abbrev line : List (ℕ × List ℕ)
line = (3, 2 ∷ []) ∷ (1, 9 ∷ []) ∷ (2, 1 ∷ []) ∷ []

line-IsDistinct : IsDistinct (keys line)
unfolding IsDistinct keys has
line-IsDistinct = (refl, (refl, (refl, tt)))

line_ordered : topo_order line ≡ ok (1 ∷ 2 ∷ 3 ∷ [])
unfolding topo_order
line_ordered = refl

drained-IsDrained_example : IsDrained line [] (drained line)
drained-IsDrained_example = drained-IsDrained line line-IsDistinct

topo_order-IsTopological_example : IsTopological line (1 ∷ 2 ∷ 3 ∷ [])
topo_order-IsTopological_example =
    topo_order-IsTopological line (1 ∷ 2 ∷ 3 ∷ []) line-IsDistinct line_ordered

line_below : (c q : ℕ) → has (parents_in line c) q ≡ true → in_batch line q ≡ true → q < c
unfolding has parents_in in_batch get
line_below c q h i = ground arith

topo_order_total_example : (order : List ℕ) × (topo_order line ≡ ok order)
topo_order_total_example = topo_order_total line (λ c. c) line-IsDistinct line_below

-- The line as a push: its boundary 9 reaches commit 8.
abbrev line_push : Push
line_push = record {
  order = 1 ∷ 2 ∷ 3 ∷ [];
  parents_of = line;
  index_of = (1, 0) ∷ (2, 1) ∷ (3, 2) ∷ [];
}

line_pushed : push_of line ≡ ok line_push
unfolding push_of topo_order index_from
line_pushed = refl

abbrev boundary : Boundaries
boundary = record { oids = 9 ∷ []; reachable = (8 ∷ []) ∷ [] }

abbrev queries : List Query
queries =
    record { target = 3; home = 1 }
    ∷ record { target = 3; home = 8 }
    ∷ record { target = 1; home = 2 }
    ∷ record { target = 2; home = 7 }
    ∷ []

prove-IsReached_example :
    All (λ pair. IsReached line_push boundary pair.0 pair.1) (prove line_push boundary queries)
prove-IsReached_example =
    prove-IsReached line line_push boundary queries line_pushed refl (omega arith)

-- The first two of the queries are proven, and the others are not.
line_proven : prove line_push boundary queries ≡ (3, 1) ∷ (3, 8) ∷ []
unfolding prove
line_proven = refl
