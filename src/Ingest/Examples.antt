-- ===== src/Ingest/Examples.antt =====
-- The theorems on a push's plan at concrete inputs.
use enroute.Prelude.{ℕ, ◌≡◌, refl, true, none, some, List, [], ◌∷◌, arith, ok}
use enroute.Prelude.Sets.{has, IsDistinct}
use enroute.Prelude.Dict.{get, nat_key}
use enroute.Packfile.Format.{tree, blob}
use enroute.Graph.TopoOrder.{keys, topo_order}
use enroute.Ingest.DeltaPlan.{Change, DeltaEntry, wire, encoded, oids, order_entries, is_unchanged}
use enroute.Ingest.DeltaPlan.Order.{IsPack, order_entries-IsPack}
use enroute.Ingest.Chains.{ObjectIndex, values, older_bases, ordered, bound_chains}
use enroute.Ingest.Chains.Bounds.{plan_walk}
use enroute.Ingest.Chains.Cycle.{Chain, no_cycle}

-- Two blobs, one of them at two paths, and a tree.
abbrev changed : List Change
changed =
    record { kind = blob; old = some 10; new = 11 }
    ∷ record { kind = tree; old = some 50; new = 51 }
    ∷ record { kind = blob; old = some 13; new = 11 }
    ∷ record { kind = blob; old = none; new = 12 }
    ∷ []

order_entries-IsPack_example : IsPack 1 (some 2) changed (order_entries 1 (some 2) changed)
unfolding is_unchanged
order_entries-IsPack_example = order_entries-IsPack 1 (some 2) changed refl

-- A push of two commits: object 11 comes twice, and the second time it would close a loop with 12.
abbrev first_pack : List DeltaEntry
first_pack = record { oid = 11; kind = blob; base = some 2; source = encoded } ∷ []

abbrev second_pack : List DeltaEntry
second_pack =
    record { oid = 12; kind = blob; base = some 11; source = encoded }
    ∷ record { oid = 11; kind = blob; base = some 12; source = wire (record { pack = 0; at = 4 }) }
    ∷ []

abbrev packs : List (ℕ × List DeltaEntry)
packs = (100, first_pack) ∷ (101, second_pack) ∷ []

abbrev parents : List (ℕ × List ℕ)
parents = (101, 100 ∷ []) ∷ (100, []) ∷ []

-- An index that has object 2, at the end of a chain of one delta.
abbrev index : ObjectIndex
index = record {
  chain_depths = λ oids limit. ok ((2, 1) ∷ []);
  first_packs = λ oids. ok ((2, 5) ∷ []);
}

-- What is left of the second pack.
abbrev second_left : List DeltaEntry
second_left =
    record { oid = 12; kind = blob; base = some 11; source = encoded }
    ∷ record { oid = 11; kind = blob; base = none; source = encoded }
    ∷ []

ordered_parents : topo_order parents ≡ ok (100 ∷ 101 ∷ [])
unfolding topo_order
ordered_parents = refl

asked_alone :
    (b d : ℕ)
    → get ((2, 1) ∷ []) b ≡ some d
    → has (older_bases (oids (values packs)) [] (values packs)) b ≡ true
unfolding get has older_bases oids values
asked_alone b d h = ground arith

parents-IsDistinct : IsDistinct (keys parents)
unfolding IsDistinct keys has
parents-IsDistinct = (refl, (refl, tt))

all_held : (c : ℕ) (es : List DeltaEntry) → get packs c ≡ some es → has (keys parents) c ≡ true
unfolding get has keys
all_held c es h = ground arith

ran :
    bound_chains index packs parents
    ≡ ok (plan_walk ((2, 1) ∷ []) ((2, 5) ∷ []) packs (100 ∷ 101 ∷ []))
unfolding bound_chains topo_order ordered
ran = refl

no_cycle_example : ¬ (Chain (plan_walk ((2, 1) ∷ []) ((2, 5) ∷ []) packs (100 ∷ 101 ∷ [])).1 11 11)
no_cycle_example =
    no_cycle index packs (plan_walk ((2, 1) ∷ []) ((2, 5) ∷ []) packs (100 ∷ 101 ∷ [])).1 parents
      ((2, 1) ∷ []) ((2, 5) ∷ []) (100 ∷ 101 ∷ [])
      (plan_walk ((2, 1) ∷ []) ((2, 5) ∷ []) packs (100 ∷ 101 ∷ [])).0 11 refl refl ordered_parents
      asked_alone parents-IsDistinct all_held ran
