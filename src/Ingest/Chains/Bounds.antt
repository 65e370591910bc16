-- ===== src/Ingest/Chains/Bounds.antt =====
-- What `bound_chains` leaves: short chains, of bases that precede their objects.
use enroute.Prelude.{none≢some, ℕ, ◌<◌, ◌≡◌, refl, false, none, some, List, [], ◌++◌, ok}
use enroute.Prelude.Sets.{has}
use enroute.Prelude.Dict.{get, nat_key}
use enroute.Graph.TopoOrder.{topo_order}
use enroute.Ingest.DeltaPlan.{oids, DeltaEntry, max_blob_chain, max_chain}
use enroute.Ingest.Chains.{
  ObjectIndex, Walk, walk_commits, ordered, values, older_bases, deltified, distinct, unwalked,
  bound_chains,
}
use enroute.Ingest.Chains.Ranks.{IsWalk}
use enroute.Ingest.Chains.Backward.{Within}

-- The walk that a call takes, once the index and the order are known.
abbrev pub plan_walk :
    List (ℕ × ℕ)
    → List (ℕ × ℕ)
    → List (ℕ × List DeltaEntry)
    → List ℕ
    → Walk × List (ℕ × List DeltaEntry)
plan_walk older stored_at packs order = walk_commits older stored_at unwalked packs order

pub bound_chains_runs :
    (objects : ObjectIndex) (packs : List (ℕ × List DeltaEntry)) (parents_of : List (ℕ × List ℕ))
    (older stored_at : List (ℕ × ℕ)) (order : List ℕ)
    → objects.chain_depths (older_bases (oids (values packs)) [] (values packs)) max_blob_chain
      ≡ ok older
    → objects.first_packs (
        distinct []
          (deltified (values packs) ++ older_bases (oids (values packs)) [] (values packs)))
      ≡ ok stored_at
    → topo_order parents_of ≡ ok order
    → bound_chains objects packs parents_of ≡ ok (plan_walk older stored_at packs order)
unfolding bound_chains ordered
bound_chains_runs objects packs parents_of older stored_at order e f t = rw (e, f, t) refl

pub unwalked-IsWalk : IsWalk unwalked
unfolding get
unwalked-IsWalk = record {
  ranked = λ o d e. absurd (none≢some refl e);
  below = λ o r e. absurd (none≢some refl e);
}

-- Where a base stands: the push does not carry it and the index gave its depth, or the walk comes to it
-- before its object, which the store does not hold.
pub data Stands (packs : List (ℕ × List DeltaEntry)) (older stored_at rank : List (ℕ × ℕ)) (b o : ℕ)
    : Type 0 where
  not_carried :
      (d : ℕ)
      → get older b ≡ some d
      → has (oids (values packs)) b ≡ false
      → Stands packs older stored_at rank b o
  walked_before :
      (p q : ℕ)
      → get rank b ≡ some p
      → get rank o ≡ some q
      → p < q
      → get stored_at o ≡ none
      → Stands packs older stored_at rank b o

-- An entry as a call leaves it.
pub record IsLeft (packs : List (ℕ × List DeltaEntry)) (older stored_at : List (ℕ × ℕ)) (w : Walk)
    (e : DeltaEntry) : Type 0 where
  pub stands : (b : ℕ) → e.base ≡ some b → Stands packs older stored_at w.rank b e.oid
  pub within : (b : ℕ) → e.base ≡ some b → Within older w.depth b (max_chain e.kind)
