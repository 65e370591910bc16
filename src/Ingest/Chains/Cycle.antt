-- ===== src/Ingest/Chains/Cycle.antt =====
-- What `bound_chains` leaves makes no cycle.
use mathlib.Core.Bool.{true≢false}
use mathlib.Core.Path.{subst}
use enroute.Prelude.{
  none≢some, some_eq, ℕ, zero, suc, ◌<◌, ◌≡◌, refl, sym, ap, ◌∙◌, true, some, List, [], ◌∷◌, ◌++◌,
  arith, All, get_elem?, Result, ok, err,
}
use enroute.Prelude.Sets.{has, IsDistinct}
use enroute.Prelude.Dict.{get, nat_key}
use enroute.Graph.TopoOrder.{topo_order, keys}
use enroute.Graph.TopoOrder.Order.{topo_order-IsTopological}
use enroute.Ingest.DeltaPlan.{oids, DeltaEntry, max_blob_chain}
use enroute.Ingest.Chains.{
  ObjectIndex, PlanError, Walk, values, older_bases, deltified, distinct, unwalked, bound_chains,
}
use enroute.Ingest.Chains.Sets.{has-oids, has-values, older-apart}
use enroute.Ingest.Chains.Backward.{Precedes, is_older, is_ranked, IsBound}
use enroute.Ingest.Chains.Walked.{walk_commits-IsDone}
use enroute.Ingest.Chains.Came.{Came, came, walk_commits-Came}
use enroute.Ingest.Chains.Bounds.{plan_walk, bound_chains_runs, unwalked-IsWalk}

-- One entry of a pack deltas against another object.
pub data Edge (packs : List (ℕ × List DeltaEntry)) : ℕ → ℕ → Type 0 where
  edge :
      (c i : ℕ) (es : List DeltaEntry) (e : DeltaEntry) (b : ℕ)
      → get packs c ≡ some es
      → get_elem? es i ≡ some e
      → e.base ≡ some b
      → Edge packs e.oid b

-- One or more of them in a row.
pub data Chain (packs : List (ℕ × List DeltaEntry)) : ℕ → ℕ → Type 0 where
  last : {o b : ℕ} → Edge packs o b → Chain packs o b
  more : {o m b : ℕ} → Edge packs o m → Chain packs m b → Chain packs o b

All-get_elem? :
    (P : DeltaEntry → Type 0) (es : List DeltaEntry) (i : ℕ) (e : DeltaEntry)
    → All P es
    → get_elem? es i ≡ some e
    → P e
All-get_elem? P [] i e h g = absurd (none≢some refl g)
All-get_elem? P (x ∷ es) zero e h g = subst P (some_eq x e g) h.0
All-get_elem? P (x ∷ es) (suc i) e h g = All-get_elem? P es i e h.1 g

module _ (packs : List (ℕ × List DeltaEntry)) (older stored_at : List (ℕ × ℕ)) (order : List ℕ)
    (asked : (b d : ℕ)
      → get older b ≡ some d
      → has (older_bases (oids (values packs)) [] (values packs)) b ≡ true)
    (covers : (c : ℕ) (es : List DeltaEntry) → get packs c ≡ some es → has order c ≡ true) where
  abbrev rank : List (ℕ × ℕ)
  rank = (plan_walk older stored_at packs order).0.rank

  abbrev left : List (ℕ × List DeltaEntry)
  left = (plan_walk older stored_at packs order).1

  Came-carried :
      (c o : ℕ) (es : List DeltaEntry)
      → Came packs c es
      → has (oids es) o ≡ true
      → has (oids (values packs)) o ≡ true
  Came-carried c o es (came fs g p) h = has-values packs c o fs g (ap (λ s. has s o) (sym p) ∙ h)

  Came-covered : (c : ℕ) (es : List DeltaEntry) → Came packs c es → has order c ≡ true
  Came-covered c es (came fs g p) = covers c fs g

  left-Came : (c : ℕ) (es : List DeltaEntry) → get left c ≡ some es → Came packs c es
  left-Came c es g = walk_commits-Came order older stored_at unwalked packs c es g

  source_carried : {o b : ℕ} → Edge left o b → has (oids (values packs)) o ≡ true
  source_carried (edge c i es e b g k f) =
      Came-carried c e.oid es (left-Came c es g) (has-oids es i e k)

  left-IsBound :
      (c i : ℕ) (es : List DeltaEntry) (e : DeltaEntry)
      → get left c ≡ some es
      → get_elem? es i ≡ some e
      → IsBound older stored_at (plan_walk older stored_at packs order).0 e
  left-IsBound c i es e g k =
      All-get_elem? (IsBound older stored_at (plan_walk older stored_at packs order).0) es i e
        ((walk_commits-IsDone order older stored_at unwalked packs unwalked-IsWalk).bound c es
          (Came-covered c es (left-Came c es g)) g)
        k

  Edge-Precedes : {o b : ℕ} → Edge left o b → Precedes older stored_at rank b o
  Edge-Precedes (edge c i es e b g k f) = (left-IsBound c i es e g k).precedes b f

  down :
      {o b : ℕ}
      → Precedes older stored_at rank b o
      → has (oids (values packs)) b ≡ true
      → (p : ℕ) × (q : ℕ) × (get rank b ≡ some p) × (get rank o ≡ some q) × (p < q)
  down {o} {b} (is_older d e) h =
      absurd
        (true≢false (sym h ∙ older-apart (values packs) (oids (values packs)) [] b (asked b d e)))
  down (is_ranked p q e f l n) h = (p, q, e, f, l)

  chain_source : {o b : ℕ} → Chain left o b → has (oids (values packs)) o ≡ true
  chain_source (last x) = source_carried x
  chain_source (more x c) = source_carried x

  chain_down :
      {o b : ℕ}
      → Chain left o b
      → has (oids (values packs)) b ≡ true
      → (p : ℕ) × (q : ℕ) × (get rank b ≡ some p) × (get rank o ≡ some q) × (p < q)
  chain_down (last x) h = down (Edge-Precedes x) h
  chain_down (more x c) h =
      let (p, q, e, f, l) = chain_down c h in
      let (r, t, u, v, k) = down (Edge-Precedes x) (chain_source c) in
      (p, t, e, v, omega (arith, l, k, some_eq q r (sym f ∙ u)))

  acyclic : (o : ℕ) → ¬ (Chain left o o)
  acyclic o c =
      let (p, q, e, f, l) = chain_down c (chain_source c) in
      omega (arith, l, some_eq p q (sym e ∙ f))

packs_of :
    (done : List (ℕ × List DeltaEntry))
    → Result PlanError (Walk × List (ℕ × List DeltaEntry))
    → List (ℕ × List DeltaEntry)
packs_of done (ok a) = a.1
packs_of done (err e) = done

-- When the index answers, and for nothing but what it is asked, and the parents are a map that has every
-- commit with a pack, the entries that the call leaves make no cycle: no object is rebuilt from itself.
pub no_cycle :
    (objects : ObjectIndex) (packs done : List (ℕ × List DeltaEntry))
    (parents_of : List (ℕ × List ℕ)) (older stored_at : List (ℕ × ℕ)) (order : List ℕ) (w : Walk)
    (o : ℕ)
    → objects.chain_depths (older_bases (oids (values packs)) [] (values packs)) max_blob_chain
      ≡ ok older
    → objects.first_packs (
        distinct []
          (deltified (values packs) ++ older_bases (oids (values packs)) [] (values packs)))
      ≡ ok stored_at
    → topo_order parents_of ≡ ok order
    → ((b d : ℕ)
        → get older b ≡ some d
        → has (older_bases (oids (values packs)) [] (values packs)) b ≡ true)
    → IsDistinct (keys parents_of)
    → ((c : ℕ) (es : List DeltaEntry) → get packs c ≡ some es → has (keys parents_of) c ≡ true)
    → bound_chains objects packs parents_of ≡ ok (w, done)
    → ¬ (Chain done o o)
unfolding packs_of
no_cycle objects packs done parents_of older stored_at order w o e f t asked d held r loop =
    acyclic packs older stored_at order asked
      (λ c es g. (topo_order-IsTopological parents_of order d t).all c (held c es g)) o
      (subst (λ d. Chain d o o)
        (ap (packs_of done)
          (sym r ∙ bound_chains_runs objects packs parents_of older stored_at order e f t))
        loop)
