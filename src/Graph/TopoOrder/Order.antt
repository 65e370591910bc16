-- ===== src/Graph/TopoOrder/Order.antt =====
-- What `topo_order` promises: parents first, nothing left out, and an error for a cycle alone.
use mathlib.Core.Bool.{true≢false}
use mathlib.Core.Path.{subst}
use enroute.Prelude.{
  ℕ, zero, suc, ◌<◌, ◌≡◌, ◌≢◌, refl, sym, ap, ◌∙◌, Bool, true, false, Bool-cases, inl, inr, List,
  [], ◌∷◌, length, ◌==◌, ==_iff, arith, Result, ok, err,
}
use enroute.Prelude.Sets.{
  has, IsDistinct, has_cons, has_nothing, has_here, has_there, IsDistinct-cons,
}
use enroute.Prelude.Pigeonhole.{length_le}
use enroute.Prelude.Dict.{get, nat_key}
use enroute.Graph.TopoOrder.{
  in_batch, keys, sort_oids, drained, ready_of, edges_of, topo_order, cycle_detected, TopoError,
}
use enroute.Graph.TopoOrder.Counts.{parents_in}
use enroute.Graph.TopoOrder.Waiting.{degree-edges_of, waiting-edges_of}
use enroute.Graph.TopoOrder.Queued.{IsQueued, IsWaiting}
use enroute.Graph.TopoOrder.Sorted.{AfterParents, IsDrained, stuck_on, drain-IsDrained}
use enroute.Graph.TopoOrder.Ready.{IsReady, ready_of-IsReady, ready_of-IsDistinct}
use enroute.Graph.TopoOrder.Sort.{has-sort_oids, length-sort_oids, sort_oids-IsDistinct}

length-keys : (batch : List (ℕ × List ℕ)) → length (keys batch) ≡ length batch
unfolding keys
length-keys [] = refl
length-keys (one ∷ batch) = ap suc (length-keys batch)

start-IsQueued :
    (batch : List (ℕ × List ℕ)) (ready : List ℕ)
    → IsDistinct ready
    → IsReady (edges_of batch).in_degree (keys batch) ready
    → IsQueued batch (edges_of batch).in_degree [] (sort_oids ready)
start-IsQueued batch ready d r = record {
  exact = degree-edges_of batch;
  free = λ x h. r.free x (sym (has-sort_oids ready x) ∙ h);
  settled = λ x h. absurd (true≢false (sym h ∙ has_nothing x));
  apart = λ x h. has_nothing x;
  within = λ x h. r.within x (sym (has-sort_oids ready x) ∙ h);
  covered = λ x h e. inl (has-sort_oids ready x ∙ r.covered x h e);
  distinct = sort_oids-IsDistinct ready d;
}

edges_of-IsWaiting : (batch : List (ℕ × List ℕ)) → IsWaiting batch (edges_of batch).rev_deps
unfolding IsWaiting
edges_of-IsWaiting batch = waiting-edges_of batch

-- For a batch that is a map, the loop over the queue ends with its queue empty: it has popped commits of
-- the batch only, none twice, each after its parents in the batch, and a commit that it left out has a
-- parent in the batch that it left out.
pub drained-IsDrained :
    (batch : List (ℕ × List ℕ)) → IsDistinct (keys batch) → IsDrained batch [] (drained batch)
unfolding drained
drained-IsDrained batch h =
    drain-IsDrained (length batch) batch (edges_of batch).rev_deps (edges_of batch).in_degree [] _
      (edges_of-IsWaiting batch)
      (start-IsQueued batch _ (ready_of-IsDistinct (keys batch) _ h) ready)
      (omega (
        arith,
        ready.total,
        length-keys batch,
        length-sort_oids (ready_of (edges_of batch).in_degree (keys batch)),
      ))
  where
    ready :
        IsReady
          (edges_of batch).in_degree
          (keys batch)
          (ready_of (edges_of batch).in_degree (keys batch))
    ready = ready_of-IsReady (keys batch) (edges_of batch).in_degree

data Answers (batch : List (ℕ × List ℕ)) : Type 0 where
  answers :
      length (drained batch).0 ≡ length batch
      → topo_order batch ≡ ok (drained batch).0
      → Answers batch
  refuses :
      length (drained batch).0 ≢ length batch
      → topo_order batch ≡ err cycle_detected
      → Answers batch

topo_order_full :
    (batch : List (ℕ × List ℕ))
    → (length (drained batch).0 == length batch) ≡ true
    → topo_order batch ≡ ok (drained batch).0
unfolding topo_order
topo_order_full batch q = rw q refl

topo_order_short :
    (batch : List (ℕ × List ℕ))
    → (length (drained batch).0 == length batch) ≡ false
    → topo_order batch ≡ err cycle_detected
unfolding topo_order
topo_order_short batch q = rw q refl

answer : (batch : List (ℕ × List ℕ)) → Answers batch
answer batch = elim (Bool-cases (length (drained batch).0 == length batch)) [
  | inl q ↦
      answers ((==_iff (length (drained batch).0) (length batch)).0 q) (topo_order_full batch q)
  | inr q ↦
      refuses (λ e. true≢false (sym ((==_iff (length (drained batch).0) (length batch)).1 e) ∙ q))
        (topo_order_short batch q)
]

unfoldable order_of : Result TopoError (List ℕ) → List ℕ
order_of (ok order) = order
order_of (err e) = []

unfoldable is_ok : Result TopoError (List ℕ) → Bool
is_ok (ok order) = true
is_ok (err e) = false

-- Nothing of the batch is missing from an order as long as it.
none_missing :
    (batch : List (ℕ × List ℕ)) (result : List ℕ × List ℕ) (c : ℕ)
    → IsDrained batch [] result
    → length result.0 ≡ length batch
    → has (keys batch) c ≡ true
    → has result.0 c ≡ true
none_missing batch result c h e k = elim (Bool-cases (has result.0 c)) [
  | inl q ↦ q
  | inr q ↦ absurd (
      omega (
        arith,
        e,
        length-keys batch,
        length_le (c ∷ result.0) (keys batch) (IsDistinct-cons c result.0 q h.distinct) (more c k),
      ))
]
  where
    more :
        (c : ℕ)
        → has (keys batch) c ≡ true
        → (x : ℕ) → has (c ∷ result.0) x ≡ true
        → has (keys batch) x ≡ true
    more c k x m = elim (has_cons c x result.0 m) [
      | inl p ↦ ap (has (keys batch)) (sym p) ∙ k
      | inr l ↦ h.within x l
    ]

-- An order that is answered has the batch's commits, all of them and no other, each once and after its
-- parents in the batch.
pub record IsTopological (batch : List (ℕ × List ℕ)) (order : List ℕ) : Type 0 where
  pub sorted : AfterParents batch [] order
  pub all : (c : ℕ) → has (keys batch) c ≡ true → has order c ≡ true
  pub only : (c : ℕ) → has order c ≡ true → has (keys batch) c ≡ true
  pub once : IsDistinct order

-- For a batch that is a map, an order that is answered has all of the batch's commits, no other and none
-- twice, each after its parents in the batch.
pub topo_order-IsTopological :
    (batch : List (ℕ × List ℕ)) (order : List ℕ)
    → IsDistinct (keys batch)
    → topo_order batch ≡ ok order
    → IsTopological batch order
unfolding order_of is_ok
topo_order-IsTopological batch order d e = elim (answer batch) [
  | answers l q ↦ subst (IsTopological batch) (ap order_of (sym q ∙ e)) (record {
    sorted = h.sorted;
    all = λ c k. none_missing batch (drained batch) c h l k;
    only = h.within;
    once = h.distinct;
  })
  | refuses n q ↦ absurd (true≢false (ap is_ok (sym e ∙ q)))
]
  where
    h : IsDrained batch [] (drained batch)
    h = drained-IsDrained batch d

in_rest :
    (one : ℕ × List ℕ) (batch : List (ℕ × List ℕ)) (q : ℕ)
    → (one.0 == q) ≡ false
    → in_batch (one ∷ batch) q ≡ in_batch batch q
unfolding in_batch get
in_rest one batch q e = rw (e, in_batch) refl

has-keys : (batch : List (ℕ × List ℕ)) (q : ℕ) → in_batch batch q ≡ true → has (keys batch) q ≡ true
unfolding in_batch keys get
has-keys [] q i = absurd (true≢false (sym i))
has-keys (one ∷ batch) q i = elim (Bool-cases (one.0 == q)) [
  | inl e ↦ has_here one.0 q (keys batch) ((==_iff one.0 q).0 e)
  | inr e ↦ has_there one.0 q (keys batch) (has-keys batch q (sym (in_rest one batch q e) ∙ i))
]

-- With a rank that every commit has above its parents, none is left out.
ranked :
    (n : ℕ) (batch : List (ℕ × List ℕ)) (rank : ℕ → ℕ) (result : List ℕ × List ℕ) (c : ℕ)
    → IsDrained batch [] result
    → ((c q : ℕ) → has (parents_in batch c) q ≡ true → in_batch batch q ≡ true → rank q < rank c)
    → rank c < n
    → has (keys batch) c ≡ true
    → has result.0 c ≡ true
ranked zero batch rank result c h below l k = absurd (omega (arith, l))
ranked (suc n) batch rank result c h below l k = elim (Bool-cases (has result.0 c)) [
  | inl q ↦ q
  | inr q ↦ elim (h.stuck c k q (has_nothing c)) [
    | stuck_on p m i o e ↦ absurd (
        true≢false (
          sym (
            ranked n batch rank result p h below (omega (arith, l, below c p m i))
              (has-keys batch p i))
          ∙ o))
  ]
]

-- For a batch that is a map and has no cycle, as a rank shows that each commit has above its parents, an
-- order is answered.
pub topo_order_total :
    (batch : List (ℕ × List ℕ)) (rank : ℕ → ℕ)
    → IsDistinct (keys batch)
    → ((c q : ℕ) → has (parents_in batch c) q ≡ true → in_batch batch q ≡ true → rank q < rank c)
    → (order : List ℕ) × (topo_order batch ≡ ok order)
topo_order_total batch rank d below = elim (answer batch) [
  | answers l q ↦ ((drained batch).0, q)
  | refuses n q ↦ absurd (
      n (
        omega (
          arith,
          length-keys batch,
          length_le (drained batch).0 (keys batch) h.distinct h.within,
          length_le (keys batch) (drained batch).0 d
              (λ c k. ranked (suc (rank c)) batch rank (drained batch) c h below (omega arith) k),
        )))
]
  where
    h : IsDrained batch [] (drained batch)
    h = drained-IsDrained batch d
