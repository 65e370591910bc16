-- ===== src/Graph/TopoOrder/Sorted.antt =====
-- The order: every commit after its parents, each once, with fuel enough.
use mathlib.Core.Bool.{true≢false}
use enroute.Prelude.{
  ℕ, zero, suc, ◌+◌, ◌≤◌, ◌≡◌, refl, sym, ◌∙◌, true, false, Bool-cases, inl, inr, List, [], ◌∷◌,
  ◌++◌, length, length-append, ◌==◌, ==_iff, arith,
}
use enroute.Prelude.Sets.{
  has, IsDistinct, has_cons, has_cons_not, has_nothing, has_here, has_there, has_apart_not,
}
use enroute.Graph.TopoOrder.{degree, deps, in_batch, keys, release, sort_oids, drain}
use enroute.Graph.TopoOrder.Counts.{count, parents_in, undone, undone_out, undone_had}
use enroute.Graph.TopoOrder.Undone.{undone_some, all_done}
use enroute.Graph.TopoOrder.Released.{IsReleased, release-IsReleased}
use enroute.Graph.TopoOrder.Positives.{positives}
use enroute.Graph.TopoOrder.Queued.{
  IsQueued, IsWaiting, popped-IsQueued, waits_in, some_left, undone_nothing,
}
use enroute.Graph.TopoOrder.Sort.{length-sort_oids}

-- Every commit of an order stands after its parents that the batch has.
unfoldable pub AfterParents : List (ℕ × List ℕ) → List ℕ → List ℕ → Type 0
AfterParents batch done [] = Unit {0}
AfterParents batch done (c ∷ order) =
    ((q : ℕ) → has (parents_in batch c) q ≡ true → in_batch batch q ≡ true → has done q ≡ true)
    × AfterParents batch (c ∷ done) order

-- A commit that is left out has a parent in the batch that is left out.
pub data IsStuck (batch : List (ℕ × List ℕ)) (done order : List ℕ) (x : ℕ) : Type 0 where
  stuck_on :
      (q : ℕ)
      → has (parents_in batch x) q ≡ true
      → in_batch batch q ≡ true
      → has order q ≡ false
      → has done q ≡ false
      → IsStuck batch done order x

-- What the loop over the queue comes to: an order with nothing left over.
pub record IsDrained (batch : List (ℕ × List ℕ)) (done : List ℕ) (result : List ℕ × List ℕ)
    : Type 0 where
  pub sorted : AfterParents batch done result.0
  pub emptied : result.1 ≡ []
  pub fresh : (x : ℕ) → has result.0 x ≡ true → has done x ≡ false
  pub within : (x : ℕ) → has result.0 x ≡ true → has (keys batch) x ≡ true
  pub stuck :
      (x : ℕ)
      → has (keys batch) x ≡ true
      → has result.0 x ≡ false
      → has done x ≡ false
      → IsStuck batch done result.0 x
  pub distinct : IsDistinct result.0

-- A parent in the batch that is not done, of those that are counted.
some_undone :
    (batch : List (ℕ × List ℕ)) (done ps : List ℕ)
    → 1 ≤ undone batch done ps
    → (q : ℕ) × (has ps q ≡ true) × (in_batch batch q ≡ true) × (has done q ≡ false)
some_undone batch done [] h = absurd (omega (arith, h, undone_nothing batch done))
some_undone batch done (p ∷ ps) h = elim (Bool-cases (in_batch batch p)) [
  | inr i ↦ more (some_undone batch done ps (omega (arith, h, undone_out batch done p ps i)))
  | inl i ↦ elim (Bool-cases (has done p)) [
    | inl d ↦ more (some_undone batch done ps (omega (arith, h, undone_had batch done p ps d)))
    | inr d ↦ (p, has_here p p ps refl, i, d)
  ]
]
  where
    more :
        (q : ℕ) × (has ps q ≡ true) × (in_batch batch q ≡ true) × (has done q ≡ false)
        → (q : ℕ) × (has (p ∷ ps) q ≡ true) × (in_batch batch q ≡ true) × (has done q ≡ false)
    more (q, k, i, d) = (q, has_there p q ps k, i, d)

nothing-IsDrained :
    (batch : List (ℕ × List ℕ)) (d : List (ℕ × ℕ)) (done : List ℕ)
    → IsQueued batch d done []
    → IsDrained batch done ([], [])
unfolding AfterParents IsDistinct
nothing-IsDrained batch d done h = record {
  sorted = tt;
  emptied = refl;
  fresh = λ x k. absurd (true≢false (sym k ∙ has_nothing x));
  within = λ x k. absurd (true≢false (sym k ∙ has_nothing x));
  stuck = λ x k n m. stuck x (
      some_undone batch done (parents_in batch x)
        (omega (arith, sym (h.exact x), degree_left x k m)));
  distinct = tt;
}
  where
    degree_left : (x : ℕ) → has (keys batch) x ≡ true → has done x ≡ false → 1 ≤ degree d x
    degree_left x k m = elim (Bool-cases (degree d x == 0)) [
      | inr z ↦ some_left z
      | inl z ↦ elim (h.covered x k ((==_iff (degree d x) 0).0 z)) [
        | inl l ↦ absurd (true≢false (sym l ∙ has_nothing x))
        | inr l ↦ absurd (true≢false (sym l ∙ m))
      ]
    ]

    stuck :
        (x : ℕ)
        → (q : ℕ) × (has (parents_in batch x) q ≡ true)
          × (in_batch batch q ≡ true)
          × (has done q ≡ false)
        → IsStuck batch done [] x
    stuck x (q, k, i, n) = stuck_on q k i (has_nothing q) n

popped-IsDrained :
    (batch : List (ℕ × List ℕ)) (d : List (ℕ × ℕ)) (done queue : List ℕ) (p : ℕ)
    (rest : List ℕ × List ℕ)
    → IsQueued batch d done (p ∷ queue)
    → IsDrained batch (p ∷ done) rest
    → IsDrained batch done (p ∷ rest.0, rest.1)
unfolding AfterParents IsDistinct
popped-IsDrained batch d done queue p rest h r = record {
  sorted = (
    λ q k i.
        all_done batch done (parents_in batch p) q
          (sym (h.exact p) ∙ h.free p (has_here p p queue refl)) k i,
    r.sorted,
  );
  emptied = r.emptied;
  fresh = λ x k. elim (has_cons p x rest.0 k) [
    | inl q ↦ h.apart x (has_here p x queue q)
    | inr l ↦ (has_cons_not p x done (r.fresh x l)).1
  ];
  within = λ x k. elim (has_cons p x rest.0 k) [
    | inl q ↦ h.within x (has_here p x queue q)
    | inr l ↦ r.within x l
  ];
  stuck = λ x k n m. left x (
      r.stuck x k (has_cons_not p x rest.0 n).1
        (has_apart_not p x done (has_cons_not p x rest.0 n).0 m));
  distinct = (
    elim (Bool-cases (has rest.0 p)) [
      | inl k ↦ absurd (true≢false (sym (has_here p p done refl) ∙ r.fresh p k))
      | inr k ↦ k
    ],
    r.distinct,
  );
}
  where
    left : (x : ℕ) → IsStuck batch (p ∷ done) rest.0 x → IsStuck batch done (p ∷ rest.0) x
    left x (stuck_on q k i n m) =
        let apart = has_cons_not p q done m in
        stuck_on q k i (has_apart_not p q rest.0 apart.0 n) apart.1

pub drain-IsDrained :
    (fuel : ℕ) (batch rev : List (ℕ × List ℕ)) (d : List (ℕ × ℕ)) (done queue : List ℕ)
    → IsWaiting batch rev
    → IsQueued batch d done queue
    → positives (keys batch) d + length queue ≤ fuel
    → IsDrained batch done (drain fuel d rev queue)
unfolding drain IsWaiting
drain-IsDrained zero batch rev d done [] w h f = nothing-IsDrained batch d done h
drain-IsDrained zero batch rev d done (p ∷ queue) w h f = absurd (omega (arith, f))
drain-IsDrained (suc fuel) batch rev d done [] w h f = nothing-IsDrained batch d done h
drain-IsDrained (suc fuel) batch rev d done (p ∷ queue) w h f =
    popped-IsDrained batch d done queue p _ h (
      drain-IsDrained fuel batch rev (release d (deps rev p)).0 (p ∷ done)
        (queue ++ sort_oids (release d (deps rev p)).1) w
        (popped-IsQueued batch d done queue (deps rev p) p (release d (deps rev p)) (λ x. w x p) h
          released)
        enough)
  where
    bounded : (x : ℕ) → count x (deps rev p) ≤ degree d x
    bounded x = omega (
      arith,
      w x p,
      h.exact x,
      undone_some batch done p (parents_in batch x) (h.apart p (has_here p p queue refl)),
    )

    released : IsReleased (keys batch) d (deps rev p) (release d (deps rev p))
    released =
        release-IsReleased (deps rev p) (keys batch) d bounded
          (λ x k. waits_in batch d done x (h.exact x) k)

    enough :
        positives (keys batch) (release d (deps rev p)).0
          + length (queue ++ sort_oids (release d (deps rev p)).1)
        ≤ fuel
    enough = omega (
      arith,
      f,
      released.fewer,
      length-append queue (sort_oids (release d (deps rev p)).1),
      length-sort_oids (release d (deps rev p)).1,
    )
