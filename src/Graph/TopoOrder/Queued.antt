-- ===== src/Graph/TopoOrder/Queued.antt =====
-- What popping a commit off the queue keeps.
use mathlib.Core.Bool.{true≢false}
use enroute.Prelude.{
  ◌⊎◌, ℕ, ◌≤◌, ◌≡◌, refl, sym, ap, ◌∙◌, true, false, Bool-cases, inl, inr, List, [], ◌∷◌, ◌++◌,
  ◌==◌, ==_iff, ne→==, eq→==, ltb, ltb→lt, arith,
}
use enroute.Prelude.Sets.{
  has, IsDistinct, has_cons, has_cons_not, has_here, has_there, has_either, has_front, has_back,
  IsDistinct-append, IsDistinct_split, has_apart,
}
use enroute.Prelude.Dict.{nat_key}
use enroute.Graph.TopoOrder.{degree, deps, keys, sort_oids}
use enroute.Graph.TopoOrder.Counts.{count, parents_in, undone, named_by}
use enroute.Graph.TopoOrder.Undone.{undone_step}
use enroute.Graph.TopoOrder.Released.{IsReleased}
use enroute.Graph.TopoOrder.Sort.{has-sort_oids, sort_oids-IsDistinct}

-- What the queue and the degrees are, when some commits are done.
pub record IsQueued (batch : List (ℕ × List ℕ)) (d : List (ℕ × ℕ)) (done queue : List ℕ)
    : Type 0 where
  pub exact : (x : ℕ) → degree d x ≡ undone batch done (parents_in batch x)
  pub free : (x : ℕ) → has queue x ≡ true → degree d x ≡ 0
  pub settled : (x : ℕ) → has done x ≡ true → degree d x ≡ 0
  pub apart : (x : ℕ) → has queue x ≡ true → has done x ≡ false
  pub within : (x : ℕ) → has queue x ≡ true → has (keys batch) x ≡ true
  pub covered :
      (x : ℕ)
      → has (keys batch) x ≡ true
      → degree d x ≡ 0
      → (has queue x ≡ true) ⊎ (has done x ≡ true)
  pub distinct : IsDistinct queue

-- A list that waits for a commit names each other as often as its parents name that commit.
unfoldable pub IsWaiting : List (ℕ × List ℕ) → List (ℕ × List ℕ) → Type 0
IsWaiting batch rev = (c q : ℕ) → count c (deps rev q) ≡ named_by batch q (parents_in batch c)

-- A commit that the batch has not has no parents in it.
parents_nothing :
    (batch : List (ℕ × List ℕ)) (x : ℕ) → has (keys batch) x ≡ false → parents_in batch x ≡ []
unfolding parents_in keys
parents_nothing [] x h = refl
parents_nothing (one ∷ batch) x h =
    let n = has_cons_not one.0 x (keys batch) h in
    rw (ne→== one.0 x n.0) (parents_nothing batch x n.1)

pub undone_nothing : (batch : List (ℕ × List ℕ)) (done : List ℕ) → undone batch done [] ≡ 0
unfolding undone
undone_nothing batch done = refl

-- Only the batch's commits have a degree.
pub waits_in :
    (batch : List (ℕ × List ℕ)) (d : List (ℕ × ℕ)) (done : List ℕ) (x : ℕ)
    → degree d x ≡ undone batch done (parents_in batch x)
    → 1 ≤ degree d x
    → has (keys batch) x ≡ true
waits_in batch d done x e h = elim (Bool-cases (has (keys batch) x)) [
  | inl k ↦ k
  | inr k ↦ absurd (
      omega (
        arith,
        e,
        h,
        ap (undone batch done) (parents_nothing batch x k),
        undone_nothing batch done,
      ))
]

pub some_left : {n : ℕ} → (n == 0) ≡ false → 1 ≤ n
some_left {n} q = elim (Bool-cases (ltb 0 n)) [
  | inl e ↦ ltb→lt 0 n e
  | inr e ↦ absurd (true≢false (sym (eq→== n 0 (ground arith)) ∙ q))
]

pub popped-IsQueued :
    (batch : List (ℕ × List ℕ)) (d : List (ℕ × ℕ)) (done queue waiting : List ℕ) (p : ℕ)
    (released : List (ℕ × ℕ) × List ℕ)
    → ((x : ℕ) → count x waiting ≡ named_by batch p (parents_in batch x))
    → IsQueued batch d done (p ∷ queue)
    → IsReleased (keys batch) d waiting released
    → IsQueued batch released.0 (p ∷ done) (queue ++ sort_oids released.1)
popped-IsQueued batch d done queue waiting p released w h r = record {
  exact = exact;
  free = free;
  settled = settled;
  apart = apart;
  within = within;
  covered = covered;
  distinct = distinct;
}
  where
    fresh : has done p ≡ false
    fresh = h.apart p (has_here p p queue refl)

    alone : has queue p ≡ false
    alone = (IsDistinct_split p queue h.distinct).0

    new : (x : ℕ) → has (sort_oids released.1) x ≡ true → has released.1 x ≡ true
    new x k = sym (has-sort_oids released.1 x) ∙ k

    waits : (x : ℕ) → has released.1 x ≡ true → 1 ≤ degree d x
    waits x k = omega (arith, r.waited x k, r.degrees x)

    exact : (x : ℕ) → degree released.0 x ≡ undone batch (p ∷ done) (parents_in batch x)
    exact x =
        omega
          (arith, r.degrees x, w x, h.exact x, undone_step batch done p (parents_in batch x) fresh)

    free : (x : ℕ) → has (queue ++ sort_oids released.1) x ≡ true → degree released.0 x ≡ 0
    free x k = elim (has_either queue (sort_oids released.1) x k) [
      | inl l ↦ omega (arith, r.degrees x, h.free x (has_there p x queue l))
      | inr l ↦ r.freed x (new x l)
    ]

    was_zero : (x : ℕ) → has (p ∷ done) x ≡ true → degree d x ≡ 0
    was_zero x k = elim (has_cons p x done k) [
      | inl q ↦ h.free x (has_here p x queue q)
      | inr l ↦ h.settled x l
    ]

    settled : (x : ℕ) → has (p ∷ done) x ≡ true → degree released.0 x ≡ 0
    settled x k = omega (arith, r.degrees x, was_zero x k)

    apart : (x : ℕ) → has (queue ++ sort_oids released.1) x ≡ true → has (p ∷ done) x ≡ false
    apart x k = elim (has_either queue (sort_oids released.1) x k) [
      | inl l ↦ elim (Bool-cases (p == x)) [
        | inl q ↦ absurd (true≢false (sym l ∙ ap (has queue) (sym ((==_iff p x).0 q)) ∙ alone))
        | inr q ↦ has_apart p x done q ∙ h.apart x (has_there p x queue l)
      ]
      | inr l ↦ elim (Bool-cases (has (p ∷ done) x)) [
        | inr q ↦ q
        | inl q ↦ absurd (omega (arith, was_zero x q, waits x (new x l)))
      ]
    ]

    unlike : (x : ℕ) → has queue x ≡ true → has (sort_oids released.1) x ≡ false
    unlike x k = elim (Bool-cases (has (sort_oids released.1) x)) [
      | inr q ↦ q
      | inl q ↦ absurd (omega (arith, h.free x (has_there p x queue k), waits x (new x q)))
    ]

    within : (x : ℕ) → has (queue ++ sort_oids released.1) x ≡ true → has (keys batch) x ≡ true
    within x k = elim (has_either queue (sort_oids released.1) x k) [
      | inl l ↦ h.within x (has_there p x queue l)
      | inr l ↦ waits_in batch d done x (h.exact x) (waits x (new x l))
    ]

    before :
        (x : ℕ)
        → (has (p ∷ queue) x ≡ true) ⊎ (has done x ≡ true)
        → (has (queue ++ sort_oids released.1) x ≡ true) ⊎ (has (p ∷ done) x ≡ true)
    before x (inr l) = inr (has_there p x done l)
    before x (inl k) = elim (has_cons p x queue k) [
      | inl q ↦ inr (has_here p x done q)
      | inr l ↦ inl (has_front queue (sort_oids released.1) x l)
    ]

    covered :
        (x : ℕ)
        → has (keys batch) x ≡ true
        → degree released.0 x ≡ 0
        → (has (queue ++ sort_oids released.1) x ≡ true) ⊎ (has (p ∷ done) x ≡ true)
    covered x k e = elim (Bool-cases (degree d x == 0)) [
      | inl z ↦ before x (h.covered x k ((==_iff (degree d x) 0).0 z))
      | inr z ↦ inl (
          has_back queue (sort_oids released.1) x
            (has-sort_oids released.1 x ∙ r.complete x (some_left z) e))
    ]

    distinct : IsDistinct (queue ++ sort_oids released.1)
    distinct =
        IsDistinct-append queue (sort_oids released.1) (IsDistinct_split p queue h.distinct).1
          (sort_oids-IsDistinct released.1 r.distinct) unlike
