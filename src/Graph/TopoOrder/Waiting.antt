-- ===== src/Graph/TopoOrder/Waiting.antt =====
-- The lists of commits that wait for an object, from the empty ones on.
use mathlib.Core.Path.{subst}
use enroute.Prelude.{
  ℕ, ◌+◌, ◌≡◌, refl, sym, ap, ◌∙◌, true, false, Bool-cases, inl, inr, List, [], ◌∷◌, ◌++◌, ◌==◌,
  ==_iff, arith,
}
use enroute.Prelude.Dict.{get, put, nat_key}
use enroute.Graph.TopoOrder.{
  Edges, degree, deps, in_batch, add_edge, add_parents, add_commits, zeros, edges_of,
}
use enroute.Graph.TopoOrder.Counts.{
  count, count-append, count_here, count_apart, parents_in, undone, undone_append, named_by,
  named_by_in, named_by_out, named_by_append,
}
use enroute.Graph.TopoOrder.Degrees.{
  deps-put_same, deps-put_apart, share, share_same, share_apart, adds, skips, adds_nothing,
  degree_parents_same, degree_parents_apart, undone_nothing,
}

count_nothing : (c : ℕ) → count c [] ≡ 0
unfolding count
count_nothing c = refl

named_nothing : (batch : List (ℕ × List ℕ)) (q : ℕ) → named_by batch q [] ≡ 0
named_nothing batch q = elim (Bool-cases (in_batch batch q)) [
  | inl i ↦ named_by_in batch q [] i ∙ count_nothing q
  | inr i ↦ named_by_out batch q [] i
]

share_append :
    (oid c : ℕ) (xs ys : List ℕ) → share oid c (xs ++ ys) ≡ share oid c xs ++ share oid c ys
unfolding share
share_append oid c xs ys = elim (Bool-cases (oid == c)) [ inl q ↦ rw q refl | inr q ↦ rw q refl ]

-- One parent, seen from another object and from itself.
named_one_apart :
    (batch : List (ℕ × List ℕ)) (oid c p q : ℕ)
    → (p == q) ≡ false
    → named_by batch q (share oid c (p ∷ [])) ≡ 0
named_one_apart batch oid c p q e = elim (Bool-cases (oid == c)) [
  | inr k ↦ ap (named_by batch q) (share_apart oid c (p ∷ []) k) ∙ named_nothing batch q
  | inl k ↦ ap (named_by batch q) (share_same oid c (p ∷ []) k) ∙ alone
]
  where
    alone : named_by batch q (p ∷ []) ≡ 0
    alone = elim (Bool-cases (in_batch batch q)) [
      | inl i ↦ named_by_in batch q (p ∷ []) i ∙ count_apart q p [] e ∙ count_nothing q
      | inr i ↦ named_by_out batch q (p ∷ []) i
    ]

named_one_here :
    (batch : List (ℕ × List ℕ)) (oid c q : ℕ)
    → in_batch batch q ≡ true
    → named_by batch q (share oid c (q ∷ [])) ≡ count c (oid ∷ [])
named_one_here batch oid c q i = elim (Bool-cases (oid == c)) [
  | inl k ↦
      ap (named_by batch q) (share_same oid c (q ∷ []) k)
      ∙ named_by_in batch q (q ∷ []) i
      ∙ count_here q []
      ∙ sym (
          subst (λ x. count x (oid ∷ []) ≡ count q [] + 1) ((==_iff oid c).0 k)
            (count_here oid [] ∙ ap (λ n. n + 1) (count_nothing oid ∙ sym (count_nothing q))))
  | inr k ↦
      ap (named_by batch q) (share_apart oid c (q ∷ []) k)
      ∙ named_nothing batch q
      ∙ sym (count_apart c oid [] k ∙ count_nothing c)
]

waiting-add_edge :
    (batch : List (ℕ × List ℕ)) (edges : Edges) (oid p c q : ℕ)
    → in_batch batch p ≡ true
    → count c (deps (add_edge edges oid p).rev_deps q)
      ≡ count c (deps edges.rev_deps q) + named_by batch q (share oid c (p ∷ []))
unfolding add_edge
waiting-add_edge batch edges oid p c q i = elim (Bool-cases (p == q)) [
  | inl e ↦
      subst
        (λ k.
          count c (deps (put edges.rev_deps p (deps edges.rev_deps p ++ (oid ∷ []))) k)
          ≡ count c (deps edges.rev_deps k) + named_by batch k (share oid c (p ∷ [])))
        ((==_iff p q).0 e)
        (ap (count c) (deps-put_same edges.rev_deps p (deps edges.rev_deps p ++ (oid ∷ [])))
          ∙ count-append c (deps edges.rev_deps p) (oid ∷ [])
          ∙ ap (λ n. count c (deps edges.rev_deps p) + n) (sym (named_one_here batch oid c p i)))
  | inr e ↦ omega (
    arith,
    ap (count c) (deps-put_apart edges.rev_deps p q (deps edges.rev_deps p ++ (oid ∷ [])) e),
    named_one_apart batch oid c p q e,
  )
]

named_one_out :
    (batch : List (ℕ × List ℕ)) (oid c p q : ℕ)
    → in_batch batch p ≡ false
    → named_by batch q (share oid c (p ∷ [])) ≡ 0
named_one_out batch oid c p q i = elim (Bool-cases (p == q)) [
  | inl e ↦
      named_by_out batch q (share oid c (p ∷ [])) (ap (in_batch batch) (sym ((==_iff p q).0 e)) ∙ i)
  | inr e ↦ named_one_apart batch oid c p q e
]

waiting_parents :
    (ps : List ℕ) (batch : List (ℕ × List ℕ)) (oid : ℕ) (edges : Edges) (c q : ℕ)
    → count c (deps (add_parents batch oid ps edges).rev_deps q)
      ≡ count c (deps edges.rev_deps q) + named_by batch q (share oid c ps)
waiting_parents [] batch oid edges c q =
    omega
      (arith, ap (λ e. count c (deps e.rev_deps q)) (adds_nothing batch oid edges), share_nothing)
  where
    share_nothing : named_by batch q (share oid c []) ≡ 0
    share_nothing = elim (Bool-cases (oid == c)) [
      | inl k ↦ ap (named_by batch q) (share_same oid c [] k) ∙ named_nothing batch q
      | inr k ↦ ap (named_by batch q) (share_apart oid c [] k) ∙ named_nothing batch q
    ]
waiting_parents (p ∷ ps) batch oid edges c q = elim (Bool-cases (in_batch batch p)) [
  | inl i ↦ rw (adds batch oid p ps edges i) (
      omega (
        arith,
        waiting_parents ps batch oid (add_edge edges oid p) c q,
        waiting-add_edge batch edges oid p c q i,
        both,
      ))
  | inr i ↦
      rw (skips batch oid p ps edges i) (
        omega
          (arith, waiting_parents ps batch oid edges c q, named_one_out batch oid c p q i, both))
]
  where
    both :
        named_by batch q (share oid c (p ∷ ps))
        ≡ named_by batch q (share oid c (p ∷ [])) + named_by batch q (share oid c ps)
    both =
        ap (named_by batch q) (share_append oid c (p ∷ []) ps)
        ∙ named_by_append batch q (share oid c (p ∷ [])) (share oid c ps)

-- What a batch's edges come to: a degree counts the parents to come, a list names those who wait.
pub record IsCounted (batch commits : List (ℕ × List ℕ)) (before edges : Edges) : Type 0 where
  pub degrees :
      (x : ℕ)
      → degree edges.in_degree x
        ≡ degree before.in_degree x + undone batch [] (parents_in commits x)
  pub waiting :
      (c q : ℕ)
      → count c (deps edges.rev_deps q)
        ≡ count c (deps before.rev_deps q) + named_by batch q (parents_in commits c)

parents_in-share :
    (oid : ℕ) (ps : List ℕ) (commits : List (ℕ × List ℕ)) (x : ℕ)
    → parents_in ((oid, ps) ∷ commits) x ≡ share oid x ps ++ parents_in commits x
unfolding parents_in share
parents_in-share oid ps commits x = elim (Bool-cases (oid == x)) [
  | inl q ↦ rw q refl
  | inr q ↦ rw q refl
]

degree-share :
    (ps : List ℕ) (batch : List (ℕ × List ℕ)) (oid : ℕ) (edges : Edges) (x : ℕ)
    → degree (add_parents batch oid ps edges).in_degree x
      ≡ degree edges.in_degree x + undone batch [] (share oid x ps)
degree-share ps batch oid edges x = elim (Bool-cases (oid == x)) [
  | inl q ↦ rw (share_same oid x ps q) (degree_parents_same ps batch oid edges x q)
  | inr q ↦
      rw (share_apart oid x ps q)
        (omega (arith, degree_parents_apart ps batch oid edges x q, undone_nothing batch))
]

add_commits-IsCounted :
    (commits batch : List (ℕ × List ℕ)) (edges : Edges)
    → IsCounted batch commits edges (add_commits batch commits edges)
unfolding add_commits parents_in
add_commits-IsCounted [] batch edges = record {
  degrees = λ x. omega (arith, undone_nothing batch);
  waiting = λ c q. omega (arith, named_nothing batch q);
}
add_commits-IsCounted (one ∷ commits) batch edges =
    let rest = add_commits-IsCounted commits batch (add_parents batch one.0 one.1 edges) in
    record {
      degrees = λ x. omega (
        arith,
        rest.degrees x,
        degree-share one.1 batch one.0 edges x,
        ap (undone batch []) (parents_in-share one.0 one.1 commits x),
        undone_append batch [] (share one.0 x one.1) (parents_in commits x),
      );
      waiting = λ c q. omega (
        arith,
        rest.waiting c q,
        waiting_parents one.1 batch one.0 edges c q,
        ap (named_by batch q) (parents_in-share one.0 one.1 commits c),
        named_by_append batch q (share one.0 c one.1) (parents_in commits c),
      );
    }

degree-zeros : (commits : List (ℕ × List ℕ)) (x : ℕ) → degree (zeros commits) x ≡ 0
unfolding degree zeros get
degree-zeros [] x = refl
degree-zeros (one ∷ commits) x = elim (Bool-cases (one.0 == x)) [
  | inl q ↦ rw (q, degree) refl
  | inr q ↦ rw (q, degree) (degree-zeros commits x)
]

deps_nothing : (c q : ℕ) → count c (deps [] q) ≡ 0
unfolding deps get count
deps_nothing c q = refl

-- What the order starts from: a degree is how many parents the batch has, and a list waits for each.
pub degree-edges_of :
    (batch : List (ℕ × List ℕ)) (x : ℕ)
    → degree (edges_of batch).in_degree x ≡ undone batch [] (parents_in batch x)
unfolding edges_of
degree-edges_of batch x = omega (
  arith,
  (add_commits-IsCounted batch batch (record { in_degree = zeros batch; rev_deps = [] })).degrees x,
  degree-zeros batch x,
)

pub waiting-edges_of :
    (batch : List (ℕ × List ℕ)) (c q : ℕ)
    → count c (deps (edges_of batch).rev_deps q) ≡ named_by batch q (parents_in batch c)
unfolding edges_of
waiting-edges_of batch c q = omega (
  arith,
  (add_commits-IsCounted batch batch (record { in_degree = zeros batch; rev_deps = [] })).waiting c
      q,
  deps_nothing c q,
)
