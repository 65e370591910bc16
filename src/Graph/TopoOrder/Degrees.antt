-- ===== src/Graph/TopoOrder/Degrees.antt =====
-- The degrees and the waiting lists that the order starts from.
use mathlib.Core.Bool.{true≢false}
use mathlib.Core.Path.{subst}
use enroute.Prelude.{
  ℕ, ◌+◌, ◌≡◌, refl, sym, ap, ◌∙◌, true, false, Bool-cases, inl, inr, List, [], ◌∷◌, ◌==◌, ==_iff,
  arith, if◌then◌else◌,
}
use enroute.Prelude.Sets.{has_nothing}
use enroute.Prelude.Dict.{put, nat_key, get-put_same, get-put_apart}
use enroute.Graph.TopoOrder.{Edges, degree, deps, in_batch, add_edge, add_parents}
use enroute.Graph.TopoOrder.Counts.{undone, undone_in, undone_out}

pub degree-put_same : (d : List (ℕ × ℕ)) (x n : ℕ) → degree (put d x n) x ≡ n
unfolding degree
degree-put_same d x n = rw (get-put_same d x n, degree) refl

pub degree-put_apart :
    (d : List (ℕ × ℕ)) (y x n : ℕ) → (y == x) ≡ false → degree (put d y n) x ≡ degree d x
unfolding degree
degree-put_apart d y x n q =
    rw (get-put_apart d y x n (λ e. true≢false (sym ((==_iff y x).1 e) ∙ q)), degree) refl

pub deps-put_same : (d : List (ℕ × List ℕ)) (x : ℕ) (held : List ℕ) → deps (put d x held) x ≡ held
unfolding deps
deps-put_same d x held = rw (get-put_same d x held, deps) refl

pub deps-put_apart :
    (d : List (ℕ × List ℕ)) (y x : ℕ) (held : List ℕ)
    → (y == x) ≡ false
    → deps (put d y held) x ≡ deps d x
unfolding deps
deps-put_apart d y x held q =
    rw (get-put_apart d y x held (λ e. true≢false (sym ((==_iff y x).1 e) ∙ q)), deps) refl

-- What one commit's parents come to, seen from an object.
unfoldable pub share : ℕ → ℕ → List ℕ → List ℕ
share oid x ps = if oid == x then ps else []

pub share_same : (oid x : ℕ) (ps : List ℕ) → (oid == x) ≡ true → share oid x ps ≡ ps
unfolding share
share_same oid x ps q = rw q refl

pub share_apart : (oid x : ℕ) (ps : List ℕ) → (oid == x) ≡ false → share oid x ps ≡ []
unfolding share
share_apart oid x ps q = rw q refl

degree-add_edge_same :
    (edges : Edges) (oid parent x : ℕ)
    → (oid == x) ≡ true
    → degree (add_edge edges oid parent).in_degree x ≡ degree edges.in_degree x + 1
unfolding add_edge
degree-add_edge_same edges oid parent x q =
    subst
      (λ k.
        degree (put edges.in_degree oid (degree edges.in_degree oid + 1)) k
        ≡ degree edges.in_degree k + 1)
      ((==_iff oid x).0 q) (degree-put_same edges.in_degree oid (degree edges.in_degree oid + 1))

degree-add_edge_apart :
    (edges : Edges) (oid parent x : ℕ)
    → (oid == x) ≡ false
    → degree (add_edge edges oid parent).in_degree x ≡ degree edges.in_degree x
unfolding add_edge
degree-add_edge_apart edges oid parent x q =
    degree-put_apart edges.in_degree oid x (degree edges.in_degree oid + 1) q

pub undone_nothing : (batch : List (ℕ × List ℕ)) → undone batch [] [] ≡ 0
unfolding undone
undone_nothing batch = refl

pub adds_nothing :
    (batch : List (ℕ × List ℕ)) (oid : ℕ) (edges : Edges) → add_parents batch oid [] edges ≡ edges
unfolding add_parents
adds_nothing batch oid edges = refl

pub skips :
    (batch : List (ℕ × List ℕ)) (oid p : ℕ) (ps : List ℕ) (edges : Edges)
    → in_batch batch p ≡ false
    → add_parents batch oid (p ∷ ps) edges ≡ add_parents batch oid ps edges
unfolding add_parents
skips batch oid p ps edges i = rw i refl

pub adds :
    (batch : List (ℕ × List ℕ)) (oid p : ℕ) (ps : List ℕ) (edges : Edges)
    → in_batch batch p ≡ true
    → add_parents batch oid (p ∷ ps) edges ≡ add_parents batch oid ps (add_edge edges oid p)
unfolding add_parents
adds batch oid p ps edges i = rw i refl

pub degree_parents_same :
    (ps : List ℕ) (batch : List (ℕ × List ℕ)) (oid : ℕ) (edges : Edges) (x : ℕ)
    → (oid == x) ≡ true
    → degree (add_parents batch oid ps edges).in_degree x
      ≡ degree edges.in_degree x + undone batch [] ps
degree_parents_same [] batch oid edges x q =
    omega
      (arith, undone_nothing batch, ap (λ e. degree e.in_degree x) (adds_nothing batch oid edges))
degree_parents_same (p ∷ ps) batch oid edges x q = elim (Bool-cases (in_batch batch p)) [
  | inl i ↦
      rw (adds batch oid p ps edges i, undone_in batch [] p ps i (has_nothing p))
        (omega (
          arith,
          degree_parents_same ps batch oid (add_edge edges oid p) x q,
          degree-add_edge_same edges oid p x q,
        ))
  | inr i ↦
      rw (skips batch oid p ps edges i, undone_out batch [] p ps i)
        (degree_parents_same ps batch oid edges x q)
]

pub degree_parents_apart :
    (ps : List ℕ) (batch : List (ℕ × List ℕ)) (oid : ℕ) (edges : Edges) (x : ℕ)
    → (oid == x) ≡ false
    → degree (add_parents batch oid ps edges).in_degree x ≡ degree edges.in_degree x
degree_parents_apart [] batch oid edges x q =
    ap (λ e. degree e.in_degree x) (adds_nothing batch oid edges)
degree_parents_apart (p ∷ ps) batch oid edges x q = elim (Bool-cases (in_batch batch p)) [
  | inl i ↦ rw (adds batch oid p ps edges i) (
      degree_parents_apart ps batch oid (add_edge edges oid p) x q
      ∙ degree-add_edge_apart edges oid p x q)
  | inr i ↦ rw (skips batch oid p ps edges i) (degree_parents_apart ps batch oid edges x q)
]
