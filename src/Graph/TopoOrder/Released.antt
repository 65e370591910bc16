-- ===== src/Graph/TopoOrder/Released.antt =====
-- What the loop over the commits that wait for one popped does to the degrees.
use mathlib.Core.Bool.{true≢false}
use mathlib.Core.Path.{subst}
use enroute.Prelude.{
  ℕ, ◌+◌, ◌-◌, ◌≤◌, ◌≡◌, ◌≢◌, refl, sym, ◌∙◌, true, false, Bool-cases, inl, inr, List, [], ◌∷◌,
  length, ◌==◌, ==_iff, eq→==, arith,
}
use enroute.Prelude.Sets.{has, IsDistinct, has_cons, has_nothing, has_here, has_there}
use enroute.Prelude.Dict.{put, nat_key}
use enroute.Graph.TopoOrder.{degree, release}
use enroute.Graph.TopoOrder.Counts.{count, count_here, count_apart}
use enroute.Graph.TopoOrder.Degrees.{degree-put_same, degree-put_apart}
use enroute.Graph.TopoOrder.Positives.{positives, positives-put, positives_freed}

two_left : {n : ℕ} → 1 ≤ n → (n - 1 == 0) ≡ false → 2 ≤ n
two_left {n} h q = elim (Bool-cases (n == 1)) [
  | inl e ↦ absurd (true≢false (sym (eq→== (n - 1) 0 (omega (arith, (==_iff n 1).0 e))) ∙ q))
  | inr e ↦ omega (arith, h, not_one e)
]
  where
    not_one : (n == 1) ≡ false → n ≢ 1
    not_one e p = true≢false (sym ((==_iff n 1).1 p) ∙ e)

-- The last degree of a commit.
last : {n : ℕ} → n ≡ 1 → 0 ≡ n - 1
last e = omega (arith, e)

-- What the loop over the waiting commits does, when each of them has a degree for each time it waits.
pub record IsReleased (ks : List ℕ) (d : List (ℕ × ℕ)) (waiting : List ℕ)
    (released : List (ℕ × ℕ) × List ℕ) : Type 0 where
  pub degrees : (x : ℕ) → degree released.0 x + count x waiting ≡ degree d x
  pub waited : (x : ℕ) → has released.1 x ≡ true → 1 ≤ count x waiting
  pub freed : (x : ℕ) → has released.1 x ≡ true → degree released.0 x ≡ 0
  pub complete : (x : ℕ) → 1 ≤ degree d x → degree released.0 x ≡ 0 → has released.1 x ≡ true
  pub distinct : IsDistinct released.1
  pub fewer : positives ks released.0 + length released.1 ≤ positives ks d

release_keeps :
    (d : List (ℕ × ℕ)) (dep : ℕ) (waiting : List ℕ)
    → (degree d dep - 1 == 0) ≡ false
    → release d (dep ∷ waiting) ≡ release (put d dep (degree d dep - 1)) waiting
unfolding release
release_keeps d dep waiting q = rw q refl

release_frees :
    (d : List (ℕ × ℕ)) (dep : ℕ) (waiting : List ℕ)
    → (degree d dep - 1 == 0) ≡ true
    → release d (dep ∷ waiting) ≡ (
      (release (put d dep (degree d dep - 1)) waiting).0,
      dep ∷ (release (put d dep (degree d dep - 1)) waiting).1,
    )
unfolding release
release_frees d dep waiting q = rw q refl

-- One degree less, of a commit that has some.
lower :
    (d : List (ℕ × ℕ)) (dep x : ℕ) (waiting : List ℕ)
    → 1 ≤ degree d dep
    → degree (put d dep (degree d dep - 1)) x + count x (dep ∷ waiting)
      ≡ degree d x + count x waiting
lower d dep x waiting h = elim (Bool-cases (dep == x)) [
  | inl q ↦
      subst
        (λ k.
          degree (put d dep (degree d dep - 1)) k + count k (dep ∷ waiting)
          ≡ degree d k + count k waiting)
        ((==_iff dep x).0 q)
        (omega (arith, h, degree-put_same d dep (degree d dep - 1), count_here dep waiting))
  | inr q ↦
      omega (arith, degree-put_apart d dep x (degree d dep - 1) q, count_apart x dep waiting q)
]

count_more : (x y : ℕ) (ys : List ℕ) → count x ys ≤ count x (y ∷ ys)
count_more x y ys = elim (Bool-cases (y == x)) [
  | inl q ↦
      omega
        (arith, subst (λ k. count k (y ∷ ys) ≡ count k ys + 1) ((==_iff y x).0 q) (count_here y ys))
  | inr q ↦ omega (arith, count_apart x y ys q)
]

nothing-IsReleased : (ks : List ℕ) (d : List (ℕ × ℕ)) → IsReleased ks d [] (release d [])
unfolding release count IsDistinct
nothing-IsReleased ks d = record {
  degrees = λ x. omega arith;
  waited = λ x h. absurd (true≢false (sym h ∙ has_nothing x));
  freed = λ x h. absurd (true≢false (sym h ∙ has_nothing x));
  complete = λ x h e. absurd (omega (arith, h, e));
  distinct = tt;
  fewer = omega arith;
}

-- A commit whose degree stays above 0, and one whose degree falls to 0.
kept-IsReleased :
    (ks : List ℕ) (d : List (ℕ × ℕ)) (dep : ℕ) (waiting : List ℕ) (rest : List (ℕ × ℕ) × List ℕ)
    → 2 ≤ degree d dep
    → IsReleased ks (put d dep (degree d dep - 1)) waiting rest
    → IsReleased ks d (dep ∷ waiting) rest
kept-IsReleased ks d dep waiting rest two r = record {
  degrees = λ x. omega (arith, r.degrees x, lower d dep x waiting l);
  waited = λ x h. omega (arith, r.waited x h, count_more x dep waiting);
  freed = r.freed;
  complete = λ x h e. r.complete x (stays x h) e;
  distinct = r.distinct;
  fewer = omega (arith, r.fewer, positives-put ks d dep (degree d dep - 1) l);
}
  where
    l : 1 ≤ degree d dep
    l = omega (arith, two)

    stays : (x : ℕ) → 1 ≤ degree d x → 1 ≤ degree (put d dep (degree d dep - 1)) x
    stays x h = elim (Bool-cases (dep == x)) [
      | inl q ↦
          subst (λ k. 1 ≤ degree (put d dep (degree d dep - 1)) k) ((==_iff dep x).0 q)
            (omega (arith, degree-put_same d dep (degree d dep - 1), two))
      | inr q ↦ omega (arith, h, degree-put_apart d dep x (degree d dep - 1) q)
    ]

freed-IsReleased :
    (ks : List ℕ) (d : List (ℕ × ℕ)) (dep : ℕ) (waiting : List ℕ) (rest : List (ℕ × ℕ) × List ℕ)
    → degree d dep ≡ 1
    → has ks dep ≡ true
    → IsReleased ks (put d dep (degree d dep - 1)) waiting rest
    → IsReleased ks d (dep ∷ waiting) (rest.0, dep ∷ rest.1)
unfolding IsDistinct
freed-IsReleased ks d dep waiting rest l m r = record {
  degrees = λ x. omega (arith, r.degrees x, lower d dep x waiting (omega (arith, l)));
  waited = λ x h. elim (has_cons dep x rest.1 h) [
    | inl e ↦ subst (λ k. 1 ≤ count k (dep ∷ waiting)) e (omega (arith, count_here dep waiting))
    | inr k ↦ omega (arith, r.waited x k, count_more x dep waiting)
  ];
  freed = λ x h. elim (has_cons dep x rest.1 h) [
    | inl e ↦ subst (λ k. degree rest.0 k ≡ 0) e (omega (arith, spent))
    | inr k ↦ r.freed x k
  ];
  complete = λ x h e. elim (Bool-cases (dep == x)) [
    | inl q ↦ has_here dep x rest.1 ((==_iff dep x).0 q)
    | inr q ↦
        has_there dep x rest.1
          (r.complete x (omega (arith, h, degree-put_apart d dep x (degree d dep - 1) q)) e)
  ];
  distinct =
      (elim (Bool-cases (has rest.1 dep)) [ inl h ↦ absurd (again h) | inr h ↦ h ], r.distinct);
  fewer = omega (arith, r.fewer, gone);
}
  where
    spent : degree rest.0 dep + count dep waiting ≡ 0
    spent = omega (arith, r.degrees dep, degree-put_same d dep (degree d dep - 1), l)

    again : has rest.1 dep ≡ true → ⊥
    again h = omega (arith, spent, r.waited dep h)

    gone : positives ks (put d dep (degree d dep - 1)) + 1 ≤ positives ks d
    gone =
        subst (λ n. positives ks (put d dep n) + 1 ≤ positives ks d) (last l)
          (positives_freed ks d dep (omega (arith, l)) m)

pub release-IsReleased :
    (waiting ks : List ℕ) (d : List (ℕ × ℕ))
    → ((x : ℕ) → count x waiting ≤ degree d x)
    → ((x : ℕ) → 1 ≤ degree d x → has ks x ≡ true)
    → IsReleased ks d waiting (release d waiting)
release-IsReleased [] ks d h m = nothing-IsReleased ks d
release-IsReleased (dep ∷ waiting) ks d h m =
    let rest = release-IsReleased waiting ks (put d dep (degree d dep - 1)) enough within in
    elim (Bool-cases (degree d dep - 1 == 0)) [
      | inl q ↦ subst (IsReleased ks d (dep ∷ waiting)) (sym (release_frees d dep waiting q)) (
          freed-IsReleased ks d dep waiting _
            (omega (arith, some_degree, (==_iff (degree d dep - 1) 0).0 q)) (m dep some_degree)
            rest)
      | inr q ↦
          subst (IsReleased ks d (dep ∷ waiting)) (sym (release_keeps d dep waiting q))
            (kept-IsReleased ks d dep waiting _ (two_left some_degree q) rest)
    ]
  where
    some_degree : 1 ≤ degree d dep
    some_degree = omega (arith, h dep, count_here dep waiting)

    enough : (x : ℕ) → count x waiting ≤ degree (put d dep (degree d dep - 1)) x
    enough x = omega (arith, lower d dep x waiting some_degree, h x)

    within : (x : ℕ) → 1 ≤ degree (put d dep (degree d dep - 1)) x → has ks x ≡ true
    within x g = m x (omega (arith, g, lower d dep x waiting some_degree, count_more x dep waiting))
