-- ===== src/Graph/TopoOrder/Positives.antt =====
-- How many commits of a list have a degree.
use mathlib.Core.Bool.{true≢false}
use enroute.Prelude.{
  ℕ, ◌+◌, ◌≤◌, ◌≡◌, refl, sym, ap, ◌∙◌, true, false, Bool-cases, inl, inr, List, [], ◌∷◌, ◌==◌,
  ==_iff, ne→==, eq→==, arith, if◌then◌else◌,
}
use enroute.Prelude.Sets.{has, has_nothing, has_apart}
use enroute.Prelude.Dict.{put, nat_key}
use enroute.Graph.TopoOrder.{degree}
use enroute.Graph.TopoOrder.Degrees.{degree-put_same, degree-put_apart}

-- How many of some commits have a degree.
unfoldable pub positives : List ℕ → List (ℕ × ℕ) → ℕ
unfolding degree
positives [] d = 0
positives (k ∷ ks) d = let rest = positives ks d in if degree d k == 0 then rest else rest + 1

pub none_positive : (d : List (ℕ × ℕ)) → positives [] d ≡ 0
unfolding positives
none_positive d = refl

-- Whether one commit has a degree.
unfoldable pub positive : List (ℕ × ℕ) → ℕ → ℕ
positive d k = if degree d k == 0 then 0 else 1

pub positives_cons :
    (k : ℕ) (ks : List ℕ) (d : List (ℕ × ℕ)) → positives (k ∷ ks) d ≡ positives ks d + positive d k
unfolding positives positive
positives_cons k ks d = elim (Bool-cases (degree d k == 0)) [
  | inl q ↦ rw q (omega arith)
  | inr q ↦ rw q refl
]

pub positive_zero : (d : List (ℕ × ℕ)) (k : ℕ) → degree d k ≡ 0 → positive d k ≡ 0
unfolding positive
positive_zero d k h = rw (eq→== (degree d k) 0 h) refl

pub positive_some : (d : List (ℕ × ℕ)) (k : ℕ) → 1 ≤ degree d k → positive d k ≡ 1
unfolding positive
positive_some d k h = rw (ne→== (degree d k) 0 (λ e. omega (arith, h, e))) refl

pub positive_le : (d : List (ℕ × ℕ)) (k : ℕ) → positive d k ≤ 1
unfolding positive
positive_le d k = elim (Bool-cases (degree d k == 0)) [
  | inl q ↦ rw q (omega arith)
  | inr q ↦ rw q (omega arith)
]

pub positive_apart :
    (d : List (ℕ × ℕ)) (k j n : ℕ) → (k == j) ≡ false → positive (put d k n) j ≡ positive d j
unfolding positive
positive_apart d k j n q = rw (degree-put_apart d k j n q) refl

pub positives-put :
    (ks : List ℕ) (d : List (ℕ × ℕ)) (k n : ℕ)
    → 1 ≤ degree d k
    → positives ks (put d k n) ≤ positives ks d
positives-put [] d k n h = omega (arith, none_positive (put d k n), none_positive d)
positives-put (j ∷ ks) d k n h =
    omega
      (arith, positives_cons j ks (put d k n), positives_cons j ks d, positives-put ks d k n h, one)
  where
    one : positive (put d k n) j ≤ positive d j
    one = elim (Bool-cases (k == j)) [
      | inl q ↦ omega (
        arith,
        positive_le (put d k n) j,
        ap (positive d) (sym ((==_iff k j).0 q)),
        positive_some d k h,
      )
      | inr q ↦ omega (arith, positive_apart d k j n q)
    ]

pub positives_freed :
    (ks : List ℕ) (d : List (ℕ × ℕ)) (k : ℕ)
    → 1 ≤ degree d k
    → has ks k ≡ true
    → positives ks (put d k 0) + 1 ≤ positives ks d
positives_freed [] d k h m = absurd (true≢false (sym m ∙ has_nothing k))
positives_freed (j ∷ ks) d k h m = elim (Bool-cases (k == j)) [
  | inl q ↦ omega (
    arith,
    positives_cons j ks (put d k 0),
    positives_cons j ks d,
    positives-put ks d k 0 h,
    ap (positive d) (sym ((==_iff k j).0 q)),
    positive_some d k h,
    ap (positive (put d k 0)) (sym ((==_iff k j).0 q)),
    positive_zero (put d k 0) k (degree-put_same d k 0),
  )
  | inr q ↦ omega (
    arith,
    positives_cons j ks (put d k 0),
    positives_cons j ks d,
    positive_apart d k j 0 q,
    positives_freed ks d k h (
        sym (has_apart j k ks (ne→== j k (λ e. true≢false (sym ((==_iff k j).1 (sym e)) ∙ q))))
        ∙ m),
  )
]
