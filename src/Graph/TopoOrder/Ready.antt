-- ===== src/Graph/TopoOrder/Ready.antt =====
-- What is ready at first: the commits without a parent in the batch.
use mathlib.Core.Bool.{true≢false}
use mathlib.Core.Path.{subst}
use enroute.Prelude.{
  ℕ, ◌+◌, ◌≡◌, refl, sym, ap, ◌∙◌, true, false, Bool-cases, inl, inr, List, [], ◌∷◌, length, ◌==◌,
  ==_iff, eq→==, arith,
}
use enroute.Prelude.Sets.{has, IsDistinct, has_cons, has_nothing, has_here, has_there}
use enroute.Graph.TopoOrder.{degree, ready_of}
use enroute.Graph.TopoOrder.Positives.{positives}

-- What is ready at first.
ready_here :
    (d : List (ℕ × ℕ)) (k : ℕ) (ks : List ℕ)
    → (degree d k == 0) ≡ true
    → ready_of d (k ∷ ks) ≡ k ∷ ready_of d ks
unfolding ready_of
ready_here d k ks q = rw q refl

ready_not :
    (d : List (ℕ × ℕ)) (k : ℕ) (ks : List ℕ)
    → (degree d k == 0) ≡ false
    → ready_of d (k ∷ ks) ≡ ready_of d ks
unfolding ready_of
ready_not d k ks q = rw q refl

positives_here :
    (k : ℕ) (ks : List ℕ) (d : List (ℕ × ℕ))
    → (degree d k == 0) ≡ true
    → positives (k ∷ ks) d ≡ positives ks d
unfolding positives
positives_here k ks d q = rw q refl

positives_not :
    (k : ℕ) (ks : List ℕ) (d : List (ℕ × ℕ))
    → (degree d k == 0) ≡ false
    → positives (k ∷ ks) d ≡ positives ks d + 1
unfolding positives
positives_not k ks d q = rw q refl

pub record IsReady (d : List (ℕ × ℕ)) (ks ready : List ℕ) : Type 0 where
  pub free : (x : ℕ) → has ready x ≡ true → degree d x ≡ 0
  pub within : (x : ℕ) → has ready x ≡ true → has ks x ≡ true
  pub covered : (x : ℕ) → has ks x ≡ true → degree d x ≡ 0 → has ready x ≡ true
  pub total : positives ks d + length ready ≡ length ks

nothing-IsReady : (d : List (ℕ × ℕ)) → IsReady d [] (ready_of d [])
unfolding ready_of positives
nothing-IsReady d = record {
  free = λ x h. absurd (true≢false (sym h ∙ has_nothing x));
  within = λ x h. absurd (true≢false (sym h ∙ has_nothing x));
  covered = λ x h e. absurd (true≢false (sym h ∙ has_nothing x));
  total = refl;
}

here-IsReady :
    (d : List (ℕ × ℕ)) (k : ℕ) (ks ready : List ℕ)
    → (degree d k == 0) ≡ true
    → IsReady d ks ready
    → IsReady d (k ∷ ks) (k ∷ ready)
here-IsReady d k ks ready q r = record {
  free = λ x h. elim (has_cons k x ready h) [
    | inl e ↦ subst (λ j. degree d j ≡ 0) e ((==_iff (degree d k) 0).0 q)
    | inr l ↦ r.free x l
  ];
  within = λ x h. elim (has_cons k x ready h) [
    | inl e ↦ has_here k x ks e
    | inr l ↦ has_there k x ks (r.within x l)
  ];
  covered = λ x h e. elim (has_cons k x ks h) [
    | inl f ↦ has_here k x ready f
    | inr l ↦ has_there k x ready (r.covered x l e)
  ];
  total = omega (arith, positives_here k ks d q, r.total);
}

not-IsReady :
    (d : List (ℕ × ℕ)) (k : ℕ) (ks ready : List ℕ)
    → (degree d k == 0) ≡ false
    → IsReady d ks ready
    → IsReady d (k ∷ ks) ready
not-IsReady d k ks ready q r = record {
  free = r.free;
  within = λ x h. has_there k x ks (r.within x h);
  covered = λ x h e. elim (has_cons k x ks h) [
    | inl f ↦ absurd (true≢false (sym (eq→== (degree d k) 0 (ap (degree d) f ∙ e)) ∙ q))
    | inr l ↦ r.covered x l e
  ];
  total = omega (arith, positives_not k ks d q, r.total);
}

pub ready_of-IsReady : (ks : List ℕ) (d : List (ℕ × ℕ)) → IsReady d ks (ready_of d ks)
ready_of-IsReady [] d = nothing-IsReady d
ready_of-IsReady (k ∷ ks) d = elim (Bool-cases (degree d k == 0)) [
  | inl q ↦
      subst (IsReady d (k ∷ ks)) (sym (ready_here d k ks q))
        (here-IsReady d k ks _ q (ready_of-IsReady ks d))
  | inr q ↦
      subst (IsReady d (k ∷ ks)) (sym (ready_not d k ks q))
        (not-IsReady d k ks _ q (ready_of-IsReady ks d))
]

absent : (d : List (ℕ × ℕ)) (k : ℕ) (ks : List ℕ) → has ks k ≡ false → has (ready_of d ks) k ≡ false
absent d k ks h = elim (Bool-cases (has (ready_of d ks) k)) [
  | inl l ↦ absurd (true≢false (sym ((ready_of-IsReady ks d).within k l) ∙ h))
  | inr l ↦ l
]

pub ready_of-IsDistinct :
    (ks : List ℕ) (d : List (ℕ × ℕ)) → IsDistinct ks → IsDistinct (ready_of d ks)
unfolding IsDistinct ready_of
ready_of-IsDistinct [] d h = tt
ready_of-IsDistinct (k ∷ ks) d h = elim (Bool-cases (degree d k == 0)) [
  | inl q ↦ rw q (absent d k ks h.0, ready_of-IsDistinct ks d h.1)
  | inr q ↦ rw q (ready_of-IsDistinct ks d h.1)
]
