-- ===== src/Graph/TopoOrder/Undone.antt =====
-- Which of a commit's parents are done, and which are still to come.
use mathlib.Core.Bool.{true≢false}
use enroute.Prelude.{
  ℕ, ◌+◌, ◌≤◌, ◌≡◌, refl, sym, ap, ◌∙◌, true, false, not, ◌&&◌, Bool-cases, inl, inr, List, [], ◌∷◌,
  ◌==◌, ==_iff, ne→==, arith,
}
use mathlib.Core.Path.{subst}
use enroute.Prelude.Sets.{has, has_cons, has_nothing, has_here, has_apart}
use enroute.Prelude.Dict.{nat_key}
use enroute.Graph.TopoOrder.{in_batch}
use enroute.Graph.TopoOrder.Counts.{
  count, count_here, count_apart, undone, named_by, named_by_in, named_by_out, undone_in,
  undone_out, undone_had,
}

pub undone_same :
    (batch : List (ℕ × List ℕ)) (done : List ℕ) (p q : ℕ) (ps : List ℕ)
    → (p == q) ≡ false
    → undone batch (p ∷ done) ps + named_by batch p ps ≡ undone batch done ps
    → undone batch (p ∷ done) (q ∷ ps) + named_by batch p (q ∷ ps) ≡ undone batch done (q ∷ ps)
undone_same batch done p q ps e ih = elim (Bool-cases (in_batch batch q)) [
  | inr i ↦
      omega (arith, ih, named, undone_out batch (p ∷ done) q ps i, undone_out batch done q ps i)
  | inl i ↦ elim (Bool-cases (has done q)) [
    | inl h ↦ omega (
      arith,
      ih,
      named,
      undone_had batch (p ∷ done) q ps (same ∙ h),
      undone_had batch done q ps h,
    )
    | inr h ↦ omega (
      arith,
      ih,
      named,
      undone_in batch (p ∷ done) q ps i (same ∙ h),
      undone_in batch done q ps i h,
    )
  ]
]
  where
    same : has (p ∷ done) q ≡ has done q
    same = has_apart p q done e

    other : (q == p) ≡ false
    other = ne→== q p (λ x. true≢false (sym ((==_iff p q).1 (sym x)) ∙ e))

    named : named_by batch p (q ∷ ps) ≡ named_by batch p ps
    named = elim (Bool-cases (in_batch batch p)) [
      | inl i ↦
          named_by_in batch p (q ∷ ps) i ∙ count_apart p q ps other ∙ sym (named_by_in batch p ps i)
      | inr i ↦ named_by_out batch p (q ∷ ps) i ∙ sym (named_by_out batch p ps i)
    ]

pub undone_here :
    (batch : List (ℕ × List ℕ)) (done : List ℕ) (p : ℕ) (ps : List ℕ)
    → has done p ≡ false
    → undone batch (p ∷ done) ps + named_by batch p ps ≡ undone batch done ps
    → undone batch (p ∷ done) (p ∷ ps) + named_by batch p (p ∷ ps) ≡ undone batch done (p ∷ ps)
undone_here batch done p ps h ih = elim (Bool-cases (in_batch batch p)) [
  | inl i ↦ omega (
    arith,
    ih,
    undone_had batch (p ∷ done) p ps (has_here p p done refl),
    undone_in batch done p ps i h,
    named_by_in batch p (p ∷ ps) i,
    named_by_in batch p ps i,
    count_here p ps,
  )
  | inr i ↦ omega (
    arith,
    ih,
    undone_out batch (p ∷ done) p ps i,
    undone_out batch done p ps i,
    named_by_out batch p (p ∷ ps) i,
    named_by_out batch p ps i,
  )
]

pub named_nothing :
    (batch : List (ℕ × List ℕ)) (done : List ℕ) (p : ℕ)
    → undone batch (p ∷ done) [] + named_by batch p [] ≡ undone batch done []
unfolding undone named_by count
named_nothing batch done p = elim (Bool-cases (in_batch batch p)) [
  | inl i ↦ rw i refl
  | inr i ↦ rw i refl
]

pub undone_less :
    (batch : List (ℕ × List ℕ)) (done : List ℕ) (p : ℕ) (ps : List ℕ)
    → undone batch done ps ≤ undone batch done (p ∷ ps)
unfolding undone
undone_less batch done p ps = elim (Bool-cases (in_batch batch p && not (has done p))) [
  | inl i ↦ rw i (omega arith)
  | inr i ↦ rw i (omega arith)
]

-- One parent done leaves as many fewer as name it.
pub undone_step :
    (batch : List (ℕ × List ℕ)) (done : List ℕ) (p : ℕ) (ps : List ℕ)
    → has done p ≡ false
    → undone batch (p ∷ done) ps + named_by batch p ps ≡ undone batch done ps
undone_step batch done p [] h = named_nothing batch done p
undone_step batch done p (q ∷ ps) h = elim (Bool-cases (p == q)) [
  | inl e ↦
      subst
        (λ k.
          undone batch (p ∷ done) (k ∷ ps) + named_by batch p (k ∷ ps) ≡ undone batch done (k ∷ ps))
        ((==_iff p q).0 e) (undone_here batch done p ps h (undone_step batch done p ps h))
  | inr e ↦ undone_same batch done p q ps e (undone_step batch done p ps h)
]

pub still :
    (batch : List (ℕ × List ℕ)) (done : List ℕ) (p q : ℕ) (ps : List ℕ)
    → undone batch done (p ∷ ps) ≡ 0
    → p ≡ q
    → in_batch batch q ≡ true
    → has done q ≡ false
    → ⊥
still batch done p q ps h e i d =
    omega (arith, h, undone_in batch done p ps (ap (in_batch batch) e ∙ i) (ap (has done) e ∙ d))

-- Nothing undone: every parent of the batch is done.
pub all_done :
    (batch : List (ℕ × List ℕ)) (done ps : List ℕ) (q : ℕ)
    → undone batch done ps ≡ 0
    → has ps q ≡ true
    → in_batch batch q ≡ true
    → has done q ≡ true
all_done batch done [] q h k i = absurd (true≢false (sym k ∙ has_nothing q))
all_done batch done (p ∷ ps) q h k i = elim (Bool-cases (has done q)) [
  | inl d ↦ d
  | inr d ↦ elim (has_cons p q ps k) [
    | inl e ↦ absurd (still batch done p q ps h e i d)
    | inr m ↦ all_done batch done ps q (omega (arith, h, undone_less batch done p ps)) m i
  ]
]

pub undone_some :
    (batch : List (ℕ × List ℕ)) (done : List ℕ) (p : ℕ) (ps : List ℕ)
    → has done p ≡ false
    → named_by batch p ps ≤ undone batch done ps
undone_some batch done p ps h = omega (arith, undone_step batch done p ps h)
