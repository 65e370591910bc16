-- ===== src/Ingest/DeltaPlan/Loop.antt =====
-- What the loop over the changes pushes.
use mathlib.Core.Path.{subst}
use enroute.Prelude.{
  ℕ, ◌≡◌, refl, sym, ap, ◌∙◌, Bool, true, false, not, ◌&&◌, ◌||◌, Bool-cases, inl, inr, List, [],
  ◌∷◌, ◌++◌, ◌==◌, ==_iff, ne→==, if◌then◌else◌, All,
}
use enroute.Prelude.Sets.{has, IsDistinct, has_cons_not, has_here}
use enroute.Ingest.DeltaPlan.{DeltaEntry, Change, oids, entry_of, is_tree, order_loop}

-- The objects that the changes name as new.
unfoldable pub news : List Change → List ℕ
news [] = []
news (c ∷ cs) = c.new ∷ news cs

pub has-append :
    (es fs : List DeltaEntry) (o : ℕ)
    → has (oids (es ++ fs)) o ≡ (has (oids es) o || has (oids fs) o)
unfolding has oids
has-append [] fs o = refl
has-append (e ∷ es) fs o = elim (Bool-cases (e.oid == o)) [
  | inl q ↦ rw q refl
  | inr q ↦ rw q (has-append es fs o)
]

-- What the loop makes of one change.
pub loop_skips :
    (seen : List ℕ) (c : Change) (cs : List Change)
    → has seen c.new ≡ true
    → order_loop seen (c ∷ cs) ≡ order_loop seen cs
unfolding order_loop
loop_skips seen c cs h = rw h refl

pub loop_tree :
    (seen : List ℕ) (c : Change) (cs : List Change)
    → has seen c.new ≡ false
    → is_tree c.kind ≡ true
    → order_loop seen (c ∷ cs)
      ≡ (entry_of c ∷ (order_loop (c.new ∷ seen) cs).0, (order_loop (c.new ∷ seen) cs).1)
unfolding order_loop
loop_tree seen c cs h k = rw (h, k) refl

pub loop_blob :
    (seen : List ℕ) (c : Change) (cs : List Change)
    → has seen c.new ≡ false
    → is_tree c.kind ≡ false
    → order_loop seen (c ∷ cs)
      ≡ ((order_loop (c.new ∷ seen) cs).0, entry_of c ∷ (order_loop (c.new ∷ seen) cs).1)
unfolding order_loop
loop_blob seen c cs h k = rw (h, k) refl

-- The trees and the blobs that the loop pushes, and what a set of them holds.
pub record IsOrdered (seen : List ℕ) (cs : List Change) (found : List DeltaEntry × List DeltaEntry)
    : Type 0 where
  pub trees : All (λ e. is_tree e.kind ≡ true) found.0
  pub blobs : All (λ e. is_tree e.kind ≡ false) found.1
  pub holds : (o : ℕ) → has (oids (found.0 ++ found.1)) o ≡ (not (has seen o) && has (news cs) o)
  pub distinct : IsDistinct (oids (found.0 ++ found.1))

pub has_seen : (x : ℕ) (seen : List ℕ) (o : ℕ) (b : Bool) → has seen x ≡ b → x ≡ o → has seen o ≡ b
has_seen x seen o b h q = ap (λ k. has seen k) (sym q) ∙ h

-- A new object is held, beside what is found past it.
pub holds_more :
    (x : ℕ) (seen more : List ℕ) (o : ℕ)
    → has seen x ≡ false
    → (if x == o then true else not (has (x ∷ seen) o) && has more o)
      ≡ (not (has seen o) && has (x ∷ more) o)
unfolding has
holds_more x seen more o h = elim (Bool-cases (x == o)) [
  | inl q ↦ rw (q, has_seen x seen o false h ((==_iff x o).0 q)) refl
  | inr q ↦ rw q refl
]

pub holds_same :
    (x : ℕ) (seen more : List ℕ) (o : ℕ)
    → has seen x ≡ true
    → (not (has seen o) && has more o) ≡ (not (has seen o) && has (x ∷ more) o)
unfolding has
holds_same x seen more o h = elim (Bool-cases (x == o)) [
  | inl q ↦ rw (q, has_seen x seen o true h ((==_iff x o).0 q)) refl
  | inr q ↦ rw q refl
]

-- The set of a list with one entry more in its middle.
pub holds_middle :
    (e : DeltaEntry) (es fs : List DeltaEntry) (o : ℕ)
    → has (oids (es ++ (e ∷ fs))) o ≡ (if e.oid == o then true else has (oids (es ++ fs)) o)
unfolding has oids
holds_middle e [] fs o = refl
holds_middle e (x ∷ es) fs o = elim (Bool-cases (x.oid == o)) [
  | inl q ↦ elim (Bool-cases (e.oid == o)) [ inl p ↦ rw (q, p) refl | inr p ↦ rw (q, p) refl ]
  | inr q ↦ rw q (holds_middle e es fs o)
]

pub distinct_middle :
    (e : DeltaEntry) (es fs : List DeltaEntry)
    → has (oids (es ++ fs)) e.oid ≡ false
    → IsDistinct (oids (es ++ fs))
    → IsDistinct (oids (es ++ (e ∷ fs)))
unfolding IsDistinct oids
distinct_middle e [] fs h d = (h, d)
distinct_middle e (x ∷ es) fs h d =
    let n = has_cons_not x.oid e.oid (oids (es ++ fs)) h in
    (
      rw (holds_middle e es fs x.oid, ne→== e.oid x.oid (λ q. n.0 (sym q))) d.0,
      distinct_middle e es fs n.1 d.1,
    )

-- Where a new object goes.
pub IsOrdered-tree :
    (seen : List ℕ) (c : Change) (cs : List Change) (found : List DeltaEntry × List DeltaEntry)
    → has seen c.new ≡ false
    → is_tree c.kind ≡ true
    → IsOrdered (c.new ∷ seen) cs found
    → IsOrdered seen (c ∷ cs) (entry_of c ∷ found.0, found.1)
unfolding entry_of has news oids IsDistinct
IsOrdered-tree seen c cs found h k r = record {
  trees = (k, r.trees);
  blobs = r.blobs;
  holds = holds;
  distinct = (fresh, r.distinct);
}
  where
    fresh : has (oids (found.0 ++ found.1)) c.new ≡ false
    fresh = r.holds c.new ∙ ap (λ b. not b && has (news cs) c.new) (has_here c.new c.new seen refl)

    holds :
        (o : ℕ)
        → has (oids ((entry_of c ∷ found.0) ++ found.1)) o
          ≡ (not (has seen o) && has (news (c ∷ cs)) o)
    holds o =
        ap (λ b. if c.new == o then true else b) (r.holds o) ∙ holds_more c.new seen (news cs) o h

pub IsOrdered-blob :
    (seen : List ℕ) (c : Change) (cs : List Change) (found : List DeltaEntry × List DeltaEntry)
    → has seen c.new ≡ false
    → is_tree c.kind ≡ false
    → IsOrdered (c.new ∷ seen) cs found
    → IsOrdered seen (c ∷ cs) (found.0, entry_of c ∷ found.1)
unfolding entry_of news
IsOrdered-blob seen c cs found h k r = record {
  trees = r.trees;
  blobs = (k, r.blobs);
  holds = holds;
  distinct = distinct_middle (entry_of c) found.0 found.1 fresh r.distinct;
}
  where
    fresh : has (oids (found.0 ++ found.1)) c.new ≡ false
    fresh = r.holds c.new ∙ ap (λ b. not b && has (news cs) c.new) (has_here c.new c.new seen refl)

    holds :
        (o : ℕ)
        → has (oids (found.0 ++ (entry_of c ∷ found.1))) o
          ≡ (not (has seen o) && has (news (c ∷ cs)) o)
    holds o =
        holds_middle (entry_of c) found.0 found.1 o
        ∙ ap (λ b. if c.new == o then true else b) (r.holds o)
        ∙ holds_more c.new seen (news cs) o h

pub IsOrdered-same :
    (seen : List ℕ) (c : Change) (cs : List Change) (found : List DeltaEntry × List DeltaEntry)
    → has seen c.new ≡ true
    → IsOrdered seen cs found
    → IsOrdered seen (c ∷ cs) found
unfolding news
IsOrdered-same seen c cs found h r = record {
  trees = r.trees;
  blobs = r.blobs;
  holds = λ o. r.holds o ∙ holds_same c.new seen (news cs) o h;
  distinct = r.distinct;
}

pub and_false : (b : Bool) → false ≡ (b && false)
and_false true = refl
and_false false = refl

pub nothing-IsOrdered : (seen : List ℕ) → IsOrdered seen [] (order_loop seen [])
unfolding order_loop oids has news IsDistinct
nothing-IsOrdered seen = record {
  trees = tt;
  blobs = tt;
  holds = λ o. and_false (not (has seen o));
  distinct = tt;
}

pub order_loop-IsOrdered :
    (cs : List Change) (seen : List ℕ) → IsOrdered seen cs (order_loop seen cs)
order_loop-IsOrdered [] seen = nothing-IsOrdered seen
order_loop-IsOrdered (c ∷ cs) seen = elim (Bool-cases (has seen c.new)) [
  | inl h ↦
      subst (IsOrdered seen (c ∷ cs)) (sym (loop_skips seen c cs h))
        (IsOrdered-same seen c cs (order_loop seen cs) h (order_loop-IsOrdered cs seen))
  | inr h ↦ elim (Bool-cases (is_tree c.kind)) [
    | inl k ↦ subst (IsOrdered seen (c ∷ cs)) (sym (loop_tree seen c cs h k)) (
        IsOrdered-tree seen c cs (order_loop (c.new ∷ seen) cs) h k
          (order_loop-IsOrdered cs (c.new ∷ seen)))
    | inr k ↦ subst (IsOrdered seen (c ∷ cs)) (sym (loop_blob seen c cs h k)) (
        IsOrdered-blob seen c cs (order_loop (c.new ∷ seen) cs) h k
          (order_loop-IsOrdered cs (c.new ∷ seen)))
  ]
]
