-- ===== src/Graph/Ancestry/Sound.antt =====
-- What is proven is true: a home that a commit is said to reach is one of its ancestors, or a boundary
-- above the commit reaches it.
use mathlib.Core.Bool.{true≢false}
use mathlib.Core.Path.{subst}
use enroute.Prelude.{
  none≢some, some_eq, ◌⊎◌, ℕ, suc, ◌+◌, ◌≤◌, ◌≡◌, refl, sym, ap, ◌∙◌, min, Bool, true, false, ◌&&◌,
  none, some, Option-cases, Bool-cases, inl, inr, List, [], ◌∷◌, ◌++◌, append_assoc, length,
  length-append, get_elem?, leb, ◌==◌, arith, if◌then◌else◌, All, All-++, Result, ok, err, ◌>>=◌,
}
use enroute.Prelude.Sets.{has}
use enroute.Prelude.Dict.{get, nat_key}
use enroute.Graph.TopoOrder.{deps, topo_order, TopoError}
use enroute.Graph.Ancestry.{
  Push, Boundaries, Closures, Query, u32_max, push_of, index_from, older_from, reaches_older,
  proves, proven_of, closure_of, retire_parents, is_awaited, keep_closure, children_left,
  prove_loop, prove,
}
use enroute.Graph.Ancestry.Bits.{
  Ancestor, Means, in_push, older, IsAt, is_at, index_from-IsAt, get_elem?-length,
}
use enroute.Graph.Ancestry.Live.{
  IsLive, keep_closure-IsLive, retire_parents-IsLive, closure_of-Means,
}

-- What a proof is of: the home is an ancestor, or a boundary above the commit reaches it.
pub data IsReached (push : Push) (boundaries : Boundaries) (target home : ℕ) : Type 0 where
  is_ancestor : Ancestor push.parents_of target home → IsReached push boundaries target home
  through :
      (i b : ℕ) (reachable : List ℕ)
      → get_elem? boundaries.oids i ≡ some b
      → get_elem? boundaries.reachable i ≡ some reachable
      → has reachable home ≡ true
      → Ancestor push.parents_of target b
      → IsReached push boundaries target home

-- A boundary whose bit stands and which reaches a home.
data Found (rest : List (List ℕ)) (closure : List ℕ) (commits at home : ℕ) : Type 0 where
  found :
      (i : ℕ) (reachable : List ℕ)
      → get_elem? rest i ≡ some reachable
      → has closure (min (commits + (at + i)) u32_max) ≡ true
      → has reachable home ≡ true
      → Found rest closure commits at home

Found-later :
    (r : List ℕ) (rest : List (List ℕ)) (closure : List ℕ) (commits at home : ℕ)
    → Found rest closure commits (at + 1) home
    → Found (r ∷ rest) closure commits at home
Found-later r rest closure commits at home (found i s e h k) =
    found (suc i) s e (subst (λ n. has closure (min (commits + n) u32_max) ≡ true) (shift at i) h) k
  where
    shift : (at i : ℕ) → at + 1 + i ≡ at + suc i
    shift at i = omega arith

either :
    (a b c more : Bool)
    → (if a && b && c then true else more) ≡ true
    → ((b ≡ true) × (c ≡ true)) ⊎ (more ≡ true)
either true true true more h = inl (refl, refl)
either true true false more h = inr h
either true false c more h = inr h
either false b c more h = inr h

older_from-Found :
    (rest : List (List ℕ)) (at : ℕ) (closure : List ℕ) (commits home : ℕ)
    → older_from at rest closure commits home ≡ true
    → Found rest closure commits at home
unfolding older_from
older_from-Found [] at closure commits home h = absurd (true≢false (sym h))
older_from-Found (r ∷ rest) at closure commits home h =
    elim (either (leb at u32_max) (has closure (min (commits + at) u32_max)) (has r home)
      (older_from (at + 1) rest closure commits home) h) [
        | inl (q, k) ↦
            found 0 r refl
              (subst (λ n. has closure (min (commits + n) u32_max) ≡ true) (nothing at) q) k
        | inr m ↦
            Found-later r rest closure commits at home
              (older_from-Found rest (at + 1) closure commits home m)
      ]
  where
    nothing : (at : ℕ) → at ≡ at + 0
    nothing at = omega arith

module _ (push : Push) (boundaries : Boundaries) (indexed : push.index_of ≡ index_from 0 push.order)
    (parallel : length boundaries.reachable ≡ length boundaries.oids)
    (few : length push.order + length boundaries.oids ≤ u32_max) where
  abbrev commits : ℕ
  commits = length push.order

  at_index : (p at : ℕ) → get push.index_of p ≡ some at → get_elem? push.order at ≡ some p
  at_index p at e = place (index_from-IsAt push.order 0 p at (ap (λ d. get d p) (sym indexed) ∙ e))
    where
      zero_add : (i : ℕ) → 0 + i ≡ i
      zero_add i = omega arith

      place : IsAt push.order 0 p at → get_elem? push.order at ≡ some p
      place (is_at i q g) = ap (λ j. get_elem? push.order j) (q ∙ zero_add i) ∙ g

  -- The bit of a commit of the push, and of a boundary.
  home_in_push :
      (c home at : ℕ)
      → get push.index_of home ≡ some at
      → Means push boundaries commits c at
      → IsReached push boundaries c home
  home_in_push c home at e (in_push a g r) =
      is_ancestor
        (subst (λ k. Ancestor push.parents_of c k) (some_eq a home (sym g ∙ at_index home at e)) r)
  home_in_push c home at e (older i b g q r) = absurd (
      omega (
        arith,
        q,
        few,
        get_elem?-length boundaries.oids i b g,
        get_elem?-length push.order at home (at_index home at e),
      ))

  home_older :
      (c home i : ℕ) (reachable : List ℕ)
      → get_elem? boundaries.reachable i ≡ some reachable
      → has reachable home ≡ true
      → Means push boundaries commits c (min (commits + (0 + i)) u32_max)
      → IsReached push boundaries c home
  home_older c home i reachable e h (in_push a g r) = absurd (
      omega (
        arith,
        few,
        parallel,
        get_elem?-length boundaries.reachable i reachable e,
        get_elem?-length push.order (min (commits + (0 + i)) u32_max) a g,
      ))
  home_older c home i reachable e h (older j b g q r) =
      through i b reachable (ap (λ k. get_elem? boundaries.oids k) same ∙ g) e h r
    where
      same : i ≡ j
      same = omega (
        arith,
        q,
        few,
        parallel,
        get_elem?-length boundaries.reachable i reachable e,
        get_elem?-length boundaries.oids j b g,
      )

  proves_in :
      (closure : List ℕ) (home at : ℕ)
      → get push.index_of home ≡ some at
      → proves push closure commits boundaries home ≡ has closure at
  unfolding proves
  proves_in closure home at e = rw (e, proves) refl

  proves_out :
      (closure : List ℕ) (home : ℕ)
      → get push.index_of home ≡ none
      → proves push closure commits boundaries home
        ≡ older_from 0 boundaries.reachable closure commits home
  unfolding proves reaches_older
  proves_out closure home e = rw (e, proves) refl

  proves-IsReached :
      (c : ℕ) (closure : List ℕ) (home : ℕ)
      → ((x : ℕ) → has closure x ≡ true → Means push boundaries commits c x)
      → proves push closure commits boundaries home ≡ true
      → IsReached push boundaries c home
  proves-IsReached c closure home means h = elim (Option-cases (get push.index_of home)) [
    | inr (at, e) ↦ home_in_push c home at e (means at (sym (proves_in closure home at e) ∙ h))
    | inl e ↦
        elim (older_from-Found boundaries.reachable 0 closure commits home
          (sym (proves_out closure home e) ∙ h)) [
            | found i r g b k ↦
                home_older c home i r g k (means (min (commits + (0 + i)) u32_max) b)
          ]
  ]

  proven_of-IsReached :
      (queries : List Query) (c : ℕ) (closure : List ℕ)
      → ((x : ℕ) → has closure x ≡ true → Means push boundaries commits c x)
      → All
          (λ pair. IsReached push boundaries pair.0 pair.1)
          (proven_of push c closure commits boundaries queries)
  unfolding proven_of
  proven_of-IsReached [] c closure means = tt
  proven_of-IsReached (query ∷ queries) c closure means = elim (Bool-cases (query.target == c)) [
    | inr q ↦ rw q (proven_of-IsReached queries c closure means)
    | inl q ↦ elim (Bool-cases (proves push closure commits boundaries query.home)) [
      | inr k ↦ rw (q, k) (proven_of-IsReached queries c closure means)
      | inl k ↦
          rw (q, k)
            (
              proves-IsReached c closure query.home means k,
              proven_of-IsReached queries c closure means,
            )
    ]
  ]

  here : (front order : List ℕ) (c : ℕ) → get_elem? (front ++ (c ∷ order)) (length front) ≡ some c
  here [] order c = refl
  here (x ∷ front) order c = here front order c

  kept-IsLive :
      (b : Bool) (closures : Closures) (at : ℕ) (s : List ℕ)
      → ((c x : ℕ)
          → has s x ≡ true
          → get_elem? push.order at ≡ some c
          → Means push boundaries commits c x)
      → IsLive push boundaries commits closures.live
      → IsLive push boundaries commits (if b then keep_closure closures at s else closures).live
  kept-IsLive true closures at s f h = keep_closure-IsLive push boundaries commits closures at s f h
  kept-IsLive false closures at s f h = h

  prove_loop-IsReached :
      (order front : List ℕ) (queries : List Query) (at : ℕ) (closures : Closures) (counts : List ℕ)
      → push.order ≡ front ++ order
      → at ≡ length front
      → IsLive push boundaries commits closures.live
      → All
          (λ pair. IsReached push boundaries pair.0 pair.1)
          (prove_loop push boundaries queries commits at order closures counts)
  unfolding prove_loop
  prove_loop-IsReached [] front queries at closures counts split place live = tt
  prove_loop-IsReached (c ∷ order) front queries at closures counts split place live =
      All-++ (λ pair. IsReached push boundaries pair.0 pair.1)
        (proven_of push c (closure_of push c closures boundaries commits) commits boundaries
          queries)
        _ (proven_of-IsReached queries c _ means)
        (prove_loop-IsReached order (front ++ (c ∷ [])) queries (at + 1) _ _
          (split ∙ sym (append_assoc front (c ∷ []) order))
          (omega (arith, place, length-append front (c ∷ [])))
          (kept-IsLive (is_awaited retired.1 (min at u32_max)) retired.0 (min at u32_max)
            (closure_of push c closures boundaries commits) stands
            (retire_parents-IsLive push boundaries commits (deps push.parents_of c) closures counts
              live)))
    where
      retired : Closures × List ℕ
      retired = retire_parents push (deps push.parents_of c) (closures, counts)

      means :
          (x : ℕ)
          → has (closure_of push c closures boundaries commits) x ≡ true
          → Means push boundaries commits c x
      means = closure_of-Means push boundaries commits closures c live at_index

      at_place : get_elem? push.order at ≡ some c
      at_place =
          ap (λ o. get_elem? o at) split
          ∙ ap (λ (j : ℕ). get_elem? (front ++ (c ∷ order)) j) place
          ∙ here front order c

      capped : min at u32_max ≡ at
      capped = omega (arith, few, get_elem?-length push.order at c at_place)

      stands :
          (d x : ℕ)
          → has (closure_of push c closures boundaries commits) x ≡ true
          → get_elem? push.order (min at u32_max) ≡ some d
          → Means push boundaries commits d x
      stands d x m e =
          subst (λ k. Means push boundaries commits k x)
            (some_eq c d (sym at_place ∙ ap (λ j. get_elem? push.order j) (sym capped) ∙ e))
            (means x m)

  nothing-IsLive : IsLive push boundaries commits []
  unfolding IsLive get
  nothing-IsLive at c x s g m e = absurd (none≢some refl g)

ok_index : Push → Result TopoError Push → Push
ok_index push (ok built) = built
ok_index push (err e) = push

unfoldable is_built : Result TopoError Push → Bool
is_built (ok built) = true
is_built (err e) = false

indexed_of :
    (parents_of : List (ℕ × List ℕ)) (order : Result TopoError (List ℕ)) (push : Push)
    → (order >>= λ o. ok (record { order = o; parents_of = parents_of; index_of = index_from 0 o }))
      ≡ ok push
    → push.index_of ≡ index_from 0 push.order
unfolding is_built ok_index
indexed_of parents_of (ok order) push e =
    subst (λ p. p.index_of ≡ index_from 0 p.order) (ap (ok_index push) e) refl
indexed_of parents_of (err x) push e = absurd (true≢false (sym (ap is_built e)))

-- For a push whose commits and boundaries together fit a `u32`, with an answer for each boundary, whatever
-- is proven of a commit is true: the home is its ancestor by the parents of the push, or one of its
-- ancestors is a boundary that reaches the home.
pub prove-IsReached :
    (parents_of : List (ℕ × List ℕ)) (push : Push) (boundaries : Boundaries) (queries : List Query)
    → push_of parents_of ≡ ok push
    → length boundaries.reachable ≡ length boundaries.oids
    → length push.order + length boundaries.oids ≤ u32_max
    → All (λ pair. IsReached push boundaries pair.0 pair.1) (prove push boundaries queries)
unfolding prove push_of
prove-IsReached parents_of push boundaries queries built parallel few =
    subst
      (λ n.
        All (λ pair. IsReached push boundaries pair.0 pair.1)
          (prove_loop push boundaries queries n 0 push.order
            (record { live = []; resident = 0; oldest = [] }) (children_left push)))
      fits
      (prove_loop-IsReached push boundaries
        (indexed_of parents_of (topo_order parents_of) push built) parallel few push.order []
        queries 0 (record { live = []; resident = 0; oldest = [] }) (children_left push) refl refl
        (nothing-IsLive push boundaries (indexed_of parents_of (topo_order parents_of) push built)
          parallel few))
  where
    fits : length push.order ≡ min (length push.order) u32_max
    fits = omega (arith, few)
