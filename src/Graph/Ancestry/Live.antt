-- ===== src/Graph/Ancestry/Live.antt =====
-- The closures that are held: each has true bits, whatever is dropped and kept.
use mathlib.Core.Bool.{true≢false}
use mathlib.Core.Path.{subst}
use enroute.Prelude.{
  none≢some, some_eq, ℕ, ◌+◌, ◌-◌, ◌≡◌, refl, sym, ap, ◌∙◌, min, Bool, true, false, none, some,
  Option-cases, Bool-cases, inl, inr, List, [], ◌∷◌, ◌++◌, get_elem?, leb, ltb, ◌==◌, ==_iff,
  if◌then◌else◌,
}
use enroute.Prelude.Sets.{has, has_nothing, has_here, has_there}
use enroute.Prelude.Dict.{
  get, put, remove, nat_key, get-put_same, get-put_apart, get-remove_same, get-remove_apart,
}
use enroute.Graph.TopoOrder.{deps}
use enroute.Graph.Ancestry.{
  Push, Boundaries, Closures, u32_max, max_live_ancestor_bits, drop_one, retire, evict,
  keep_closure, retire_parents, insert_bit, union, inherit, position, reached_bit, closure_loop,
  closure_of,
}
use enroute.Graph.Ancestry.Bits.{
  is_parent, Means, in_push, older, Means-above, has-insert_bit, has-union, get_elem?-position,
}

module _ (push : Push) (boundaries : Boundaries) (commits : ℕ) where
  -- The closures under their places have true bits.
  unfoldable pub IsLive : List (ℕ × List ℕ) → Type 0
  IsLive live =
      (at c x : ℕ) (s : List ℕ)
      → get live at ≡ some s
      → has s x ≡ true
      → get_elem? push.order at ≡ some c
      → Means push boundaries commits c x

  remove-IsLive : (live : List (ℕ × List ℕ)) (k : ℕ) → IsLive live → IsLive (remove live k)
  unfolding IsLive
  remove-IsLive live k h at c x s g m e = elim (Bool-cases (k == at)) [
    | inl q ↦ absurd (
        none≢some
          (ap (λ j. get (remove live k) j) (sym ((==_iff k at).0 q)) ∙ get-remove_same live k) g)
    | inr q ↦
        h at c x s
          (sym (get-remove_apart live k at (λ p. true≢false (sym ((==_iff k at).1 p) ∙ q))) ∙ g) m e
  ]

  put-IsLive :
      (live : List (ℕ × List ℕ)) (k : ℕ) (s : List ℕ)
      → ((c x : ℕ)
          → has s x ≡ true
          → get_elem? push.order k ≡ some c
          → Means push boundaries commits c x)
      → IsLive live
      → IsLive (put live k s)
  unfolding IsLive
  put-IsLive live k s f h at c x t g m e = elim (Bool-cases (k == at)) [
    | inl q ↦
        f c x
          (ap (λ u. has u x)
              (some_eq s t (
                sym (get-put_same live k s)
                ∙ ap (λ j. get (put live k s) j) ((==_iff k at).0 q)
                ∙ g))
            ∙ m)
          (ap (λ j. get_elem? push.order j) ((==_iff k at).0 q) ∙ e)
    | inr q ↦
        h at c x t
          (sym (get-put_apart live k at s (λ p. true≢false (sym ((==_iff k at).1 p) ∙ q))) ∙ g) m e
  ]

  drop_one-IsLive :
      (closures : Closures) (at : ℕ) → IsLive closures.live → IsLive (drop_one closures at).live
  unfolding drop_one
  drop_one-IsLive closures at h = elim (Option-cases (get closures.live at)) [
    | inl e ↦ rw (e, drop_one) h
    | inr (s, e) ↦ rw (e, drop_one) (remove-IsLive closures.live at h)
  ]

  retire-IsLive :
      (closures : Closures) (counts : List ℕ) (at : ℕ)
      → IsLive closures.live
      → IsLive (retire closures counts at).0.live
  unfolding retire
  retire-IsLive closures counts at h = elim (Option-cases (get_elem? counts at)) [
    | inl e ↦ rw (e, retire) h
    | inr (count, e) ↦ elim (Bool-cases (count - 1 == 0)) [
      | inl q ↦ rw (e, retire) (rw q (drop_one-IsLive closures at h))
      | inr q ↦ rw (e, retire) (rw q h)
    ]
  ]

  evict-IsLive :
      (oldest : List ℕ) (closures : Closures)
      → IsLive closures.live
      → IsLive (evict oldest closures).live
  unfolding evict
  evict-IsLive [] closures h = h
  evict-IsLive (at ∷ oldest) closures h =
      elim (Bool-cases (ltb max_live_ancestor_bits closures.resident)) [
        | inl q ↦ rw q (evict-IsLive oldest (drop_one closures at) (drop_one-IsLive closures at h))
        | inr q ↦ rw q h
      ]

  pub keep_closure-IsLive :
      (closures : Closures) (at : ℕ) (s : List ℕ)
      → ((c x : ℕ)
          → has s x ≡ true
          → get_elem? push.order at ≡ some c
          → Means push boundaries commits c x)
      → IsLive closures.live
      → IsLive (keep_closure closures at s).live
  unfolding keep_closure
  keep_closure-IsLive closures at s f h =
      evict-IsLive (closures.oldest ++ (at ∷ [])) _ (put-IsLive closures.live at s f h)

  passes_out :
      (p : ℕ) (parents : List ℕ) (closures : Closures) (counts : List ℕ)
      → get push.index_of p ≡ none
      → retire_parents push (p ∷ parents) (closures, counts)
        ≡ retire_parents push parents (closures, counts)
  unfolding retire_parents
  passes_out p parents closures counts e = rw (e, retire_parents) refl

  passes_in :
      (p at : ℕ) (parents : List ℕ) (closures : Closures) (counts : List ℕ)
      → get push.index_of p ≡ some at
      → retire_parents push (p ∷ parents) (closures, counts)
        ≡ retire_parents push parents (retire closures counts at)
  unfolding retire_parents
  passes_in p at parents closures counts e = rw (e, retire_parents) refl

  pub retire_parents-IsLive :
      (parents : List ℕ) (closures : Closures) (counts : List ℕ)
      → IsLive closures.live
      → IsLive (retire_parents push parents (closures, counts)).0.live
  unfolding retire_parents
  retire_parents-IsLive [] closures counts h = h
  retire_parents-IsLive (p ∷ parents) closures counts h =
      elim (Option-cases (get push.index_of p)) [
        | inl e ↦
            subst (λ state. IsLive state.0.live) (sym (passes_out p parents closures counts e))
              (retire_parents-IsLive parents closures counts h)
        | inr (at, e) ↦
            subst (λ state. IsLive state.0.live) (sym (passes_in p at parents closures counts e))
              (retire_parents-IsLive parents (retire closures counts at).0
                (retire closures counts at).1 (retire-IsLive closures counts at h))
      ]

  -- A closure that a commit inherits and marks has true bits.
  inherit-Means :
      (closures : Closures) (closure : List ℕ) (c p at x : ℕ)
      → IsLive closures.live
      → has (deps push.parents_of c) p ≡ true
      → get_elem? push.order at ≡ some p
      → ((y : ℕ) → has closure y ≡ true → Means push boundaries commits c y)
      → has (inherit closures closure at) x ≡ true
      → Means push boundaries commits c x
  unfolding inherit IsLive
  inherit-Means closures closure c p at x live k e f h = elim (has-insert_bit _ at x h) [
    | inr q ↦ in_push p (ap (λ j. get_elem? push.order j) (sym q) ∙ e) (is_parent c p k)
    | inl m ↦ elim (Option-cases (get closures.live at)) [
      | inl n ↦
          f x (sym (ap (λ o. has (elim o [ none ↦ closure | some s ↦ union closure s ]) x) n) ∙ m)
      | inr (s, n) ↦
          elim (has-union closure s x
            (sym (ap (λ o. has (elim o [ none ↦ closure | some s ↦ union closure s ]) x) n) ∙ m)) [
              | inl l ↦ f x l
              | inr l ↦ Means-above push boundaries commits c p x k (live at p x s n l e)
            ]
    ]
  ]

  reached_nowhere :
      (closure : List ℕ) (p : ℕ)
      → position boundaries.oids p ≡ none
      → reached_bit closure commits boundaries p ≡ closure
  unfolding reached_bit
  reached_nowhere closure p n = rw (n, reached_bit) refl

  reached_at :
      (closure : List ℕ) (p i : ℕ)
      → position boundaries.oids p ≡ some i
      → reached_bit closure commits boundaries p
        ≡ (if leb i u32_max then insert_bit closure (min (commits + i) u32_max) else closure)
  unfolding reached_bit
  reached_at closure p i n = rw (n, reached_bit) refl

  reached_bit-Means :
      (closure : List ℕ) (c p x : ℕ)
      → has (deps push.parents_of c) p ≡ true
      → ((y : ℕ) → has closure y ≡ true → Means push boundaries commits c y)
      → has (reached_bit closure commits boundaries p) x ≡ true
      → Means push boundaries commits c x
  reached_bit-Means closure c p x k f h = elim (Option-cases (position boundaries.oids p)) [
    | inl n ↦ f x (ap (λ s. has s x) (sym (reached_nowhere closure p n)) ∙ h)
    | inr (i, n) ↦
        marked (leb i u32_max) i n (ap (λ s. has s x) (sym (reached_at closure p i n)) ∙ h)
  ]
    where
      marked :
          (b : Bool) (i : ℕ)
          → position boundaries.oids p ≡ some i
          → has (if b then insert_bit closure (min (commits + i) u32_max) else closure) x ≡ true
          → Means push boundaries commits c x
      marked false i n m = f x m
      marked true i n m = elim (has-insert_bit closure (min (commits + i) u32_max) x m) [
        | inl l ↦ f x l
        | inr q ↦ older i p (get_elem?-position boundaries.oids p i n) (sym q) (is_parent c p k)
      ]

  -- A commit's closure has true bits.
  closure_loop-Means :
      (parents : List ℕ) (closures : Closures) (c : ℕ) (closure : List ℕ)
      → IsLive closures.live
      → ((p at : ℕ) → get push.index_of p ≡ some at → get_elem? push.order at ≡ some p)
      → ((p : ℕ) → has parents p ≡ true → has (deps push.parents_of c) p ≡ true)
      → ((y : ℕ) → has closure y ≡ true → Means push boundaries commits c y)
      → (x : ℕ) → has (closure_loop push closures boundaries commits parents closure) x ≡ true
      → Means push boundaries commits c x
  unfolding closure_loop
  closure_loop-Means [] closures c closure live indexes are f x h = f x h
  closure_loop-Means (p ∷ parents) closures c closure live indexes are f x h =
      elim (Option-cases (get push.index_of p)) [
        | inl e ↦
            closure_loop-Means parents closures c (reached_bit closure commits boundaries p) live
              indexes (λ q m. are q (has_there p q parents m))
              (λ y m. reached_bit-Means closure c p y (are p (has_here p p parents refl)) f m) x
              (ap
                  (λ o.
                    has
                      (closure_loop push closures boundaries commits parents (elim o [
                        | none ↦ reached_bit closure commits boundaries p
                        | some at ↦ inherit closures closure at
                      ]))
                      x)
                  (sym e)
                ∙ h)
        | inr (at, e) ↦
            closure_loop-Means parents closures c (inherit closures closure at) live indexes
              (λ q m. are q (has_there p q parents m))
              (λ y m.
                inherit-Means closures closure c p at y live (are p (has_here p p parents refl))
                  (indexes p at e) f m)
              x
              (ap
                  (λ o.
                    has
                      (closure_loop push closures boundaries commits parents (elim o [
                        | none ↦ reached_bit closure commits boundaries p
                        | some at ↦ inherit closures closure at
                      ]))
                      x)
                  (sym e)
                ∙ h)
      ]

  pub closure_of-Means :
      (closures : Closures) (c : ℕ)
      → IsLive closures.live
      → ((p at : ℕ) → get push.index_of p ≡ some at → get_elem? push.order at ≡ some p)
      → (x : ℕ) → has (closure_of push c closures boundaries commits) x ≡ true
      → Means push boundaries commits c x
  unfolding closure_of
  closure_of-Means closures c live indexes x h =
      closure_loop-Means (deps push.parents_of c) closures c [] live indexes (λ p m. m)
        (λ y m. absurd (true≢false (sym m ∙ has_nothing y))) x h
