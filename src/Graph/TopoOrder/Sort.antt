-- ===== src/Graph/TopoOrder/Sort.antt =====
-- Sorting moves object ids and does nothing else.
use enroute.Prelude.{
  ℕ, suc, ◌≡◌, refl, sym, ap, ◌∙◌, Bool, true, false, Bool-cases, inl, inr, List, [], ◌∷◌, length,
  ltb, ◌==◌, ne→==, if◌then◌else◌,
}
use enroute.Prelude.Sets.{has, IsDistinct, has_cons_not}
use enroute.Graph.TopoOrder.{insert_oid, sort_oids}

has-insert_oid : (x : ℕ) (xs : List ℕ) (o : ℕ) → has (insert_oid x xs) o ≡ has (x ∷ xs) o
unfolding has insert_oid
has-insert_oid x [] o = refl
has-insert_oid x (y ∷ xs) o = elim (Bool-cases (ltb y x)) [
  | inl q ↦
      rw q (ap (λ b. if y == o then true else b) (has-insert_oid x xs o) ∙ swap (x == o) (y == o))
  | inr q ↦ rw q refl
]
  where
    swap :
        (a b : Bool)
        → (if b then true else if a then true else has xs o)
          ≡ (if a then true else if b then true else has xs o)
    swap true true = refl
    swap true false = refl
    swap false true = refl
    swap false false = refl

pub has-sort_oids : (xs : List ℕ) (o : ℕ) → has (sort_oids xs) o ≡ has xs o
unfolding has sort_oids
has-sort_oids [] o = refl
has-sort_oids (x ∷ xs) o =
    has-insert_oid x (sort_oids xs) o ∙ ap (λ b. if x == o then true else b) (has-sort_oids xs o)

length-insert_oid : (x : ℕ) (xs : List ℕ) → length (insert_oid x xs) ≡ suc (length xs)
unfolding insert_oid
length-insert_oid x [] = refl
length-insert_oid x (y ∷ xs) = elim (Bool-cases (ltb y x)) [
  | inl q ↦ rw q (ap suc (length-insert_oid x xs))
  | inr q ↦ rw q refl
]

pub length-sort_oids : (xs : List ℕ) → length (sort_oids xs) ≡ length xs
unfolding sort_oids
length-sort_oids [] = refl
length-sort_oids (x ∷ xs) = length-insert_oid x (sort_oids xs) ∙ ap suc (length-sort_oids xs)

insert_oid-IsDistinct :
    (x : ℕ) (xs : List ℕ) → has xs x ≡ false → IsDistinct xs → IsDistinct (insert_oid x xs)
unfolding IsDistinct insert_oid has
insert_oid-IsDistinct x [] h d = (refl, tt)
insert_oid-IsDistinct x (y ∷ xs) h d =
    let n = has_cons_not y x xs h in
    elim (Bool-cases (ltb y x)) [
      | inl q ↦ rw q (
        has-insert_oid x xs y ∙ rw (ne→== x y (λ p. n.0 (sym p))) d.0,
        insert_oid-IsDistinct x xs n.1 d.1,
      )
      | inr q ↦ rw q (h, d)
    ]

pub sort_oids-IsDistinct : (xs : List ℕ) → IsDistinct xs → IsDistinct (sort_oids xs)
unfolding IsDistinct sort_oids
sort_oids-IsDistinct [] d = tt
sort_oids-IsDistinct (x ∷ xs) d =
    insert_oid-IsDistinct x (sort_oids xs) (has-sort_oids xs x ∙ d.0) (sort_oids-IsDistinct xs d.1)
