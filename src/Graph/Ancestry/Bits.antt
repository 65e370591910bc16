-- ===== src/Graph/Ancestry/Bits.antt =====
-- What a bit of a closure stands for, and where the bits of a closure come from.
use mathlib.Core.Path.{subst}
use enroute.Prelude.{
  none≢some, some_eq, ◌⊎◌, ℕ, zero, suc, ◌+◌, ◌<◌, ◌≡◌, refl, sym, ap, ◌∙◌, min, true, false, none,
  some, Option-cases, Bool-cases, inl, inr, List, [], ◌∷◌, length, get_elem?, leb, ◌==◌, ==_iff,
  arith,
}
use enroute.Prelude.Sets.{has, has_cons, has_here, has_there}
use enroute.Prelude.Dict.{get, nat_key}
use enroute.Graph.TopoOrder.{deps}
use enroute.Graph.Ancestry.{Push, Boundaries, u32_max, index_from, insert_bit, union, position}

-- One commit is above another in a graph of parents.
pub data Ancestor (parents_of : List (ℕ × List ℕ)) : ℕ → ℕ → Type 0 where
  is_parent : (c a : ℕ) → has (deps parents_of c) a ≡ true → Ancestor parents_of c a
  above :
      (c p a : ℕ)
      → has (deps parents_of c) p ≡ true
      → Ancestor parents_of p a
      → Ancestor parents_of c a

-- A bit of a commit's closure: an ancestor in the push, or a boundary that it reaches.
pub data Means (push : Push) (boundaries : Boundaries) (commits c x : ℕ) : Type 0 where
  in_push :
      (a : ℕ)
      → get_elem? push.order x ≡ some a
      → Ancestor push.parents_of c a
      → Means push boundaries commits c x
  older :
      (i b : ℕ)
      → get_elem? boundaries.oids i ≡ some b
      → x ≡ min (commits + i) u32_max
      → Ancestor push.parents_of c b
      → Means push boundaries commits c x

pub Means-above :
    (push : Push) (boundaries : Boundaries) (commits c p x : ℕ)
    → has (deps push.parents_of c) p ≡ true
    → Means push boundaries commits p x
    → Means push boundaries commits c x
Means-above push boundaries commits c p x h (in_push a e r) = in_push a e (above c p a h r)
Means-above push boundaries commits c p x h (older i b e q r) = older i b e q (above c p b h r)

insert_bit_there : (s : List ℕ) (b : ℕ) → has s b ≡ true → insert_bit s b ≡ s
unfolding insert_bit
insert_bit_there s b q = rw q refl

insert_bit_new : (s : List ℕ) (b : ℕ) → has s b ≡ false → insert_bit s b ≡ b ∷ s
unfolding insert_bit
insert_bit_new s b q = rw q refl

-- The bits of a set with one bit more and of two sets.
pub has-insert_bit :
    (s : List ℕ) (b x : ℕ) → has (insert_bit s b) x ≡ true → (has s x ≡ true) ⊎ (b ≡ x)
has-insert_bit s b x h = elim (Bool-cases (has s b)) [
  | inl q ↦ inl (ap (λ t. has t x) (sym (insert_bit_there s b q)) ∙ h)
  | inr q ↦ elim (has_cons b x s (ap (λ t. has t x) (sym (insert_bit_new s b q)) ∙ h)) [
    | inl e ↦ inr e
    | inr l ↦ inl l
  ]
]

pub has-union :
    (s t : List ℕ) (x : ℕ) → has (union s t) x ≡ true → (has s x ≡ true) ⊎ (has t x ≡ true)
unfolding union
has-union s [] x h = inl h
has-union s (b ∷ t) x h = elim (has-insert_bit (union s t) b x h) [
  | inr e ↦ inr (has_here b x t e)
  | inl l ↦ elim (has-union s t x l) [ inl k ↦ inl k | inr k ↦ inr (has_there b x t k) ]
]

-- The place of an object that a list has.
position_nothing : (o : ℕ) → position [] o ≡ none
unfolding position
position_nothing o = refl

position_here : (b o : ℕ) (oids : List ℕ) → (b == o) ≡ true → position (b ∷ oids) o ≡ some 0
unfolding position
position_here b o oids q = rw q refl

position_later :
    (b o i : ℕ) (oids : List ℕ)
    → (b == o) ≡ false
    → position oids o ≡ some i
    → position (b ∷ oids) o ≡ some (i + 1)
unfolding position
position_later b o i oids q e = rw (q, e) refl

position_never :
    (b o : ℕ) (oids : List ℕ)
    → (b == o) ≡ false
    → position oids o ≡ none
    → position (b ∷ oids) o ≡ none
unfolding position
position_never b o oids q e = rw (q, e) refl

pub get_elem?-position :
    (oids : List ℕ) (o i : ℕ) → position oids o ≡ some i → get_elem? oids i ≡ some o
get_elem?-position [] o i h = absurd (none≢some (position_nothing o) h)
get_elem?-position (b ∷ oids) o i h = elim (Bool-cases (b == o)) [
  | inl q ↦
      subst (λ k. get_elem? (b ∷ oids) k ≡ some o)
        (some_eq 0 i (sym (position_here b o oids q) ∙ h)) (ap some ((==_iff b o).0 q))
  | inr q ↦ elim (Option-cases (position oids o)) [
    | inl e ↦ absurd (none≢some (position_never b o oids q e) h)
    | inr (j, e) ↦
        subst (λ k. get_elem? (b ∷ oids) k ≡ some o)
          (successor j ∙ some_eq (j + 1) i (sym (position_later b o j oids q e) ∙ h))
          (get_elem?-position oids o j e)
  ]
]
  where
    successor : (j : ℕ) → suc j ≡ j + 1
    successor j = omega arith

-- The commit at a place of the order.
pub data IsAt (order : List ℕ) (at o x : ℕ) : Type 0 where
  is_at : (i : ℕ) → x ≡ at + i → get_elem? order i ≡ some o → IsAt order at o x

indexed :
    (c : ℕ) (order : List ℕ) (at : ℕ)
    → leb at u32_max ≡ true
    → index_from at (c ∷ order) ≡ (c, at) ∷ index_from (at + 1) order
unfolding index_from
indexed c order at q = rw q refl

unindexed :
    (c : ℕ) (order : List ℕ) (at : ℕ)
    → leb at u32_max ≡ false
    → index_from at (c ∷ order) ≡ index_from (at + 1) order
unfolding index_from
unindexed c order at q = rw q refl

index_nothing : (at o : ℕ) → get (index_from at []) o ≡ none
unfolding index_from get
index_nothing at o = refl

get_here : (c at o : ℕ) (d : List (ℕ × ℕ)) → (c == o) ≡ true → get ((c, at) ∷ d) o ≡ some at
unfolding get
get_here c at o d q = rw q refl

get_later : (c at o : ℕ) (d : List (ℕ × ℕ)) → (c == o) ≡ false → get ((c, at) ∷ d) o ≡ get d o
unfolding get
get_later c at o d q = rw q refl

later : (c : ℕ) (order : List ℕ) (at o x : ℕ) → IsAt order (at + 1) o x → IsAt (c ∷ order) at o x
later c order at o x (is_at i e g) = is_at (suc i) (omega (arith, e)) g

pub index_from-IsAt :
    (order : List ℕ) (at o x : ℕ) → get (index_from at order) o ≡ some x → IsAt order at o x
index_from-IsAt [] at o x h = absurd (none≢some (index_nothing at o) h)
index_from-IsAt (c ∷ order) at o x h = elim (Bool-cases (leb at u32_max)) [
  | inr q ↦
      later c order at o x
        (index_from-IsAt order (at + 1) o x (ap (λ d. get d o) (sym (unindexed c order at q)) ∙ h))
  | inl q ↦ elim (Bool-cases (c == o)) [
    | inl p ↦
        is_at 0
          (omega
            (arith, some_eq at x (sym (get_here c at o (index_from (at + 1) order) p) ∙ found q)))
          (ap some ((==_iff c o).0 p))
    | inr p ↦ later c order at o x (
        index_from-IsAt order (at + 1) o x
          (sym (get_later c at o (index_from (at + 1) order) p) ∙ found q))
  ]
]
  where
    found : leb at u32_max ≡ true → get ((c, at) ∷ index_from (at + 1) order) o ≡ some x
    found q = ap (λ d. get d o) (sym (indexed c order at q)) ∙ h

pub get_elem?-length :
    {A : Type 0} (xs : List A) (i : ℕ) (x : A) → get_elem? xs i ≡ some x → i < length xs
get_elem?-length [] i x h = absurd (none≢some refl h)
get_elem?-length (y ∷ xs) zero x h = omega arith
get_elem?-length (y ∷ xs) (suc i) x h = omega (arith, get_elem?-length xs i x h)
