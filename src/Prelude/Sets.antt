-- ===== src/Prelude/Sets.antt =====
-- Sets as lists of numbers.
use Prim.Native.Nat.{ℕ}
use mathlib.Core.Path.{◌≡◌, refl, sym, ◌∙◌}
use mathlib.Core.Logic.{◌≢◌, ◌⊎◌, inl, inr}
use mathlib.Core.Bool.{Bool, true, false, true≢false}
use mathlib.Core.List.{List, [], ◌∷◌, ◌++◌}
use native.Mathlib.Omega.{arith}
use enroute.Prelude.Tests.{◌==◌, ==_iff, ne→==, if◌then◌else◌, Bool-cases}

-- `HashSet::contains`
unfoldable pub has : List ℕ → ℕ → Bool
has [] oid = false
has (held ∷ set) oid = if held == oid then true else has set oid

-- Nothing twice.
unfoldable pub IsDistinct : List ℕ → Type 0
IsDistinct [] = Unit {0}
IsDistinct (x ∷ xs) = (has xs x ≡ false) × IsDistinct xs

pub has_cons :
    (c k : ℕ) (order : List ℕ) → has (c ∷ order) k ≡ true → (c ≡ k) ⊎ (has order k ≡ true)
unfolding has
has_cons c k order h = elim (Bool-cases (c == k)) [
  | inl q ↦ inl ((==_iff c k).0 q)
  | inr q ↦ inr (ground arith)
]

pub has_cons_not :
    (c k : ℕ) (order : List ℕ) → has (c ∷ order) k ≡ false → (c ≢ k) × (has order k ≡ false)
unfolding has
has_cons_not c k order h = (λ q. true≢false (sym (same q) ∙ h), ground arith)
  where
    same : c ≡ k → (if c == k then true else has order k) ≡ true
    same q = rw ((==_iff c k).1 q) refl

pub has_here : (c k : ℕ) (set : List ℕ) → c ≡ k → has (c ∷ set) k ≡ true
unfolding has
has_here c k set q = rw ((==_iff c k).1 q) refl

pub has_apart : (c k : ℕ) (set : List ℕ) → (c == k) ≡ false → has (c ∷ set) k ≡ has set k
unfolding has
has_apart c k set q = rw q refl

pub has_apart_not : (c k : ℕ) (set : List ℕ) → c ≢ k → has set k ≡ false → has (c ∷ set) k ≡ false
has_apart_not c k set n h = has_apart c k set (ne→== c k n) ∙ h

pub has_there : (c k : ℕ) (set : List ℕ) → has set k ≡ true → has (c ∷ set) k ≡ true
unfolding has
has_there c k set h = elim (Bool-cases (c == k)) [ inl q ↦ rw q refl | inr q ↦ rw q h ]

pub has_nothing : (o : ℕ) → has [] o ≡ false
unfolding has
has_nothing o = refl

pub has_front : (xs ys : List ℕ) (o : ℕ) → has xs o ≡ true → has (xs ++ ys) o ≡ true
has_front [] ys o h = absurd (true≢false (sym h ∙ has_nothing o))
has_front (x ∷ xs) ys o h = elim (has_cons x o xs h) [
  | inl q ↦ has_here x o (xs ++ ys) q
  | inr k ↦ has_there x o (xs ++ ys) (has_front xs ys o k)
]

pub has_back : (xs ys : List ℕ) (o : ℕ) → has ys o ≡ true → has (xs ++ ys) o ≡ true
has_back [] ys o h = h
has_back (x ∷ xs) ys o h = has_there x o (xs ++ ys) (has_back xs ys o h)

pub has_either :
    (xs ys : List ℕ) (o : ℕ) → has (xs ++ ys) o ≡ true → (has xs o ≡ true) ⊎ (has ys o ≡ true)
has_either [] ys o h = inr h
has_either (x ∷ xs) ys o h = elim (has_cons x o (xs ++ ys) h) [
  | inl q ↦ inl (has_here x o xs q)
  | inr k ↦ elim (has_either xs ys o k) [ inl l ↦ inl (has_there x o xs l) | inr r ↦ inr r ]
]

pub has_append_not :
    (xs ys : List ℕ) (o : ℕ) → has xs o ≡ false → has ys o ≡ false → has (xs ++ ys) o ≡ false
has_append_not xs ys o h k = elim (Bool-cases (has (xs ++ ys) o)) [
  | inr r ↦ r
  | inl r ↦ elim (has_either xs ys o r) [
    | inl l ↦ absurd (true≢false (sym l ∙ h))
    | inr l ↦ absurd (true≢false (sym l ∙ k))
  ]
]

pub IsDistinct-append :
    (xs ys : List ℕ)
    → IsDistinct xs
    → IsDistinct ys
    → ((x : ℕ) → has xs x ≡ true → has ys x ≡ false)
    → IsDistinct (xs ++ ys)
unfolding IsDistinct
IsDistinct-append [] ys d e h = e
IsDistinct-append (x ∷ xs) ys d e h = (
  has_append_not xs ys x d.0 (h x (has_here x x xs refl)),
  IsDistinct-append xs ys d.1 e (λ y k. h y (has_there x y xs k)),
)

pub IsDistinct_split :
    (x : ℕ) (xs : List ℕ) → IsDistinct (x ∷ xs) → (has xs x ≡ false) × IsDistinct xs
unfolding IsDistinct
IsDistinct_split x xs d = d

pub IsDistinct-cons : (x : ℕ) (xs : List ℕ) → has xs x ≡ false → IsDistinct xs → IsDistinct (x ∷ xs)
unfolding IsDistinct
IsDistinct-cons x xs h d = (h, d)
