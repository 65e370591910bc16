-- ===== src/Prelude/Pigeonhole.antt =====
-- A set within another is no larger.
use Prim.Native.Nat.{ℕ, suc, ◌≤◌}
use mathlib.Core.Path.{◌≡◌, refl, sym, ap, ◌∙◌}
use mathlib.Core.Logic.{◌≢◌, inl, inr}
use mathlib.Core.Bool.{true, true≢false}
use mathlib.Core.List.{List, [], ◌∷◌}
use native.Mathlib.Omega.{arith}
use enroute.Prelude.Tests.{◌==◌, ==_iff, if◌then◌else◌, Bool-cases}
use enroute.Prelude.Lists.{length}
use enroute.Prelude.Sets.{has, IsDistinct, has_cons, has_nothing, has_here, has_there}

-- A list less the first of what equals a number.
unfoldable less : List ℕ → ℕ → List ℕ
less [] x = []
less (y ∷ ys) x = let rest = less ys x in if y == x then ys else y ∷ rest

has-less : (ys : List ℕ) (x o : ℕ) → x ≢ o → has ys o ≡ true → has (less ys x) o ≡ true
unfolding less
has-less [] x o n h = h
has-less (y ∷ ys) x o n h = elim (Bool-cases (y == x)) [
  | inl q ↦
      rw q
        (elim (has_cons y o ys h) [ inl e ↦ absurd (n (sym ((==_iff y x).0 q) ∙ e)) | inr l ↦ l ])
  | inr q ↦ rw q (elim (has_cons y o ys h) [
    | inl e ↦ has_here y o (less ys x) e
    | inr l ↦ has_there y o (less ys x) (has-less ys x o n l)
  ])
]

length-less : (ys : List ℕ) (x : ℕ) → has ys x ≡ true → length ys ≡ suc (length (less ys x))
unfolding less
length-less [] x h = absurd (true≢false (sym h ∙ has_nothing x))
length-less (y ∷ ys) x h = elim (Bool-cases (y == x)) [
  | inl q ↦ rw q refl
  | inr q ↦ rw q (
      ap suc (
        length-less ys x (elim (has_cons y x ys h) [
          | inl e ↦ absurd (true≢false (sym ((==_iff y x).1 e) ∙ q))
          | inr l ↦ l
        ])))
]

pub length_le :
    (xs ys : List ℕ)
    → IsDistinct xs
    → ((x : ℕ) → has xs x ≡ true → has ys x ≡ true)
    → length xs ≤ length ys
unfolding IsDistinct
length_le [] ys d h = omega arith
length_le (x ∷ xs) ys d h = omega (
  arith,
  length-less ys x (h x (has_here x x xs refl)),
  length_le xs (less ys x) d.1 (λ o k.
      has-less ys x o (λ e. true≢false (sym k ∙ ap (has xs) (sym e) ∙ d.0))
        (h o (has_there x o xs k))),
)
