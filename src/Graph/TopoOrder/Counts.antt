-- ===== src/Graph/TopoOrder/Counts.antt =====
-- How often a list names an object, and which of a commit's parents are still to come.
use enroute.Prelude.{
  ℕ, ◌+◌, ◌≡◌, refl, true, false, not, ◌&&◌, Bool-cases, inl, inr, List, [], ◌∷◌, ◌++◌, ◌==◌, eq→==,
  arith, if◌then◌else◌,
}
use enroute.Prelude.Sets.{has}
use enroute.Prelude.Dict.{nat_key}
use enroute.Graph.TopoOrder.{in_batch}

unfoldable pub count : ℕ → List ℕ → ℕ
count x [] = 0
count x (y ∷ ys) = let rest = count x ys in if y == x then rest + 1 else rest

pub count-append : (x : ℕ) (xs ys : List ℕ) → count x (xs ++ ys) ≡ count x xs + count x ys
unfolding count
count-append x [] ys = omega arith
count-append x (z ∷ xs) ys = elim (Bool-cases (z == x)) [
  | inl q ↦ rw (q, count-append x xs ys) (omega arith)
  | inr q ↦ rw (q, count-append x xs ys) refl
]

pub count_here : (x : ℕ) (ys : List ℕ) → count x (x ∷ ys) ≡ count x ys + 1
unfolding count
count_here x ys = rw (eq→== x x refl) refl

pub count_apart : (x y : ℕ) (ys : List ℕ) → (y == x) ≡ false → count x (y ∷ ys) ≡ count x ys
unfolding count
count_apart x y ys q = rw q refl

-- The parents of a commit: those of every entry under its key.
unfoldable pub parents_in : List (ℕ × List ℕ) → ℕ → List ℕ
parents_in [] oid = []
parents_in (commit ∷ commits) oid =
    let rest = parents_in commits oid in if commit.0 == oid then commit.1 ++ rest else rest

-- How many of the parents are in the batch and not done.
unfoldable pub undone : List (ℕ × List ℕ) → List ℕ → List ℕ → ℕ
unfolding in_batch has
undone batch done [] = 0
undone batch done (p ∷ ps) =
    let rest = undone batch done ps in
    if in_batch batch p && not (has done p) then rest + 1 else rest

-- How often the batch's commits name a parent that the batch has.
unfoldable pub named_by : List (ℕ × List ℕ) → ℕ → List ℕ → ℕ
unfolding in_batch count
named_by batch p ps = if in_batch batch p then count p ps else 0

pub undone_append :
    (batch : List (ℕ × List ℕ)) (done ps qs : List ℕ)
    → undone batch done (ps ++ qs) ≡ undone batch done ps + undone batch done qs
unfolding undone
undone_append batch done [] qs = omega arith
undone_append batch done (p ∷ ps) qs = elim (Bool-cases (in_batch batch p && not (has done p))) [
  | inl h ↦ rw (h, undone_append batch done ps qs) (omega arith)
  | inr h ↦ rw (h, undone_append batch done ps qs) refl
]

pub named_by_in :
    (batch : List (ℕ × List ℕ)) (p : ℕ) (ps : List ℕ)
    → in_batch batch p ≡ true
    → named_by batch p ps ≡ count p ps
unfolding named_by
named_by_in batch p ps i = rw i refl

pub named_by_out :
    (batch : List (ℕ × List ℕ)) (p : ℕ) (ps : List ℕ)
    → in_batch batch p ≡ false
    → named_by batch p ps ≡ 0
unfolding named_by
named_by_out batch p ps i = rw i refl

pub named_by_append :
    (batch : List (ℕ × List ℕ)) (p : ℕ) (ps qs : List ℕ)
    → named_by batch p (ps ++ qs) ≡ named_by batch p ps + named_by batch p qs
unfolding named_by
named_by_append batch p ps qs = elim (Bool-cases (in_batch batch p)) [
  | inl i ↦ rw i (count-append p ps qs)
  | inr i ↦ rw i (omega arith)
]

pub undone_in :
    (batch : List (ℕ × List ℕ)) (done : List ℕ) (p : ℕ) (ps : List ℕ)
    → in_batch batch p ≡ true
    → has done p ≡ false
    → undone batch done (p ∷ ps) ≡ undone batch done ps + 1
unfolding undone
undone_in batch done p ps i h = rw (i, h) refl

pub undone_out :
    (batch : List (ℕ × List ℕ)) (done : List ℕ) (p : ℕ) (ps : List ℕ)
    → in_batch batch p ≡ false
    → undone batch done (p ∷ ps) ≡ undone batch done ps
unfolding undone
undone_out batch done p ps i = rw i refl

pub undone_had :
    (batch : List (ℕ × List ℕ)) (done : List ℕ) (p : ℕ) (ps : List ℕ)
    → has done p ≡ true
    → undone batch done (p ∷ ps) ≡ undone batch done ps
unfolding undone
undone_had batch done p ps h = elim (Bool-cases (in_batch batch p)) [
  | inl i ↦ rw (i, h) refl
  | inr i ↦ rw i refl
]
