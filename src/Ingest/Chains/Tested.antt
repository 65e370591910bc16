-- ===== src/Ingest/Chains/Tested.antt =====
-- What the tests on an entry say of where its base and its object stand.
use mathlib.Core.Bool.{true≢false}
use enroute.Prelude.{
  ◌⊎◌, ℕ, ◌<◌, ◌≡◌, refl, sym, ap, ◌∙◌, true, false, none, some, Option-cases, inl, inr, List,
  arith,
}
use enroute.Prelude.Dict.{get, nat_key}
use enroute.Ingest.DeltaPlan.{
  DeltaEntry, Placed, stored, in_push, placed, placed_by, or_else, at_or_after,
}
use enroute.Ingest.Chains.{Walk, could_loop, follows, depth_of}

pub depth_of_older :
    (older : List (ℕ × ℕ)) (w : Walk) (b : ℕ)
    → get w.depth b ≡ none
    → depth_of older w b ≡ get older b
unfolding depth_of
depth_of_older older w b e = rw (e, depth_of) refl

pub depth_of_walked :
    (older : List (ℕ × ℕ)) (w : Walk) (b d : ℕ)
    → get w.depth b ≡ some d
    → depth_of older w b ≡ some d
unfolding depth_of
depth_of_walked older w b d e = rw (e, depth_of) refl

pub could_loop_based :
    (stored_at : List (ℕ × ℕ)) (w : Walk) (e : DeltaEntry) (b : ℕ)
    → e.base ≡ some b
    → could_loop stored_at w e
      ≡ follows (placed b stored_at w.rank false) (placed e.oid stored_at w.rank true)
unfolding could_loop
could_loop_based stored_at w e b f = rw (f, could_loop) refl

-- Where a ranked base sits, and where an object does.
pub placed_ranked :
    (o : ℕ) (stored_at rank : List (ℕ × ℕ)) (p : ℕ)
    → get rank o ≡ some p
    → placed o stored_at rank false ≡ some (in_push p)
unfolding placed placed_by or_else
placed_ranked o stored_at rank p r = rw (r, placed) refl

pub placed_stored :
    (o : ℕ) (stored_at rank : List (ℕ × ℕ)) (at : ℕ)
    → get stored_at o ≡ some at
    → placed o stored_at rank true ≡ some (stored at)
unfolding placed placed_by or_else
placed_stored o stored_at rank at r = rw (r, placed) refl

pub placed_new :
    (o : ℕ) (stored_at rank : List (ℕ × ℕ)) (q : ℕ)
    → get stored_at o ≡ none
    → get rank o ≡ some q
    → placed o stored_at rank true ≡ some (in_push q)
unfolding placed placed_by or_else
placed_new o stored_at rank q n r = rw (n, r, placed) refl

pub follows_in_push : (p q : ℕ) → follows (some (in_push p)) (some (in_push q)) ≡ false → p < q
unfolding follows at_or_after
follows_in_push p q h = ground arith

pub follows_stored : (p at : ℕ) → follows (some (in_push p)) (some (stored at)) ≡ true
unfolding follows at_or_after
follows_stored p at = refl

-- A known depth is an older one or one that is noted.
pub known_depth :
    (older : List (ℕ × ℕ)) (w : Walk) (b d : ℕ)
    → depth_of older w b ≡ some d
    → (get w.depth b ≡ some d) ⊎ (get older b ≡ some d)
known_depth older w b d h = elim (Option-cases (get w.depth b)) [
  | inl e ↦ inr (sym (depth_of_older older w b e) ∙ h)
  | inr (held, e) ↦ inl (e ∙ sym (depth_of_walked older w b held e) ∙ h)
]

-- What a test that passes says of a base that is ranked.
pub in_order :
    (stored_at : List (ℕ × ℕ)) (w : Walk) (e : DeltaEntry) (b p : ℕ)
    → e.base ≡ some b
    → get w.rank b ≡ some p
    → could_loop stored_at w e ≡ false
    → (get stored_at e.oid ≡ none)
      × ((get w.rank e.oid ≡ none) ⊎ ((q : ℕ) × (get w.rank e.oid ≡ some q) × (p < q)))
in_order stored_at w e b p f r h = elim (Option-cases (get stored_at e.oid)) [
  | inl n ↦ (
    n,
    elim (Option-cases (get w.rank e.oid)) [
      | inl u ↦ inl u
      | inr (q, v) ↦ inr (
        q,
        v,
        follows_in_push p q
            (sym (follows_at (in_push q) (placed_new e.oid stored_at w.rank q n v)) ∙ h),
      )
    ],
  )
  | inr (at, s) ↦ absurd (
      true≢false (
        sym (follows_stored p at)
        ∙ sym (follows_at (stored at) (placed_stored e.oid stored_at w.rank at s))
        ∙ h))
]
  where
    follows_at :
        (own : Placed)
        → placed e.oid stored_at w.rank true ≡ some own
        → could_loop stored_at w e ≡ follows (some (in_push p)) (some own)
    follows_at own g =
        could_loop_based stored_at w e b f
        ∙ ap (λ x. follows x (placed e.oid stored_at w.rank true))
            (placed_ranked b stored_at w.rank p r)
        ∙ ap (λ x. follows (some (in_push p)) x) g
