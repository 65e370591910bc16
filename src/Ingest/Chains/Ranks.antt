-- ===== src/Ingest/Chains/Ranks.antt =====
-- What the walk notes of an object stays, and what it keeps of an entry.
use mathlib.Core.Bool.{true≢false}
use mathlib.Core.Path.{subst}
use enroute.Prelude.{
  none≢some, some_eq, ◌⊎◌, ℕ, ◌+◌, ◌≤◌, ◌<◌, ◌≡◌, refl, sym, ap, ◌∙◌, min, true, false, none, some,
  Option-cases, Bool-cases, inl, inr, List, le→ltb, ◌==◌, ==_iff, arith,
}
use enroute.Prelude.Dict.{get, put, nat_key, get-put_same, get-put_apart}
use enroute.Packfile.Format.{Kind, commit, tree, blob, tag}
use enroute.Ingest.DeltaPlan.{DeltaEntry, max_chain, cut, or_insert_at}
use enroute.Ingest.Chains.{
  Walk, u32_max, could_loop, depth_of, reached, note, unlooped, is_too_deep, walk_entry,
}

-- Every depth noted is of an object that is ranked, and every rank has been given out.
pub record IsWalk (w : Walk) : Type 0 where
  pub ranked : (o d : ℕ) → get w.depth o ≡ some d → (r : ℕ) × (get w.rank o ≡ some r)
  pub below : (o r : ℕ) → get w.rank o ≡ some r → r < w.next_rank

-- What is noted stays.
pub record Grows (w : Walk) (v : Walk) : Type 0 where
  pub depths : (o d : ℕ) → get w.depth o ≡ some d → get v.depth o ≡ some d
  pub ranks : (o r : ℕ) → get w.rank o ≡ some r → get v.rank o ≡ some r

pub Grows-refl : (w : Walk) → Grows w w
Grows-refl w = record { depths = λ o d e. e; ranks = λ o r e. e }

pub Grows-trans : (u v w : Walk) → Grows u v → Grows v w → Grows u w
Grows-trans u v w f g = record {
  depths = λ o d e. g.depths o d (f.depths o d e);
  ranks = λ o r e. g.ranks o r (f.ranks o r e);
}

pub or_insert_at_fresh :
    (d : List (ℕ × ℕ)) (k v : ℕ) → get d k ≡ none → or_insert_at d k v ≡ put d k v
unfolding or_insert_at
or_insert_at_fresh d k v e = rw (e, or_insert_at) refl

pub or_insert_at_held : (d : List (ℕ × ℕ)) (k v a : ℕ) → get d k ≡ some a → or_insert_at d k v ≡ d
unfolding or_insert_at
or_insert_at_held d k v a e = rw (e, or_insert_at) refl

pub get-or_insert_at_keeps :
    (d : List (ℕ × ℕ)) (k v j a : ℕ) → get d j ≡ some a → get (or_insert_at d k v) j ≡ some a
get-or_insert_at_keeps d k v j a e = elim (Option-cases (get d k)) [
  | inl f ↦
      rw (or_insert_at_fresh d k v f)
        (get-put_apart d k j v (λ q. none≢some f (ap (λ i. get d i) q ∙ e)) ∙ e)
  | inr (held, f) ↦ rw (or_insert_at_held d k v held f) e
]

pub get-or_insert_at_back :
    (d : List (ℕ × ℕ)) (k v j a : ℕ)
    → get (or_insert_at d k v) j ≡ some a
    → (get d j ≡ some a) ⊎ ((get d k ≡ none) × (k ≡ j) × (a ≡ v))
get-or_insert_at_back d k v j a e = elim (Option-cases (get d k)) [
  | inl f ↦ elim (Bool-cases (k == j)) [
    | inl q ↦ inr (
      f,
      (==_iff k j).0 q,
      some_eq a v (
          sym e
          ∙ ap (λ x. get x j) (or_insert_at_fresh d k v f)
          ∙ ap (λ i. get (put d k v) i) (sym ((==_iff k j).0 q))
          ∙ get-put_same d k v),
    )
    | inr q ↦ inl (
        sym (get-put_apart d k j v (λ p. true≢false (sym ((==_iff k j).1 p) ∙ q)))
        ∙ ap (λ x. get x j) (sym (or_insert_at_fresh d k v f))
        ∙ e)
  ]
  | inr (held, f) ↦ inl (ap (λ x. get x j) (sym (or_insert_at_held d k v held f)) ∙ e)
]

pub get-or_insert_at_self :
    (d : List (ℕ × ℕ)) (k v : ℕ) → (a : ℕ) × (get (or_insert_at d k v) k ≡ some a)
get-or_insert_at_self d k v = elim (Option-cases (get d k)) [
  | inl f ↦ (v, ap (λ x. get x k) (or_insert_at_fresh d k v f) ∙ get-put_same d k v)
  | inr (held, f) ↦ (held, ap (λ x. get x k) (or_insert_at_held d k v held f) ∙ f)
]

pub note-Grows : (w : Walk) (oid n : ℕ) → Grows w (note w oid n)
unfolding note
note-Grows w oid n = record {
  depths = λ o d e. get-or_insert_at_keeps w.depth oid n o d e;
  ranks = λ o r e. get-or_insert_at_keeps w.rank oid w.next_rank o r e;
}

pub next_rank-note : (w : Walk) (oid n : ℕ) → w.next_rank ≤ (note w oid n).next_rank
unfolding note
next_rank-note w oid n = elim (Option-cases (get w.rank oid)) [
  | inl e ↦ rw (e, note) (omega arith)
  | inr (r, e) ↦ rw (e, note) (omega arith)
]

-- The rank of an object that had none.
pub note_fresh :
    (w : Walk) (oid n : ℕ)
    → get w.rank oid ≡ none
    → (get (note w oid n).rank oid ≡ some w.next_rank)
      × ((note w oid n).next_rank ≡ w.next_rank + 1)
unfolding note
note_fresh w oid n e = (
  ap (λ x. get x oid) (or_insert_at_fresh w.rank oid w.next_rank e)
      ∙ get-put_same w.rank oid w.next_rank,
  rw (e, note) refl,
)

back_depth :
    (w : Walk) (oid n o d : ℕ)
    → get (note w oid n).depth o ≡ some d
    → (get w.depth o ≡ some d) ⊎ ((get w.depth oid ≡ none) × (oid ≡ o) × (d ≡ n))
unfolding note
back_depth w oid n o d e = get-or_insert_at_back w.depth oid n o d e

back_rank :
    (w : Walk) (oid n o r : ℕ)
    → get (note w oid n).rank o ≡ some r
    → (get w.rank o ≡ some r) ⊎ ((get w.rank oid ≡ none) × (oid ≡ o) × (r ≡ w.next_rank))
unfolding note
back_rank w oid n o r e = get-or_insert_at_back w.rank oid w.next_rank o r e

rank-note_self : (w : Walk) (oid n o : ℕ) → oid ≡ o → (r : ℕ) × (get (note w oid n).rank o ≡ some r)
unfolding note
rank-note_self w oid n o q = rw (sym q) (get-or_insert_at_self w.rank oid w.next_rank)

pub note-IsWalk : (w : Walk) (oid n : ℕ) → IsWalk w → IsWalk (note w oid n)
note-IsWalk w oid n h = record { ranked = depths; below = ranks }
  where
    depths :
        (o d : ℕ)
        → get (note w oid n).depth o ≡ some d
        → (r : ℕ) × (get (note w oid n).rank o ≡ some r)
    depths o d e = elim (back_depth w oid n o d e) [
      | inl f ↦
          let found = h.ranked o d f in (found.0, (note-Grows w oid n).ranks o found.0 found.1)
      | inr (f, q, p) ↦ rank-note_self w oid n o q
    ]

    ranks : (o r : ℕ) → get (note w oid n).rank o ≡ some r → r < (note w oid n).next_rank
    ranks o r e = elim (back_rank w oid n o r e) [
      | inl f ↦ omega (arith, h.below o r f, next_rank-note w oid n)
      | inr (f, q, p) ↦ omega (arith, p, (note_fresh w oid n f).1)
    ]

-- The three ways that an entry goes.
walk_entry_loops :
    (older stored_at : List (ℕ × ℕ)) (w : Walk) (e : DeltaEntry)
    → could_loop stored_at w e ≡ true
    → walk_entry older stored_at w e ≡ (note w e.oid 0, cut e)
unfolding walk_entry is_too_deep
walk_entry_loops older stored_at w e h =
    rw (h, unlooped) (rw (le→ltb (max_chain e.kind) 0 (omega arith)) refl)

walk_entry_deep :
    (older stored_at : List (ℕ × ℕ)) (w : Walk) (e : DeltaEntry)
    → could_loop stored_at w e ≡ false
    → is_too_deep older w e ≡ true
    → walk_entry older stored_at w e ≡ (note w e.oid 0, cut e)
unfolding walk_entry
walk_entry_deep older stored_at w e h k = rw (h, unlooped) (rw k refl)

walk_entry_kept :
    (older stored_at : List (ℕ × ℕ)) (w : Walk) (e : DeltaEntry)
    → could_loop stored_at w e ≡ false
    → is_too_deep older w e ≡ false
    → walk_entry older stored_at w e ≡ (note w e.oid (reached older w e.base), e)
unfolding walk_entry
walk_entry_kept older stored_at w e h k = rw (h, unlooped) (rw k refl)

pub data Goes (older stored_at : List (ℕ × ℕ)) (w : Walk) (e : DeltaEntry) : Type 0 where
  cuts : walk_entry older stored_at w e ≡ (note w e.oid 0, cut e) → Goes older stored_at w e
  keeps :
      could_loop stored_at w e ≡ false
      → is_too_deep older w e ≡ false
      → walk_entry older stored_at w e ≡ (note w e.oid (reached older w e.base), e)
      → Goes older stored_at w e

pub goes : (older stored_at : List (ℕ × ℕ)) (w : Walk) (e : DeltaEntry) → Goes older stored_at w e
goes older stored_at w e = elim (Bool-cases (could_loop stored_at w e)) [
  | inl h ↦ cuts (walk_entry_loops older stored_at w e h)
  | inr h ↦ elim (Bool-cases (is_too_deep older w e)) [
    | inl k ↦ cuts (walk_entry_deep older stored_at w e h k)
    | inr k ↦ keeps h k (walk_entry_kept older stored_at w e h k)
  ]
]

max_chain_le : (k : Kind) → max_chain k ≤ 32
unfolding max_chain
max_chain_le commit = omega arith
max_chain_le tree = omega arith
max_chain_le blob = omega arith
max_chain_le tag = omega arith

not_deep :
    (older : List (ℕ × ℕ)) (w : Walk) (e : DeltaEntry)
    → is_too_deep older w e ≡ false
    → reached older w e.base ≤ max_chain e.kind
unfolding is_too_deep
not_deep older w e k = ground arith

reached_unknown :
    (older : List (ℕ × ℕ)) (w : Walk) (b : ℕ)
    → depth_of older w b ≡ none
    → reached older w (some b) ≡ u32_max
unfolding reached
reached_unknown older w b h = rw (h, reached) refl

reached_known :
    (older : List (ℕ × ℕ)) (w : Walk) (b d : ℕ)
    → depth_of older w b ≡ some d
    → reached older w (some b) ≡ min (d + 1) u32_max
unfolding reached
reached_known older w b d h = rw (h, reached) refl

-- A base that is not too deep is a known one: an unknown one counts as the deepest.
pub known_base :
    (older : List (ℕ × ℕ)) (w : Walk) (e : DeltaEntry) (b : ℕ)
    → e.base ≡ some b
    → is_too_deep older w e ≡ false
    → (d : ℕ) × (depth_of older w b ≡ some d) × (d + 1 ≤ max_chain e.kind)
known_base older w e b f k = elim (Option-cases (depth_of older w b)) [
  | inl h ↦ absurd (unknown h)
  | inr (d, h) ↦ (d, h, known d h)
]
  where
    within : reached older w (some b) ≤ max_chain e.kind
    within = subst (λ o. reached older w o ≤ max_chain e.kind) f (not_deep older w e k)

    unknown : depth_of older w b ≡ none → ⊥
    unknown h = omega (arith, within, reached_unknown older w b h, max_chain_le e.kind)

    known : (d : ℕ) → depth_of older w b ≡ some d → d + 1 ≤ max_chain e.kind
    known d h = omega (arith, within, reached_known older w b d h, max_chain_le e.kind)
