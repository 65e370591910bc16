-- ===== src/Ingest/Chains/Walked.antt =====
-- The walk of a push's commits: every entry that it passes is left bound, whatever is walked after it.
use mathlib.Core.Bool.{true≢false}
use mathlib.Core.Path.{subst}
use enroute.Prelude.{
  none≢some, some_eq, ℕ, ◌≡◌, refl, sym, ap, ◌∙◌, true, false, none, some, Option-cases, Bool-cases,
  inl, inr, List, [], ◌∷◌, All,
}
use enroute.Prelude.Dict.{get, put, nat_key, get-put_same, get-put_apart}
use enroute.Ingest.DeltaPlan.{DeltaEntry}
use enroute.Ingest.Chains.{Walk, walk_entry, walk_entries, walk_commits}
use enroute.Prelude.Sets.{has, has_cons, has_cons_not}
use enroute.Ingest.Chains.Ranks.{IsWalk, Grows, Grows-refl, Grows-trans}
use enroute.Ingest.Chains.Backward.{IsBound, IsBound-Grows, walk_entry-IsStep}

pub record IsWalked (older stored_at : List (ℕ × ℕ)) (w : Walk) (done : Walk × List DeltaEntry)
    : Type 0 where
  pub walk : IsWalk done.0
  pub grows : Grows w done.0
  pub bound : All (IsBound older stored_at done.0) done.1

pub walk_entries-IsWalked :
    (entries : List DeltaEntry) (older stored_at : List (ℕ × ℕ)) (w : Walk)
    → IsWalk w
    → IsWalked older stored_at w (walk_entries older stored_at w entries)
unfolding walk_entries
walk_entries-IsWalked [] older stored_at w h = record { walk = h; grows = Grows-refl w; bound = tt }
walk_entries-IsWalked (e ∷ entries) older stored_at w h =
    let one = walk_entry-IsStep older stored_at w e h in
    let rest =
      walk_entries-IsWalked entries older stored_at (walk_entry older stored_at w e).0 one.walk in
    record {
      walk = rest.walk;
      grows = Grows-trans w _ _ one.grows rest.grows;
      bound = (IsBound-Grows older stored_at _ _ _ rest.grows one.bound, rest.bound);
    }

All-IsBound-Grows :
    (es : List DeltaEntry) (older stored_at : List (ℕ × ℕ)) (w v : Walk)
    → Grows w v
    → All (IsBound older stored_at w) es
    → All (IsBound older stored_at v) es
All-IsBound-Grows [] older stored_at w v g h = tt
All-IsBound-Grows (e ∷ es) older stored_at w v g h =
    (IsBound-Grows older stored_at w v e g h.0, All-IsBound-Grows es older stored_at w v g h.1)

-- What the walk of the commits makes of itself and of the packs.
pub record IsDone (older stored_at : List (ℕ × ℕ)) (w : Walk) (packs : List (ℕ × List DeltaEntry))
    (order : List ℕ) (done : Walk × List (ℕ × List DeltaEntry)) : Type 0 where
  pub walk : IsWalk done.0
  pub grows : Grows w done.0
  pub rest : (c : ℕ) → has order c ≡ false → get done.1 c ≡ get packs c
  pub bound :
      (c : ℕ) (es : List DeltaEntry)
      → has order c ≡ true
      → get done.1 c ≡ some es
      → All (IsBound older stored_at done.0) es

pub walked_commit :
    (older stored_at : List (ℕ × ℕ)) (w : Walk) (packs : List (ℕ × List DeltaEntry)) (c : ℕ)
    (order : List ℕ) (es : List DeltaEntry)
    → get packs c ≡ some es
    → walk_commits older stored_at w packs (c ∷ order)
      ≡ walk_commits older stored_at
          (walk_entries older stored_at w es).0
          (put packs c (walk_entries older stored_at w es).1)
          order
unfolding walk_commits
walked_commit older stored_at w packs c order es e = rw (e, walk_commits) refl

pub skipped_commit :
    (older stored_at : List (ℕ × ℕ)) (w : Walk) (packs : List (ℕ × List DeltaEntry)) (c : ℕ)
    (order : List ℕ)
    → get packs c ≡ none
    → walk_commits older stored_at w packs (c ∷ order) ≡ walk_commits older stored_at w packs order
unfolding walk_commits
skipped_commit older stored_at w packs c order e = rw (e, walk_commits) refl

skipped-IsDone :
    (older stored_at : List (ℕ × ℕ)) (w : Walk) (packs : List (ℕ × List DeltaEntry)) (c : ℕ)
    (order : List ℕ) (done : Walk × List (ℕ × List DeltaEntry))
    → get packs c ≡ none
    → IsDone older stored_at w packs order done
    → IsDone older stored_at w packs (c ∷ order) done
skipped-IsDone older stored_at w packs c order done e h = record {
  walk = h.walk;
  grows = h.grows;
  rest = λ k n. h.rest k (has_cons_not c k order n).1;
  bound = bound;
}
  where
    bound :
        (k : ℕ) (es : List DeltaEntry)
        → has (c ∷ order) k ≡ true
        → get done.1 k ≡ some es
        → All (IsBound older stored_at done.0) es
    bound k es i g = elim (Bool-cases (has order k)) [
      | inl x ↦ h.bound k es x g
      | inr x ↦ elim (has_cons c k order i) [
        | inl q ↦ absurd (none≢some (ap (λ j. get packs j) (sym q) ∙ e) (sym (h.rest k x) ∙ g))
        | inr y ↦ absurd (true≢false (sym y ∙ x))
      ]
    ]

walked-IsDone :
    (older stored_at : List (ℕ × ℕ)) (w v : Walk) (packs : List (ℕ × List DeltaEntry)) (c : ℕ)
    (order : List ℕ) (es : List DeltaEntry) (done : Walk × List (ℕ × List DeltaEntry))
    → IsWalked older stored_at w (v, es)
    → IsDone older stored_at v (put packs c es) order done
    → IsDone older stored_at w packs (c ∷ order) done
walked-IsDone older stored_at w v packs c order es done one h = record {
  walk = h.walk;
  grows = Grows-trans w v done.0 one.grows h.grows;
  rest = rest;
  bound = bound;
}
  where
    rest : (k : ℕ) → has (c ∷ order) k ≡ false → get done.1 k ≡ get packs k
    rest k n =
        let both = has_cons_not c k order n in h.rest k both.1 ∙ get-put_apart packs c k es both.0

    bound :
        (k : ℕ) (fs : List DeltaEntry)
        → has (c ∷ order) k ≡ true
        → get done.1 k ≡ some fs
        → All (IsBound older stored_at done.0) fs
    bound k fs i g = elim (Bool-cases (has order k)) [
      | inl x ↦ h.bound k fs x g
      | inr x ↦ elim (has_cons c k order i) [
        | inl q ↦
            subst (All (IsBound older stored_at done.0))
              (some_eq es fs (
                sym (get-put_same packs c es)
                ∙ ap (λ j. get (put packs c es) j) q
                ∙ sym (h.rest k x)
                ∙ g))
              (All-IsBound-Grows es older stored_at v done.0 h.grows one.bound)
        | inr y ↦ absurd (true≢false (sym y ∙ x))
      ]
    ]

nothing-IsDone :
    (older stored_at : List (ℕ × ℕ)) (w : Walk) (packs : List (ℕ × List DeltaEntry))
    → IsWalk w
    → IsDone older stored_at w packs [] (walk_commits older stored_at w packs [])
unfolding walk_commits has
nothing-IsDone older stored_at w packs h = record {
  walk = h;
  grows = Grows-refl w;
  rest = λ c n. refl;
  bound = λ c es i g. absurd (true≢false (sym i));
}

pub walk_commits-IsDone :
    (order : List ℕ) (older stored_at : List (ℕ × ℕ)) (w : Walk)
    (packs : List (ℕ × List DeltaEntry))
    → IsWalk w
    → IsDone older stored_at w packs order (walk_commits older stored_at w packs order)
walk_commits-IsDone [] older stored_at w packs h = nothing-IsDone older stored_at w packs h
walk_commits-IsDone (c ∷ order) older stored_at w packs h = elim (Option-cases (get packs c)) [
  | inl e ↦
      subst (IsDone older stored_at w packs (c ∷ order))
        (sym (skipped_commit older stored_at w packs c order e))
        (skipped-IsDone older stored_at w packs c order _ e
          (walk_commits-IsDone order older stored_at w packs h))
  | inr (es, e) ↦
      let one = walk_entries-IsWalked es older stored_at w h in
      subst (IsDone older stored_at w packs (c ∷ order))
        (sym (walked_commit older stored_at w packs c order es e))
        (walked-IsDone older stored_at w _ packs c order _ _ one
          (walk_commits-IsDone order older stored_at _ _ one.walk))
]
