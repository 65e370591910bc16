-- ===== src/Ingest/Chains/Came.antt =====
-- The packs that the walk leaves hold the objects that they held.
use mathlib.Core.Bool.{true≢false}
use enroute.Prelude.{
  some_eq, ℕ, ◌≡◌, refl, sym, ap, ◌∙◌, some, Option-cases, Bool-cases, inl, inr, List, [], ◌∷◌,
  ◌==◌, ==_iff,
}
use enroute.Prelude.Dict.{get, put, nat_key, get-put_same, get-put_apart}
use enroute.Ingest.DeltaPlan.{oids, DeltaEntry}
use enroute.Ingest.Chains.{Walk, walk_entry, walk_entries, walk_commits}
use enroute.Ingest.Chains.Ranks.{cuts, keeps, goes}
use enroute.Ingest.Chains.Backward.{cut_oid}
use enroute.Ingest.Chains.Walked.{walked_commit, skipped_commit}

-- The walk keeps the objects of every pack.
oid-walk_entry :
    (older stored_at : List (ℕ × ℕ)) (w : Walk) (e : DeltaEntry)
    → (walk_entry older stored_at w e).1.oid ≡ e.oid
oid-walk_entry older stored_at w e = elim (goes older stored_at w e) [
  | cuts q ↦ ap (λ one. one.1.oid) q ∙ cut_oid e
  | keeps c k q ↦ ap (λ one. one.1.oid) q
]

oids-walk_entries :
    (es : List DeltaEntry) (older stored_at : List (ℕ × ℕ)) (w : Walk)
    → oids (walk_entries older stored_at w es).1 ≡ oids es
unfolding walk_entries oids
oids-walk_entries [] older stored_at w = refl
oids-walk_entries (e ∷ es) older stored_at w =
    rw
      (
        oid-walk_entry older stored_at w e,
        oids-walk_entries es older stored_at (walk_entry older stored_at w e).0,
      )
      refl

-- The pack that a walked one was, with the same objects.
pub data Came (packs : List (ℕ × List DeltaEntry)) (c : ℕ) (es : List DeltaEntry) : Type 0 where
  came : (fs : List DeltaEntry) → get packs c ≡ some fs → oids es ≡ oids fs → Came packs c es

Came-put :
    (packs : List (ℕ × List DeltaEntry)) (c k : ℕ) (es fs gs : List DeltaEntry)
    → get packs c ≡ some fs
    → oids es ≡ oids fs
    → Came (put packs c es) k gs
    → Came packs k gs
Came-put packs c k es fs gs e o (came hs f p) = elim (Bool-cases (c == k)) [
  | inl q ↦ came fs (ap (λ j. get packs j) (sym ((==_iff c k).0 q)) ∙ e) (
      p
      ∙ ap oids (
          some_eq hs es (
            sym f
            ∙ ap (λ j. get (put packs c es) j) (sym ((==_iff c k).0 q))
            ∙ get-put_same packs c es))
      ∙ o)
  | inr q ↦
      came hs (sym (get-put_apart packs c k es (λ x. true≢false (sym ((==_iff c k).1 x) ∙ q))) ∙ f)
        p
]

unwalked_packs :
    (older stored_at : List (ℕ × ℕ)) (w : Walk) (packs : List (ℕ × List DeltaEntry)) (k : ℕ)
    → get (walk_commits older stored_at w packs []).1 k ≡ get packs k
unfolding walk_commits
unwalked_packs older stored_at w packs k = refl

pub walk_commits-Came :
    (order : List ℕ) (older stored_at : List (ℕ × ℕ)) (w : Walk)
    (packs : List (ℕ × List DeltaEntry)) (k : ℕ) (gs : List DeltaEntry)
    → get (walk_commits older stored_at w packs order).1 k ≡ some gs
    → Came packs k gs
walk_commits-Came [] older stored_at w packs k gs e =
    came gs (sym (unwalked_packs older stored_at w packs k) ∙ e) refl
walk_commits-Came (c ∷ order) older stored_at w packs k gs e = elim (Option-cases (get packs c)) [
  | inl f ↦
      walk_commits-Came order older stored_at w packs k gs
        (ap (λ x. get x.1 k) (sym (skipped_commit older stored_at w packs c order f)) ∙ e)
  | inr (es, f) ↦ Came-put packs c k _ es gs f (oids-walk_entries es older stored_at w) (
      walk_commits-Came order older stored_at _ _ k gs
        (ap (λ x. get x.1 k) (sym (walked_commit older stored_at w packs c order es f)) ∙ e))
]
