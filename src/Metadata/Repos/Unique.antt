-- ===== src/Metadata/Repos/Unique.antt =====
-- Whatever happens, at most one live repository has a key.
use mathlib.Core.Bool.{true≢false}
use enroute.Prelude.{
  ◌⊎◌, ℕ, ◌≤◌, ◌<◌, ◌≡◌, ◌≢◌, refl, sym, ap, ◌∙◌, Bool, true, false, none, some, Bool-cases, inl,
  inr, List, [], ◌∷◌, ◌==◌, ==_iff, arith, All,
}
use enroute.Prelude.Dict.{get, put, remove, nat_key, get-put_same, get-put_apart}
use enroute.Metadata.Rows.{Repo, default}
use enroute.Metadata.Repos.{
  State, is_none, has_key, is_live_with, find_live, live_with_key, meta, repo_at, change,
}
use enroute.Metadata.Repos.Kept.{IsSame}

-- A repository that is called something has a storage key.
unfoldable pub Keyed : ℕ × Repo → Type 0
Keyed entry = (entry.1.key ≡ none) ⊎ ((k : ℕ) × (entry.1.storage_key ≡ some k))

-- What stands past the last id given out has no key, and one live repository at most has a key.
pub record IsUnique (s : State) : Type 0 where
  pub below : (i : ℕ) → s.next_id < i → (repo_at s i).key ≡ none
  pub keyed : All Keyed s.repos
  pub one :
      (i j : ℕ) (key : List ℕ)
      → is_live_with (repo_at s i) key ≡ true
      → is_live_with (repo_at s j) key ≡ true
      → i ≡ j

pub differs : (i j : ℕ) → (i == j) ≡ false → i ≢ j
differs i j e q = true≢false (sym ((==_iff i j).1 q) ∙ e)

pub All-remove : (d : List (ℕ × Repo)) (k : ℕ) → All Keyed d → All Keyed (remove d k)
unfolding remove
All-remove [] k h = tt
All-remove (entry ∷ d) k h = elim (Bool-cases (entry.0 == k)) [
  | inl e ↦ rw e (All-remove d k h.1)
  | inr e ↦ rw e (h.0, All-remove d k h.1)
]

-- What stands at an id, after a change and after an erasure.
pub repo_at-put_same :
    (s : State) (n id : ℕ) (a : Repo)
    → repo_at (record { next_id = n; repos = put s.repos id a }) id ≡ a
unfolding repo_at
repo_at-put_same s n id a = rw (get-put_same s.repos id a, repo_at) refl

pub repo_at-put_apart :
    (s : State) (n id i : ℕ) (a : Repo)
    → id ≢ i
    → repo_at (record { next_id = n; repos = put s.repos id a }) i ≡ repo_at s i
unfolding repo_at
repo_at-put_apart s n id i a ne = rw (get-put_apart s.repos id i a ne, repo_at) refl

pub default_not_live : (key : List ℕ) → is_live_with default key ≡ false
unfolding is_live_with has_key is_none
default_not_live key = refl

live_same : (a b : Repo) (key : List ℕ) → IsSame a b → is_live_with b key ≡ is_live_with a key
unfolding is_live_with has_key
live_same a b key h = rw (h.key, h.deleted_at, is_live_with, has_key) refl

pub below-put :
    (s : State) (n id : ℕ) (a : Repo)
    → ((i : ℕ) → s.next_id < i → (repo_at s i).key ≡ none)
    → s.next_id ≤ n
    → (n < id → a.key ≡ none)
    → (i : ℕ) → n < i
    → (repo_at (record { next_id = n; repos = put s.repos id a }) i).key ≡ none
below-put s n id a h le k i l = elim (Bool-cases (id == i)) [
  | inl q ↦
      ap (λ j. (repo_at (record { next_id = n; repos = put s.repos id a }) j).key)
        (sym ((==_iff id i).0 q))
      ∙ ap (λ (b : Repo). b.key) (repo_at-put_same s n id a)
      ∙ k (omega (arith, l, (==_iff id i).0 q))
  | inr q ↦
      ap (λ (b : Repo). b.key) (repo_at-put_apart s n id i a (differs id i q))
      ∙ h i (omega (arith, l, le))
]

pub Keyed-repo_at :
    (repos : List (ℕ × Repo)) (n id : ℕ)
    → All Keyed repos
    → Keyed (id, repo_at (record { next_id = n; repos = repos }) id)
unfolding repo_at get Keyed
Keyed-repo_at [] n id h = inl refl
Keyed-repo_at (entry ∷ repos) n id h = elim (Bool-cases (entry.0 == id)) [
  | inl e ↦ rw (e, repo_at) h.0
  | inr e ↦ rw (e, repo_at) (Keyed-repo_at repos n id h.1)
]

pub changed-IsUnique :
    (s : State) (id : ℕ) (b : Repo)
    → IsSame (repo_at s id) b
    → IsUnique s
    → IsUnique (change s id (λ _. b))
unfolding change Keyed
changed-IsUnique s id b same u = record {
  below = below-put s s.next_id id b u.below (omega arith) (λ l. same.key ∙ u.below id l);
  keyed = (keyed_same (Keyed-repo_at s.repos s.next_id id u.keyed), All-remove s.repos id u.keyed);
  one = λ i j key p q. u.one i j key (sym (live i key) ∙ p) (sym (live j key) ∙ q);
}
  where
    keyed_same : Keyed (id, repo_at s id) → Keyed (id, b)
    keyed_same (inl e) = inl (same.key ∙ e)
    keyed_same (inr (k, e)) = inr (k, same.storage_key ∙ e)

    live :
        (i : ℕ) (key : List ℕ)
        → is_live_with (repo_at (record s { repos = put s.repos id b }) i) key
          ≡ is_live_with (repo_at s i) key
    live i key = elim (Bool-cases (id == i)) [
      | inl e ↦
          ap (λ k. is_live_with (repo_at (record s { repos = put s.repos id b }) k) key)
            (sym ((==_iff id i).0 e))
          ∙ ap (λ a. is_live_with a key) (repo_at-put_same s s.next_id id b)
          ∙ live_same (repo_at s id) b key same
          ∙ ap (λ k. is_live_with (repo_at s k) key) ((==_iff id i).0 e)
      | inr e ↦ ap (λ a. is_live_with a key) (repo_at-put_apart s s.next_id id i b (differs id i e))
    ]

some_not_none : {V : Type 0} (v : V) → some v ≢ none
some_not_none v q = true≢false (ap {B = Bool} (λ o. elim o [ none ↦ false | some x ↦ true ]) q)

-- A live repository that is called something has metadata.
meta_of_live :
    (entry : ℕ × Repo) (key : List ℕ)
    → Keyed entry
    → is_live_with entry.1 key ≡ true
    → meta entry.1 entry.0 ≢ none
unfolding Keyed meta is_live_with has_key
meta_of_live entry key (inl e) l q = true≢false (sym l ∙ ground arith)
meta_of_live entry key (inr (k, e)) l q =
    some_not_none
      (record { id = entry.0; storage_key = k; default_branch = entry.1.default_branch })
      (sym (rw (e, meta) refl) ∙ q)

-- A live repository called `key` is what `live_with_key` answers, so that none answers means none is.
pub no_live :
    (repos : List (ℕ × Repo)) (n : ℕ) (key : List ℕ)
    → All Keyed repos
    → live_with_key (record { next_id = n; repos = repos }) key ≡ none
    → (i : ℕ) → is_live_with (repo_at (record { next_id = n; repos = repos }) i) key ≡ false
unfolding live_with_key find_live repo_at get
no_live [] n key h e i = default_not_live key
no_live (entry ∷ repos) n key h e i = elim (Bool-cases (is_live_with entry.1 key)) [
  | inl l ↦ absurd (meta_of_live entry key h.0 l (sym (answer l) ∙ e))
  | inr l ↦ elim (Bool-cases (entry.0 == i)) [
    | inl q ↦ rw (q, repo_at) l
    | inr q ↦ rw (q, repo_at) (no_live repos n key h.1 (sym (skip l) ∙ e) i)
  ]
]
  where
    answer :
        is_live_with entry.1 key ≡ true
        → live_with_key (record { next_id = n; repos = entry ∷ repos }) key ≡ meta entry.1 entry.0
    answer l = rw (l, live_with_key) refl

    skip :
        is_live_with entry.1 key ≡ false
        → live_with_key (record { next_id = n; repos = entry ∷ repos }) key
          ≡ live_with_key (record { next_id = n; repos = repos }) key
    skip l = rw (l, live_with_key) refl
