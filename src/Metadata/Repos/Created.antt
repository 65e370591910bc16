-- ===== src/Metadata/Repos/Created.antt =====
-- Creating, deleting and erasing keep what the store promises, and a key resolves to what was created.
use mathlib.Core.Bool.{true≢false}
use enroute.Prelude.{
  ◌⊎◌, ℕ, ◌+◌, ◌≡◌, ◌≢◌, refl, sym, ap, ◌∙◌, Bool, true, false, Option, none, some, Option-cases,
  Bool-cases, inl, inr, List, ◌==◌, ==_iff, arith,
}
use enroute.Prelude.Bytes.{bytes_eq→eq}
use enroute.Prelude.Dict.{get, put, remove, nat_key, get-remove_same, get-remove_apart}
use enroute.Metadata.Rows.{Repo, default}
use enroute.Metadata.Objects.{with_counters}
use enroute.Metadata.Repos.{
  State, empty, is_none, has_key, is_live_with, live_with_key, repo_at, change, named,
  branch_or_main, create, mark_deleted, erase,
}
use enroute.Metadata.Repos.Steps.{Step, Reach, start, next, creating, deleting, erasing, changing}
use enroute.Metadata.Repos.Kept.{IsSame-refl, Change-IsSame}
use enroute.Metadata.Repos.Unique.{
  Keyed, IsUnique, differs, All-remove, Keyed-repo_at, repo_at-put_same, repo_at-put_apart,
  default_not_live, below-put, changed-IsUnique, no_live,
}

-- A new repository, live under its key and no other.
named_live :
    (a : Repo) (fresh : ℕ) (key branch other : List ℕ)
    → is_live_with (named a fresh key branch) other ≡ true
    → key ≡ other
unfolding named with_counters is_live_with has_key
named_live a fresh key branch other h = bytes_eq→eq key other (ground arith)

-- Fewer live repositories are no more than one still.
fewer_live :
    (s t : State)
    → ((i : ℕ) (key : List ℕ)
        → is_live_with (repo_at t i) key ≡ true
        → is_live_with (repo_at s i) key ≡ true)
    → IsUnique s
    → (i j : ℕ) (key : List ℕ) → is_live_with (repo_at t i) key ≡ true
    → is_live_with (repo_at t j) key ≡ true
    → i ≡ j
fewer_live s t f u i j key p q = u.one i j key (f i key p) (f j key q)

-- What is live after a creation: the new repository, or what was live before.
live_after :
    (s : State) (n i : ℕ) (a : Repo) (fresh : ℕ) (key branch other : List ℕ)
    → is_live_with
        (repo_at (record { next_id = n; repos = put s.repos n (named a fresh key branch) }) i)
        other
      ≡ true
    → ((n ≡ i) × (key ≡ other)) ⊎ (is_live_with (repo_at s i) other ≡ true)
live_after s n i a fresh key branch other h = elim (Bool-cases (n == i)) [
  | inl e ↦ inl (
    (==_iff n i).0 e,
    named_live a fresh key branch other (
        ap (λ b. is_live_with b other) (sym (repo_at-put_same s n n (named a fresh key branch)))
        ∙ ap
            (λ k.
              is_live_with
                (repo_at (record { next_id = n; repos = put s.repos n (named a fresh key branch) })
                  k)
                other)
            ((==_iff n i).0 e)
        ∙ h),
  )
  | inr e ↦ inr (
      ap (λ b. is_live_with b other)
        (sym (repo_at-put_apart s n n i (named a fresh key branch) (differs n i e)))
      ∙ h)
]

created-IsUnique :
    (s : State) (a : Repo) (key branch : List ℕ) (fresh : ℕ)
    → live_with_key s key ≡ none
    → IsUnique s
    → IsUnique (record {
      next_id = s.next_id + 1;
      repos = put s.repos (s.next_id + 1) (named a fresh key branch);
    })
unfolding Keyed named
created-IsUnique s a key branch fresh free u = record {
  below =
      below-put s (s.next_id + 1) (s.next_id + 1) (named a fresh key branch) u.below (omega arith)
        (λ l. absurd (omega (arith, l)));
  keyed = (inr (fresh, refl), All-remove s.repos (s.next_id + 1) u.keyed);
  one = λ i j other p q.
      only i j other (live_after s (s.next_id + 1) i a fresh key branch other p)
        (live_after s (s.next_id + 1) j a fresh key branch other q);
}
  where
    taken : (j : ℕ) (other : List ℕ) → key ≡ other → is_live_with (repo_at s j) other ≡ true → ⊥
    taken j other e h = true≢false (
        sym h
        ∙ ap (λ k. is_live_with (repo_at s j) k) (sym e)
        ∙ no_live s.repos s.next_id key u.keyed free j)

    only :
        (i j : ℕ) (other : List ℕ)
        → ((s.next_id + 1 ≡ i) × (key ≡ other)) ⊎ (is_live_with (repo_at s i) other ≡ true)
        → ((s.next_id + 1 ≡ j) × (key ≡ other)) ⊎ (is_live_with (repo_at s j) other ≡ true)
        → i ≡ j
    only i j other (inl (e, k)) (inl (f, l)) = sym e ∙ f
    only i j other (inl (e, k)) (inr h) = absurd (taken j other k h)
    only i j other (inr h) (inl (f, l)) = absurd (taken i other l h)
    only i j other (inr h) (inr k) = u.one i j other h k

create-IsUnique :
    (s : State) (branch : Option (List ℕ)) (key : List ℕ) (fresh : ℕ)
    → IsUnique s
    → IsUnique (create s branch key fresh).0
unfolding create change
create-IsUnique s branch key fresh u = elim (Option-cases (live_with_key s key)) [
  | inl e ↦
      rw (e, create)
        (created-IsUnique s (repo_at (record s { next_id = s.next_id + 1 }) (s.next_id + 1)) key
          (branch_or_main branch) fresh e u)
  | inr (held, e) ↦ rw (e, create) u
]

repo_at-remove_same :
    (s : State) (id : ℕ) → repo_at (record s { repos = remove s.repos id }) id ≡ default
unfolding repo_at
repo_at-remove_same s id = rw (get-remove_same s.repos id, repo_at) refl

repo_at-remove_apart :
    (s : State) (id i : ℕ)
    → id ≢ i
    → repo_at (record s { repos = remove s.repos id }) i ≡ repo_at s i
unfolding repo_at
repo_at-remove_apart s id i ne = rw (get-remove_apart s.repos id i ne, repo_at) refl

erase-IsUnique : (s : State) (id : ℕ) → IsUnique s → IsUnique (erase s id)
unfolding erase
erase-IsUnique s id u = record {
  below = λ i l. elim (Bool-cases (id == i)) [
    | inl q ↦ ap (λ (a : Repo). a.key) (none_left i ((==_iff id i).0 q))
    | inr q ↦ ap (λ (a : Repo). a.key) (repo_at-remove_apart s id i (differs id i q)) ∙ u.below i l
  ];
  keyed = All-remove s.repos id u.keyed;
  one = fewer_live s (erase s id) less u;
}
  where
    none_left : (i : ℕ) → id ≡ i → repo_at (erase s id) i ≡ default
    none_left i q = ap (λ k. repo_at (erase s id) k) (sym q) ∙ repo_at-remove_same s id

    less :
        (i : ℕ) (key : List ℕ)
        → is_live_with (repo_at (erase s id) i) key ≡ true
        → is_live_with (repo_at s i) key ≡ true
    less i key p = elim (Bool-cases (id == i)) [
      | inl q ↦ absurd (
          true≢false (
            sym p
            ∙ ap (λ b. is_live_with b key) (none_left i ((==_iff id i).0 q))
            ∙ default_not_live key))
      | inr q ↦
          ap (λ b. is_live_with b key) (sym (repo_at-remove_apart s id i (differs id i q))) ∙ p
    ]

deleted_not_live :
    (a : Repo) (now : ℕ) (key : List ℕ)
    → is_live_with (record a { deleted_at = some now }) key ≡ false
unfolding is_live_with is_none
deleted_not_live a now key = refl

mark_deleted-IsUnique : (s : State) (id now : ℕ) → IsUnique s → IsUnique (mark_deleted s id now).0
unfolding mark_deleted change Keyed
mark_deleted-IsUnique s id now u = elim (Option-cases (repo_at s id).deleted_at) [
  | inl e ↦
      rw (e, mark_deleted)
        (record {
          below = below-put s s.next_id id dead u.below (omega arith) (λ l. u.below id l);
          keyed = (Keyed-repo_at s.repos s.next_id id u.keyed, All-remove s.repos id u.keyed);
          one = fewer_live s (record s { repos = put s.repos id dead }) less u;
        })
  | inr (at, e) ↦
      rw (e, mark_deleted) (changed-IsUnique s id (repo_at s id) (IsSame-refl (repo_at s id)) u)
]
  where
    dead : Repo
    dead = record (repo_at s id) { deleted_at = some now }

    dead_not_live : (key : List ℕ) → is_live_with dead key ≡ false
    dead_not_live key = deleted_not_live (repo_at s id) now key

    less :
        (i : ℕ) (key : List ℕ)
        → is_live_with (repo_at (record s { repos = put s.repos id dead }) i) key ≡ true
        → is_live_with (repo_at s i) key ≡ true
    less i key p = elim (Bool-cases (id == i)) [
      | inl q ↦ absurd (
          true≢false (
            sym p
            ∙ ap (λ k. is_live_with (repo_at (record s { repos = put s.repos id dead }) k) key)
                (sym ((==_iff id i).0 q))
            ∙ ap (λ b. is_live_with b key) (repo_at-put_same s s.next_id id dead)
            ∙ dead_not_live key))
      | inr q ↦
          ap (λ b. is_live_with b key)
            (sym (repo_at-put_apart s s.next_id id i dead (differs id i q)))
          ∙ p
    ]

Step-IsUnique :
    (is_name : List ℕ → Bool) (s : State) {t : State} → Step is_name s t → IsUnique s → IsUnique t
Step-IsUnique is_name s (creating branch key fresh) u = create-IsUnique s branch key fresh u
Step-IsUnique is_name s (deleting id now) u = mark_deleted-IsUnique s id now u
Step-IsUnique is_name s (erasing id) u = erase-IsUnique s id u
Step-IsUnique is_name s (changing id b c) u =
    changed-IsUnique s id b (Change-IsSame is_name (repo_at s id) c) u

empty-IsUnique : IsUnique empty
unfolding get repo_at
empty-IsUnique = record {
  below = λ i l. refl;
  keyed = tt;
  one = λ i j key p q. absurd (true≢false (sym p ∙ default_not_live key));
}

-- In every state that a store can come to from an empty one, by operations on any ids, what stands at an
-- id not yet given out has no key, a repository that has a key has a storage key, and one live repository
-- at most has a key.
pub Reach-IsUnique : (is_name : List ℕ → Bool) (s : State) → Reach is_name s → IsUnique s
Reach-IsUnique is_name _ start = empty-IsUnique
Reach-IsUnique is_name _ (next r step) = Step-IsUnique is_name _ step (Reach-IsUnique is_name _ r)
