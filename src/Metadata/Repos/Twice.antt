-- ===== src/Metadata/Repos/Twice.antt =====
-- A key resolves to what was created under it, and creating under it again changes nothing.
use enroute.Prelude.{ℕ, ◌+◌, ◌≡◌, refl, true, Option, none, some, Option-cases, inl, inr, List, ◌∷◌}
use enroute.Prelude.Bytes.{bytes_eq_refl}
use enroute.Prelude.Dict.{put, remove, nat_key}
use enroute.Metadata.Rows.{Repo}
use enroute.Metadata.Objects.{with_counters}
use enroute.Metadata.Repos.{
  State, is_none, has_key, is_live_with, find_live, live_with_key, meta, repo_at, change, named,
  branch_or_main, create,
}

named_is_live :
    (a : Repo) (fresh : ℕ) (key branch : List ℕ)
    → a.deleted_at ≡ none
    → is_live_with (named a fresh key branch) key ≡ true
unfolding named with_counters is_live_with has_key is_none
named_is_live a fresh key branch h = rw (h, is_live_with) (bytes_eq_refl key)

meta-named :
    (a : Repo) (id fresh : ℕ) (key branch : List ℕ)
    → meta (named a fresh key branch) id
      ≡ some (record { id = id; storage_key = fresh; default_branch = branch })
unfolding meta named with_counters
meta-named a id fresh key branch = refl

-- What a key resolves to behind a new repository at the front.
live_with_key-front :
    (a : Repo) (n id fresh : ℕ) (repos : List (ℕ × Repo)) (key branch : List ℕ)
    → a.deleted_at ≡ none
    → live_with_key (record { next_id = n; repos = (id, named a fresh key branch) ∷ repos }) key
      ≡ some (record { id = id; storage_key = fresh; default_branch = branch })
unfolding live_with_key find_live
live_with_key-front a n id fresh repos key branch h =
    rw (named_is_live a fresh key branch h, live_with_key) (meta-named a id fresh key branch)

change_lem :
    (s : State) (n fresh : ℕ) (key branch : List ℕ)
    → change s n (λ repo. named repo fresh key branch) ≡ record {
      next_id = s.next_id;
      repos = (n, named (repo_at s n) fresh key branch) ∷ remove s.repos n;
    }
unfolding change put
change_lem s n fresh key branch = refl

-- What a key resolves to after it is created, where nobody deleted the id that comes next.
resolves :
    (s : State) (branch : Option (List ℕ)) (key : List ℕ) (fresh : ℕ)
    → (repo_at s (s.next_id + 1)).deleted_at ≡ none
    → live_with_key (create s branch key fresh).0 key ≡ some (create s branch key fresh).1
unfolding create repo_at
resolves s branch key fresh h = elim (Option-cases (live_with_key s key)) [
  | inl e ↦
      rw (e, create)
        (rw
          (change_lem (record s { next_id = s.next_id + 1 }) (s.next_id + 1) fresh key
            (branch_or_main branch))
          (live_with_key-front (repo_at s (s.next_id + 1)) (s.next_id + 1) (s.next_id + 1) fresh
            (remove s.repos (s.next_id + 1)) key (branch_or_main branch) h))
  | inr (held, e) ↦ rw (e, create) e
]

-- In every state in which the id that comes next is not marked as deleted already, creating a repository
-- makes its key resolve to what was answered, and creating it again answers the same and changes nothing.
pub create_twice :
    (s : State) (branch other : Option (List ℕ)) (key : List ℕ) (fresh later : ℕ)
    → (repo_at s (s.next_id + 1)).deleted_at ≡ none
    → (live_with_key (create s branch key fresh).0 key ≡ some (create s branch key fresh).1)
      × (create (create s branch key fresh).0 other key later
          ≡ ((create s branch key fresh).0, (create s branch key fresh).1))
unfolding create
create_twice s branch other key fresh later h =
    (resolves s branch key fresh h, rw (resolves s branch key fresh h, create) refl)
