-- ===== src/Metadata/Repos/Steps.antt =====
-- The states that a store can come to. Each operation is one step, since it holds the lock from its
-- start to its end, and names any id, one that the store never gave out included.
use enroute.Prelude.{ℕ, ◌≡◌, Bool, Option, List, ok}
use enroute.Packfile.Format.{Kind}
use enroute.Metadata.Rows.{Repo, Identity}
use enroute.Metadata.Refs.{RefUpdate, update_refs}
use enroute.Metadata.Objects.{with_counters, allocate, record_all}
use enroute.Metadata.Segments.{
  register_segments, retire_segments, drop_retired_segments, hold_maintenance, release_maintenance,
}
use enroute.Metadata.Repos.{State, empty, repo_at, change, create, mark_deleted, erase}

-- What one operation makes of the repository that it names.
pub data Change (is_name : List ℕ → Bool) (a : Repo) : Repo → Type 0 where
  updating : (updates : List (RefUpdate × ℕ)) → Change is_name a (update_refs is_name a updates).0
  counting : Change is_name a (with_counters a)
  allocating :
      (kind : Kind) (count first : ℕ) (b : Repo)
      → allocate a kind count ≡ ok (b, first)
      → Change is_name a b
  recording : (named : List (ℕ × Identity)) → Change is_name a (record_all a named).0
  registering : (ids : List ℕ) → Change is_name a (register_segments a ids)
  retiring : (ids : List ℕ) (at : ℕ) → Change is_name a (retire_segments a ids at)
  sweeping : (grace_secs now : ℕ) → Change is_name a (drop_retired_segments a grace_secs now).0
  holding : Change is_name a (hold_maintenance a).0
  releasing : Change is_name a (release_maintenance a)

pub data Step (is_name : List ℕ → Bool) (s : State) : State → Type 0 where
  creating :
      (branch : Option (List ℕ)) (key : List ℕ) (fresh : ℕ)
      → Step is_name s (create s branch key fresh).0
  deleting : (id now : ℕ) → Step is_name s (mark_deleted s id now).0
  erasing : (id : ℕ) → Step is_name s (erase s id)
  changing :
      (id : ℕ) (b : Repo) → Change is_name (repo_at s id) b → Step is_name s (change s id (λ _. b))

pub data Reach (is_name : List ℕ → Bool) : State → Type 0 where
  start : Reach is_name empty
  next : {s t : State} → Reach is_name s → Step is_name s t → Reach is_name t
