-- ===== src/Metadata/Repos.antt =====
-- crates/git/metadata/src/memory.rs: the repositories of a store. A repository that an operation names
-- and the store does not hold is brought into being empty, as `State::repo` does; `now` is an argument,
-- and so is the fresh storage key.
pub mod Steps
pub mod Kept
pub mod Unique
pub mod Created
pub mod Twice
use enroute.Prelude.{
  ℕ, zero, suc, ◌+◌, ◌-◌, ◌^◌, min, Bool, true, false, not, ◌&&◌, ◌||◌, Option, none, some, List,
  [], ◌∷◌, ◌++◌, take, length, ltb, leb, ◌==◌, if◌then◌else◌,
}
use enroute.Prelude.Bytes.{bytes_eq}
use enroute.Prelude.Dict.{get, put, remove, Key, nat_key, bytes_key}
use enroute.Metadata.Rows.{Ref, Repo, default, secs}
use enroute.Metadata.Refs.{starts_with}
use enroute.Metadata.Objects.{with_counters}
use enroute.Metadata.Segments.{cutoff}

pub record State : Type 0 where
  pub next_id : ℕ
  pub repos : List (ℕ × Repo)

-- `Memory::new`
abbrev pub empty : State
empty = record { next_id = 0; repos = [] }

pub record RepoMetadata : Type 0 where
  pub id : ℕ
  pub storage_key : ℕ
  pub default_branch : List ℕ

-- `Repo::meta`
unfoldable pub meta : Repo → ℕ → Option RepoMetadata
meta repo id = elim repo.storage_key [
  | none ↦ none
  | some storage_key ↦
      some (record { id = id; storage_key = storage_key; default_branch = repo.default_branch })
]

unfoldable pub is_none : Option ℕ → Bool
is_none none = true
is_none (some at) = false

-- `repo.key.as_ref() == Some(key)`
unfoldable pub has_key : Repo → List ℕ → Bool
has_key repo key = elim repo.key [ none ↦ false | some held ↦ bytes_eq held key ]

-- What `live_with_key` looks for.
unfoldable pub is_live_with : Repo → List ℕ → Bool
unfolding is_none has_key
is_live_with repo key = is_none repo.deleted_at && has_key repo key

-- `iter().find`
unfoldable pub find_live : List (ℕ × Repo) → List ℕ → Option (ℕ × Repo)
unfolding is_live_with
find_live [] key = none
find_live (entry ∷ repos) key =
    let rest = find_live repos key in if is_live_with entry.1 key then some entry else rest

unfoldable pub live_with_key : State → List ℕ → Option RepoMetadata
unfolding find_live meta
live_with_key state key = elim (find_live state.repos key) [
  | none ↦ none
  | some found ↦ meta found.1 found.0
]

-- `State::repo`: what stands at an id, empty if nothing does.
unfoldable pub repo_at : State → ℕ → Repo
unfolding get
repo_at state id = elim (get state.repos id) [ none ↦ default | some held ↦ held ]

-- The state after a change of one repository.
unfoldable pub change : State → ℕ → (Repo → Repo) → State
unfolding repo_at put
change state id f = record state { repos = put state.repos id (f (repo_at state id)) }

-- `refs/heads/main`
abbrev pub main_branch : List ℕ
main_branch =
    114 ∷ 101 ∷ 102 ∷ 115 ∷ 47 ∷ 104 ∷ 101 ∷ 97 ∷ 100 ∷ 115 ∷ 47 ∷ 109 ∷ 97 ∷ 105 ∷ 110 ∷ []

-- `default_branch.unwrap_or("refs/heads/main")`
unfoldable pub branch_or_main : Option (List ℕ) → List ℕ
branch_or_main none = main_branch
branch_or_main (some branch) = branch

-- What `create` sets in the new repository.
unfoldable pub named : Repo → ℕ → List ℕ → List ℕ → Repo
unfolding with_counters
named repo storage_key key branch =
    with_counters
      (record repo { storage_key = some storage_key; key = some key; default_branch = branch })

unfoldable pub create : State → Option (List ℕ) → List ℕ → ℕ → State × RepoMetadata
unfolding live_with_key change named branch_or_main
create state default_branch key fresh =
    let id = state.next_id + 1 in
    let branch = branch_or_main default_branch in
    elim (live_with_key state key) [
      | some held ↦ (state, held)
      | none ↦ (
        change (record state { next_id = id }) id (λ repo. named repo fresh key branch),
        record { id = id; storage_key = fresh; default_branch = branch },
      )
    ]

unfoldable pub mark_deleted : State → ℕ → ℕ → State × Bool
unfolding change repo_at
mark_deleted state id now = elim (repo_at state id).deleted_at [
  | some at ↦ (change state id (λ repo. repo), false)
  | none ↦ (change state id (λ repo. record repo { deleted_at = some now }), true)
]

unfoldable pub erase : State → ℕ → State
unfolding remove
erase state id = record state { repos = remove state.repos id }

unfoldable pub lookup : State → ℕ → Option RepoMetadata
unfolding get is_none meta
lookup state id = elim (get state.repos id) [
  | none ↦ none
  | some repo ↦ if is_none repo.deleted_at then meta repo id else none
]

unfoldable pub key_of : State → ℕ → Option (List ℕ)
unfolding get is_none
key_of state id = elim (get state.repos id) [
  | none ↦ none
  | some held ↦ if is_none held.deleted_at then held.key else none
]

-- `last_push_of`
unfoldable pub last_push_of : Repo → Option ℕ
unfolding get secs
last_push_of repo = elim (get repo.branches repo.default_branch) [
  | none ↦ none
  | some one ↦ some (secs one.updated)
]

-- Insertion by id, for `sort_by_key(|repo| repo.id.as_i64())`.
unfoldable pub insert_meta : RepoMetadata → List RepoMetadata → List RepoMetadata
insert_meta m [] = m ∷ []
insert_meta m (n ∷ found) =
    let rest = insert_meta m found in if ltb n.id m.id then n ∷ rest else m ∷ n ∷ found

-- The sorted metadata of the repositories that a test keeps.
unfoldable pub metas_where : (Repo → Bool) → List (ℕ × Repo) → List RepoMetadata
unfolding insert_meta meta
metas_where keeps [] = []
metas_where keeps (entry ∷ repos) =
    let rest = metas_where keeps repos in
    if keeps entry.1
    then elim (meta entry.1 entry.0) [ none ↦ rest | some m ↦ insert_meta m rest ]
    else rest

unfoldable pub all : State → List RepoMetadata
unfolding metas_where is_none
all state = metas_where (λ repo. is_none repo.deleted_at) state.repos

-- `deleted_at.is_some_and(|at| at < cutoff)`
unfoldable pub deleted_before : ℕ → Repo → Bool
deleted_before cut repo = elim repo.deleted_at [ none ↦ false | some at ↦ ltb at cut ]

unfoldable pub deleted : State → ℕ → ℕ → List RepoMetadata
unfolding metas_where deleted_before cutoff
deleted state grace_secs now = metas_where (deleted_before (cutoff grace_secs now)) state.repos
