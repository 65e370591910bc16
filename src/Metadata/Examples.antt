-- ===== src/Metadata/Examples.antt =====
-- The theorems on crates/git/metadata at concrete inputs.
use mathlib.Core.Bool.{true≢false}
use enroute.Prelude.{
  ℕ, ◌+◌, ◌-◌, ◌^◌, min, ◌≡◌, ◌≢◌, ◌⊎◌, refl, ap, Bool, true, false, Option, none, some, List, [],
  ◌∷◌, ◌++◌, ok, arith, ◌==◌, if◌then◌else◌,
}
use enroute.Prelude.Bytes.{bytes_eq}
use enroute.Prelude.Sets.{has, IsDistinct}
use enroute.Prelude.Dict.{get, put, remove, bytes_key, nat_key, pair_key}
use enroute.Packfile.Format.{commit, tree, blob}
use enroute.Metadata.Rows.{null, Repo, Identity, default, numbers_commit, is_commit, kind_to_u8}
use enroute.Metadata.Refs.{
  RefUpdate, non_fast_forward, heads_prefix, starts_with, contains_slash, is_branch_refname,
  is_funny_refname, table, with_table, tip, points_at, is_some, rejection, write, apply,
  update_refs, ok_result, reject_result,
}
use enroute.Metadata.Refs.Guard.{Allows, after, apply_rejected, apply_landed}
use enroute.Metadata.Refs.Tips.{IsTipped, apply_apart, update_refs-IsTipped}
use enroute.Metadata.Objects.{allocate, with_counters, any_held, record_all, identify}
use enroute.Metadata.Objects.Numbers.{counter, allocate_moves, allocate_total}
use enroute.Metadata.Objects.Recorded.{record_keeps, record_finds}
use enroute.Metadata.Segments.{drop_retired_segments}
use enroute.Metadata.Segments.Sweep.{ids_of, in_grace, sweep_window}
use enroute.Metadata.Repos.{State, empty, create, mark_deleted, live_with_key, repo_at}
use enroute.Metadata.Repos.Steps.{Reach, start, next, creating, deleting}
use enroute.Metadata.Repos.Unique.{IsUnique}
use enroute.Metadata.Repos.Created.{Reach-IsUnique}
use enroute.Metadata.Repos.Twice.{create_twice}

-- `refs/heads/m`
abbrev branch_m : List ℕ
branch_m = heads_prefix ++ (109 ∷ [])

-- A repository that numbers object 7 as a commit and object 8 as a blob, and counts commits.
abbrev one_commit : Repo
one_commit = record default {
  identities = (7, record { seq = 0; kind = commit }) ∷ (8, record { seq = 0; kind = blob }) ∷ [];
  counters = (1, 1) ∷ [];
  segments = (5, some 10) ∷ (6, none) ∷ [];
}

-- The same with a branch at the commit.
abbrev one_branch : Repo
one_branch = record one_commit { branches = (branch_m, record { oid = 7; updated = 1 }) ∷ [] }

abbrev any_name : List ℕ → Bool
any_name refname = true

abbrev create_m : RefUpdate
create_m = record { refname = branch_m; old_id = null; new_id = 7 }

abbrev stale_m : RefUpdate
stale_m = record { refname = branch_m; old_id = 9; new_id = 7 }

apply_rejected_example : (apply any_name one_branch stale_m 3).0 ≡ one_branch
unfolding apply is_funny_refname starts_with contains_slash bytes_eq is_branch_refname write
    rejection numbers_commit is_commit kind_to_u8 table tip points_at get reject_result
apply_rejected_example = apply_rejected any_name one_branch stale_m 3 non_fast_forward refl

apply_landed_example :
    (tip (table (apply any_name one_commit create_m 3).0 true) branch_m ≡ after create_m)
    × Allows (tip (table one_commit true) branch_m) create_m
    × (is_funny_refname any_name branch_m (7 == null) ≡ false)
    × ((7 ≡ null) ⊎ (true ≡ false) ⊎ (numbers_commit one_commit 7 ≡ true))
unfolding apply is_funny_refname starts_with contains_slash bytes_eq is_branch_refname write
    rejection numbers_commit is_commit kind_to_u8 table with_table tip points_at is_some get put
    remove ok_result
apply_landed_example = apply_landed any_name one_commit create_m 3 true refl refl

-- `refs/tags/t`
abbrev tag_t : List ℕ
tag_t = 114 ∷ 101 ∷ 102 ∷ 115 ∷ 47 ∷ 116 ∷ 97 ∷ 103 ∷ 115 ∷ 47 ∷ 116 ∷ []

names_differ : branch_m ≢ tag_t
unfolding bytes_eq
names_differ e = true≢false (ap (λ n. bytes_eq branch_m n) e)

apply_apart_example :
    tip (table (apply any_name one_commit create_m 3).0 false) tag_t
    ≡ tip (table one_commit false) tag_t
apply_apart_example = apply_apart any_name one_commit create_m 3 false tag_t names_differ

one_commit-IsTipped : IsTipped one_commit
unfolding IsTipped tip get
one_commit-IsTipped k oid e =
    absurd
      (true≢false (ap {B = Bool} (λ (o : Option ℕ). elim o [ none ↦ true | some x ↦ false ]) e))

update_refs-IsTipped_example :
    IsTipped (update_refs any_name one_commit ((create_m, 3) ∷ (stale_m, 4) ∷ [])).0
update_refs-IsTipped_example =
    update_refs-IsTipped any_name one_commit ((create_m, 3) ∷ (stale_m, 4) ∷ []) one_commit-IsTipped

abbrev counted_on : Repo
counted_on = record one_commit { counters = (1, 6) ∷ [] }

allocate_moves_example :
    (counter one_commit commit ≡ some 1)
    × (counter counted_on commit ≡ some (min (1 + 5) (2 ^ 63 - 1)))
    × (counter counted_on tree ≡ counter one_commit tree)
unfolding allocate get put remove kind_to_u8
allocate_moves_example = allocate_moves one_commit counted_on commit tree 5 1 refl (λ e. cc)

allocate_total_example :
    (to : Repo) × (first : ℕ) × (allocate (with_counters one_commit) tree 4 ≡ ok (to, first))
allocate_total_example = allocate_total one_commit tree 4 (omega arith) (omega arith)

abbrev named : List (ℕ × Identity)
named = (11, record { seq = 1; kind = commit }) ∷ (12, record { seq = 1; kind = blob }) ∷ []

record_finds_example :
    get
      (identify
        (record_all one_commit (
          []
          ++ ((11, record { seq = 1; kind = commit })
              ∷ ((12, record { seq = 1; kind = blob }) ∷ [])))).0
        (11 ∷ []))
      11
    ≡ some (record { seq = 1; kind = commit })
unfolding any_held get
record_finds_example =
    record_finds one_commit [] ((12, record { seq = 1; kind = blob }) ∷ []) 11
      (record { seq = 1; kind = commit }) refl (omega arith, tt)

record_keeps_example :
    get (record_all one_commit named).0.identities 7 ≡ some (record { seq = 0; kind = commit })
unfolding get
record_keeps_example = record_keeps one_commit named 7 (record { seq = 0; kind = commit }) refl

sweep_window_example :
    get (drop_retired_segments one_commit 0 11).0.segments 5
    ≡ (if in_grace 0 11 (some 10) then some (some 10) else none)
unfolding get ids_of IsDistinct has
sweep_window_example =
    sweep_window one_commit 0 11 5 (some 10) (refl, (refl, tt)) (omega arith) refl

-- A store that was created under a key, deleted and created under it again.
abbrev key_k : List ℕ
key_k = 107 ∷ []

abbrev created : State
created = (create empty none key_k 5).0

abbrev removed : State
removed = (mark_deleted created 1 9).0

removed-Reach : Reach (λ name. true) removed
unfolding create mark_deleted
removed-Reach = next (next start (creating none key_k 5)) (deleting 1 9)

Reach-IsUnique_example : IsUnique removed
Reach-IsUnique_example = Reach-IsUnique (λ name. true) removed removed-Reach

create_twice_example :
    (live_with_key (create removed none key_k 6).0 key_k ≡ some (create removed none key_k 6).1)
    × (create (create removed none key_k 6).0 (some (3 ∷ [])) key_k 7
        ≡ ((create removed none key_k 6).0, (create removed none key_k 6).1))
unfolding create mark_deleted repo_at get
create_twice_example = create_twice removed none (some (3 ∷ [])) key_k 6 7 refl
