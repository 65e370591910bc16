-- ===== src/Metadata/Refs.antt =====
-- crates/git/metadata/src/memory.rs and lib.rs: updates of refs. What `gix_validate` takes for a name
-- is the argument `is_name`.
pub mod Guard
pub mod Tips
use enroute.Prelude.{
  ℕ, ◌+◌, Bool, true, false, not, ◌&&◌, ◌||◌, Option, none, some, List, [], ◌∷◌, length, take, drop,
  ◌==◌, if◌then◌else◌,
}
use enroute.Prelude.Bytes.{bytes_eq}
use enroute.Prelude.Dict.{get, put, remove, Key, bytes_key, nat_key}
use enroute.Metadata.Rows.{null, Ref, Repo, numbers_commit}

pub data RefUpdateRejection : Type 0 where
  non_fast_forward unknown_commit already_exists invalid_refname : RefUpdateRejection

pub data Outcome : Type 0 where
  landed : Outcome
  rejected : RefUpdateRejection → Outcome

pub record RefUpdate : Type 0 where
  pub refname : List ℕ
  pub old_id : ℕ
  pub new_id : ℕ

pub record RefUpdateResult : Type 0 where
  pub refname : List ℕ
  pub result : Outcome

unfoldable pub ok_result : List ℕ → RefUpdateResult
ok_result refname = record { refname = refname; result = landed }

unfoldable pub reject_result : List ℕ → RefUpdateRejection → RefUpdateResult
reject_result refname rejection = record { refname = refname; result = rejected rejection }

unfoldable pub starts_with : List ℕ → List ℕ → Bool
starts_with text prefix = bytes_eq (take (length prefix) text) prefix

-- `refs/`
abbrev pub refs_prefix : List ℕ
refs_prefix = 114 ∷ 101 ∷ 102 ∷ 115 ∷ 47 ∷ []

-- `refs/heads/`
abbrev pub heads_prefix : List ℕ
heads_prefix = 114 ∷ 101 ∷ 102 ∷ 115 ∷ 47 ∷ 104 ∷ 101 ∷ 97 ∷ 100 ∷ 115 ∷ 47 ∷ []

unfoldable pub is_branch_refname : List ℕ → Bool
unfolding starts_with
is_branch_refname refname = starts_with refname heads_prefix

unfoldable pub contains_slash : List ℕ → Bool
contains_slash [] = false
contains_slash (c ∷ text) = c == 47 || contains_slash text

-- `is_funny_refname`
unfoldable pub is_funny_refname : (List ℕ → Bool) → List ℕ → Bool → Bool
unfolding starts_with contains_slash
is_funny_refname is_name refname is_delete =
    if starts_with refname refs_prefix
    then (if not is_delete && not (contains_slash (drop 5 refname))
        then true
        else not (is_name refname))
    else true

-- `Repo::table`, and the repository with another one in its place.
unfoldable pub table : Repo → Bool → List (List ℕ × Ref)
table repo branch = if branch then repo.branches else repo.others

unfoldable pub with_table : Repo → Bool → List (List ℕ × Ref) → Repo
with_table repo branch refs =
    if branch then record repo { branches = refs } else record repo { others = refs }

-- Where a ref points.
unfoldable pub tip : List (List ℕ × Ref) → List ℕ → Option ℕ
unfolding get
tip refs refname = elim (get refs refname) [ none ↦ none | some one ↦ some one.oid ]

-- `held == Some(oid)`
unfoldable pub points_at : Option ℕ → ℕ → Bool
points_at none oid = false
points_at (some held) oid = held == oid

unfoldable pub is_some : Option ℕ → Bool
is_some none = false
is_some (some held) = true

unfoldable pub delete : Repo → RefUpdate → Bool → Repo × RefUpdateResult
unfolding table with_table tip points_at remove ok_result reject_result
delete repo update branch =
    if update.old_id == null
    then (
      with_table repo branch (remove (table repo branch) update.refname),
      ok_result update.refname,
    )
    else if points_at (tip (table repo branch) update.refname) update.old_id
    then (
      with_table repo branch (remove (table repo branch) update.refname),
      ok_result update.refname,
    )
    else (repo, reject_result update.refname non_fast_forward)

-- Why `write` refuses, if it does.
unfoldable pub rejection : Repo → RefUpdate → Bool → Option RefUpdateRejection
unfolding numbers_commit table tip points_at is_some
rejection repo update branch =
    let numbered = not branch || numbers_commit repo update.new_id in
    let creating = update.old_id == null in
    let held = tip (table repo branch) update.refname in
    if not creating && not (points_at held update.old_id)
    then some non_fast_forward
    else if not numbered
    then some unknown_commit
    else if creating && is_some held
    then some already_exists
    else none

unfoldable pub write : Repo → RefUpdate → Bool → ℕ → Repo × RefUpdateResult
unfolding rejection table with_table put ok_result reject_result
write repo update branch at = elim (rejection repo update branch) [
  | some why ↦ (repo, reject_result update.refname why)
  | none ↦ (
    with_table repo branch
        (put (table repo branch) update.refname (record { oid = update.new_id; updated = at })),
    ok_result update.refname,
  )
]

-- `at` is what `now` answers.
unfoldable pub apply : (List ℕ → Bool) → Repo → RefUpdate → ℕ → Repo × RefUpdateResult
unfolding is_funny_refname is_branch_refname delete write reject_result
apply is_name repo update at =
    if is_funny_refname is_name update.refname (update.new_id == null)
    then (repo, reject_result update.refname invalid_refname)
    else if update.new_id == null
    then delete repo update (is_branch_refname update.refname)
    else write repo update (is_branch_refname update.refname) at

-- Each update with what `now` answers when it is applied.
unfoldable pub update_refs :
    (List ℕ → Bool) → Repo → List (RefUpdate × ℕ) → Repo × List RefUpdateResult
unfolding apply
update_refs is_name repo [] = (repo, [])
update_refs is_name repo (update ∷ updates) =
    let one = apply is_name repo update.0 update.1 in
    let rest = update_refs is_name one.0 updates in (rest.0, one.1 ∷ rest.1)
