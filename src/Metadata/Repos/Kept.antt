-- ===== src/Metadata/Repos/Kept.antt =====
-- No change of a repository touches its name, its storage key or its deletion.
use enroute.Prelude.{ℕ, ◌≡◌, refl, ◌∙◌, Bool, true, false, List, [], ◌∷◌, arith}
use enroute.Prelude.Dict.{nat_key}
use enroute.Metadata.Rows.{Ref, Repo, Identity}
use enroute.Metadata.Refs.{RefUpdate, update_refs, apply, delete, write, with_table}
use enroute.Metadata.Objects.{with_counters, allocate, record_all, record_each}
use enroute.Metadata.Segments.{
  register_segments, retire_segments, drop_retired_segments, hold_maintenance, release_maintenance,
}
use enroute.Metadata.Repos.Steps.{
  Change, updating, counting, allocating, recording, registering, retiring, sweeping, holding,
  releasing,
}

-- What a change keeps: who the repository is, and whether it is deleted.
pub record IsSame (a : Repo) (b : Repo) : Type 0 where
  pub key : b.key ≡ a.key
  pub storage_key : b.storage_key ≡ a.storage_key
  pub deleted_at : b.deleted_at ≡ a.deleted_at

pub IsSame-refl : (a : Repo) → IsSame a a
IsSame-refl a = record { key = refl; storage_key = refl; deleted_at = refl }

with_table-IsSame :
    (a : Repo) (branch : Bool) (refs : List (List ℕ × Ref)) → IsSame a (with_table a branch refs)
unfolding with_table
with_table-IsSame a true refs = record { key = refl; storage_key = refl; deleted_at = refl }
with_table-IsSame a false refs = record { key = refl; storage_key = refl; deleted_at = refl }

apply-IsSame :
    (is_name : List ℕ → Bool) (a : Repo) (update : RefUpdate) (at : ℕ)
    → IsSame a (apply is_name a update at).0
unfolding apply delete write with_table
apply-IsSame is_name a update at = record {
  key = ground arith;
  storage_key = ground arith;
  deleted_at = ground arith;
}

update_refs-IsSame :
    (is_name : List ℕ → Bool) (a : Repo) (updates : List (RefUpdate × ℕ))
    → IsSame a (update_refs is_name a updates).0
unfolding update_refs
update_refs-IsSame is_name a [] = IsSame-refl a
update_refs-IsSame is_name a (update ∷ updates) =
    let one = apply-IsSame is_name a update.0 update.1 in
    let rest = update_refs-IsSame is_name (apply is_name a update.0 update.1).0 updates in
    record {
      key = rest.key ∙ one.key;
      storage_key = rest.storage_key ∙ one.storage_key;
      deleted_at = rest.deleted_at ∙ one.deleted_at;
    }

record_each-IsSame : (batch : List (ℕ × Identity)) (a : Repo) → IsSame a (record_each a batch)
unfolding record_each
record_each-IsSame [] a = IsSame-refl a
record_each-IsSame (one ∷ batch) a =
    let rest = record_each-IsSame batch _ in
    record { key = rest.key; storage_key = rest.storage_key; deleted_at = rest.deleted_at }

record_all-IsSame : (a : Repo) (batch : List (ℕ × Identity)) → IsSame a (record_all a batch).0
unfolding record_all
record_all-IsSame a batch = record {
  key = ground (arith, (record_each-IsSame batch a).key);
  storage_key = ground (arith, (record_each-IsSame batch a).storage_key);
  deleted_at = ground (arith, (record_each-IsSame batch a).deleted_at);
}

pub Change-IsSame :
    (is_name : List ℕ → Bool) (a : Repo) {b : Repo} → Change is_name a b → IsSame a b
unfolding with_counters allocate register_segments retire_segments drop_retired_segments
    hold_maintenance release_maintenance
Change-IsSame is_name a (updating updates) = update_refs-IsSame is_name a updates
Change-IsSame is_name a counting = record { key = refl; storage_key = refl; deleted_at = refl }
Change-IsSame is_name a (allocating kind count first b e) = record {
  key = ground arith;
  storage_key = ground arith;
  deleted_at = ground arith;
}
Change-IsSame is_name a (recording batch) = record_all-IsSame a batch
Change-IsSame is_name a (registering ids) = record {
  key = refl;
  storage_key = refl;
  deleted_at = refl;
}
Change-IsSame is_name a (retiring ids at) = record {
  key = refl;
  storage_key = refl;
  deleted_at = refl;
}
Change-IsSame is_name a (sweeping grace_secs now) = record {
  key = refl;
  storage_key = refl;
  deleted_at = refl;
}
Change-IsSame is_name a holding = record { key = refl; storage_key = refl; deleted_at = refl }
Change-IsSame is_name a releasing = record { key = refl; storage_key = refl; deleted_at = refl }
