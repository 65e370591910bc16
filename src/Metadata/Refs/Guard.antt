-- ===== src/Metadata/Refs/Guard.antt =====
-- An update is a compare-and-set of one ref.
use enroute.Prelude.{
  ℕ, ◌≡◌, refl, ap, ◌⊎◌, Bool, true, false, Option, none, some, List, ◌==◌, ==_iff, if◌then◌else◌,
  arith,
}
use enroute.Prelude.Dict.{put, remove, bytes_key, nat_key, get-remove_same, get-put_same}
use enroute.Metadata.Rows.{null, Ref, Repo, numbers_commit}
use enroute.Metadata.Refs.{
  RefUpdateRejection, landed, rejected, RefUpdate, is_branch_refname, is_funny_refname, table,
  with_table, tip, points_at, is_some, delete, rejection, write, apply,
}

module _ (is_name : List ℕ → Bool) (repo : Repo) (update : RefUpdate) (at : ℕ) where
  delete_rejected :
      (branch : Bool) (why : RefUpdateRejection)
      → (delete repo update branch).1.result ≡ rejected why
      → (delete repo update branch).0 ≡ repo
  unfolding delete
  delete_rejected branch why e = ground arith

  write_rejected :
      (branch : Bool) (why : RefUpdateRejection)
      → (write repo update branch at).1.result ≡ rejected why
      → (write repo update branch at).0 ≡ repo
  unfolding write
  write_rejected branch why e = ground arith

-- An update that is refused changes nothing, whatever the reason.
pub apply_rejected :
    (is_name : List ℕ → Bool) (repo : Repo) (update : RefUpdate) (at : ℕ) (why : RefUpdateRejection)
    → (apply is_name repo update at).1.result ≡ rejected why
    → (apply is_name repo update at).0 ≡ repo
unfolding apply
apply_rejected is_name repo update at why e = ground (
  arith,
  delete_rejected is_name repo update at (is_branch_refname update.refname) why,
  write_rejected is_name repo update at (is_branch_refname update.refname) why,
)

pub table-with_table :
    (repo : Repo) (branch : Bool) (refs : List (List ℕ × Ref))
    → table (with_table repo branch refs) branch ≡ refs
unfolding table with_table
table-with_table repo true refs = refl
table-with_table repo false refs = refl

tip-remove :
    (refs : List (List ℕ × Ref)) (refname : List ℕ) → tip (remove refs refname) refname ≡ none
unfolding tip
tip-remove refs refname = rw (get-remove_same refs refname, tip) refl

tip-put :
    (refs : List (List ℕ × Ref)) (refname : List ℕ) (one : Ref)
    → tip (put refs refname one) refname ≡ some one.oid
unfolding tip
tip-put refs refname one = rw (get-put_same refs refname one, tip) refl

points_at→eq : (held : Option ℕ) (oid : ℕ) → points_at held oid ≡ true → held ≡ some oid
unfolding points_at
points_at→eq none oid e = cc
points_at→eq (some held) oid e = ap some ((==_iff held oid).0 e)

is_some→eq : (held : Option ℕ) → is_some held ≡ false → held ≡ none
unfolding is_some
is_some→eq none e = refl
is_some→eq (some held) e = cc

-- What a ref must have been for an update of it to land.
unfoldable pub Allows : Option ℕ → RefUpdate → Type 0
Allows before update =
    (before ≡ some update.old_id)
    ⊎ ((update.old_id ≡ null) × ((update.new_id ≡ null) ⊎ (before ≡ none)))

delete_landed :
    (repo : Repo) (update : RefUpdate) (branch : Bool)
    → update.new_id ≡ null
    → (delete repo update branch).1.result ≡ landed
    → (tip (table (delete repo update branch).0 branch) update.refname ≡ none)
      × Allows (tip (table repo branch) update.refname) update
unfolding delete Allows
delete_landed repo update branch n e = ground (
  arith,
  tip-remove (table repo branch) update.refname,
  table-with_table repo branch (remove (table repo branch) update.refname),
  points_at→eq (tip (table repo branch) update.refname) update.old_id,
)

rejection-none :
    (repo : Repo) (update : RefUpdate) (branch : Bool)
    → rejection repo update branch ≡ none
    → Allows (tip (table repo branch) update.refname) update
      × ((branch ≡ false) ⊎ (numbers_commit repo update.new_id ≡ true))
unfolding rejection Allows
rejection-none repo update branch e = ground (
  arith,
  points_at→eq (tip (table repo branch) update.refname) update.old_id,
  is_some→eq (tip (table repo branch) update.refname),
)

write_landed :
    (repo : Repo) (update : RefUpdate) (branch : Bool) (at : ℕ)
    → (write repo update branch at).1.result ≡ landed
    → (tip (table (write repo update branch at).0 branch) update.refname ≡ some update.new_id)
      × (rejection repo update branch ≡ none)
unfolding write
write_landed repo update branch at e = ground (
  arith,
  tip-put (table repo branch) update.refname (record { oid = update.new_id; updated = at }),
  table-with_table repo branch
      (put (table repo branch) update.refname (record { oid = update.new_id; updated = at })),
)

-- What an update leaves a ref at.
unfoldable pub after : RefUpdate → Option ℕ
after update = if update.new_id == null then none else some update.new_id

-- An update that lands leaves the ref where it says, or gone if it is a delete. Before it, the ref was
-- where the update says, or the update said nothing of that and deletes the ref or creates one that
-- was not there; git accepts the name; and the tip of a branch is numbered as a commit.
pub apply_landed :
    (is_name : List ℕ → Bool) (repo : Repo) (update : RefUpdate) (at : ℕ) (branch : Bool)
    → is_branch_refname update.refname ≡ branch
    → (apply is_name repo update at).1.result ≡ landed
    → (tip (table (apply is_name repo update at).0 branch) update.refname ≡ after update)
      × Allows (tip (table repo branch) update.refname) update
      × (is_funny_refname is_name update.refname (update.new_id == null) ≡ false)
      × ((update.new_id ≡ null) ⊎ (branch ≡ false) ⊎ (numbers_commit repo update.new_id ≡ true))
unfolding apply after
apply_landed is_name repo update at branch b e = ground (
  arith,
  delete_landed repo update branch,
  write_landed repo update branch at,
  rejection-none repo update branch,
)
