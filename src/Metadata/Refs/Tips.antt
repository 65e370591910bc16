-- ===== src/Metadata/Refs/Tips.antt =====
-- What an update leaves of the other refs, and the tips of branches.
use enroute.Prelude.{
  ℕ, ◌≡◌, ◌≢◌, refl, sym, ap, ◌∙◌, ◌⊎◌, inl, inr, Bool, true, false, some, Bool-cases, List, [],
  ◌∷◌, arith,
}
use mathlib.Core.Bool.{true≢false}
use enroute.Prelude.Bytes.{bytes_eq}
use enroute.Prelude.Dict.{
  put, remove, bytes_key, nat_key, get-remove_apart, get-put_apart, bytes_iff,
}
use enroute.Metadata.Rows.{null, Ref, Repo, numbers_commit}
use enroute.Metadata.Refs.{
  RefUpdateRejection, Outcome, landed, rejected, RefUpdate, is_branch_refname, table, with_table,
  tip, delete, write, apply, update_refs,
}
use enroute.Metadata.Refs.Guard.{apply_landed, apply_rejected, after}

tip-remove_apart :
    (refs : List (List ℕ × Ref)) (j k : List ℕ) → j ≢ k → tip (remove refs j) k ≡ tip refs k
unfolding tip
tip-remove_apart refs j k ne = rw (get-remove_apart refs j k ne, tip) refl

tip-put_apart :
    (refs : List (List ℕ × Ref)) (j k : List ℕ) (one : Ref)
    → j ≢ k
    → tip (put refs j one) k ≡ tip refs k
unfolding tip
tip-put_apart refs j k one ne = rw (get-put_apart refs j k one ne, tip) refl

-- A name's ref stands wherever the change of one table leaves it.
with_table_apart :
    (repo : Repo) (branch which : Bool) (refs : List (List ℕ × Ref)) (k : List ℕ)
    → tip refs k ≡ tip (table repo branch) k
    → tip (table (with_table repo branch refs) which) k ≡ tip (table repo which) k
unfolding table with_table
with_table_apart repo true true refs k e = e
with_table_apart repo true false refs k e = refl
with_table_apart repo false true refs k e = refl
with_table_apart repo false false refs k e = e

delete_apart :
    (repo : Repo) (update : RefUpdate) (branch which : Bool) (k : List ℕ)
    → update.refname ≢ k
    → tip (table (delete repo update branch).0 which) k ≡ tip (table repo which) k
unfolding delete
delete_apart repo update branch which k ne = ground (
  arith,
  with_table_apart repo branch which (remove (table repo branch) update.refname) k
      (tip-remove_apart (table repo branch) update.refname k ne),
)

write_apart :
    (repo : Repo) (update : RefUpdate) (branch which : Bool) (at : ℕ) (k : List ℕ)
    → update.refname ≢ k
    → tip (table (write repo update branch at).0 which) k ≡ tip (table repo which) k
unfolding write
write_apart repo update branch which at k ne = ground (
  arith,
  with_table_apart repo branch which
      (put (table repo branch) update.refname (record { oid = update.new_id; updated = at })) k
      (tip-put_apart (table repo branch) update.refname k
        (record { oid = update.new_id; updated = at }) ne),
)

-- An update leaves every ref of another name where it was, in both tables.
pub apply_apart :
    (is_name : List ℕ → Bool) (repo : Repo) (update : RefUpdate) (at : ℕ) (which : Bool)
    (k : List ℕ)
    → update.refname ≢ k
    → tip (table (apply is_name repo update at).0 which) k ≡ tip (table repo which) k
unfolding apply
apply_apart is_name repo update at which k ne = ground (
  arith,
  delete_apart repo update (is_branch_refname update.refname) which k ne,
  write_apart repo update (is_branch_refname update.refname) which at k ne,
)

-- Every tip of a branch is numbered as a commit.
unfoldable pub IsTipped : Repo → Type 0
IsTipped repo =
    (k : List ℕ) (oid : ℕ) → tip repo.branches k ≡ some oid → numbers_commit repo oid ≡ true

with_table_others :
    (repo : Repo) (refs : List (List ℕ × Ref))
    → (with_table repo false refs).branches ≡ repo.branches
unfolding with_table
with_table_others repo refs = refl

with_table_identities :
    (repo : Repo) (branch : Bool) (refs : List (List ℕ × Ref))
    → (with_table repo branch refs).identities ≡ repo.identities
unfolding with_table
with_table_identities repo true refs = refl
with_table_identities repo false refs = refl

-- The branches of a repository after an update of another ref.
apply_others :
    (is_name : List ℕ → Bool) (repo : Repo) (update : RefUpdate) (at : ℕ)
    → is_branch_refname update.refname ≡ false
    → (apply is_name repo update at).0.branches ≡ repo.branches
unfolding apply delete write
apply_others is_name repo update at b = ground (
  arith,
  with_table_others repo (remove (table repo false) update.refname),
  with_table_others repo
      (put (table repo false) update.refname (record { oid = update.new_id; updated = at })),
)

apply_identities :
    (is_name : List ℕ → Bool) (repo : Repo) (update : RefUpdate) (at : ℕ)
    → (apply is_name repo update at).0.identities ≡ repo.identities
unfolding apply delete write
apply_identities is_name repo update at = ground (
  arith,
  with_table_identities repo (is_branch_refname update.refname)
      (remove (table repo (is_branch_refname update.refname)) update.refname),
  with_table_identities repo (is_branch_refname update.refname) (
      put (table repo (is_branch_refname update.refname)) update.refname
        (record { oid = update.new_id; updated = at })),
)

numbers_commit_same :
    (a b : Repo) (oid : ℕ)
    → a.identities ≡ b.identities
    → numbers_commit a oid ≡ numbers_commit b oid
unfolding numbers_commit
numbers_commit_same a b oid e = rw (e, numbers_commit) refl

landed_numbered :
    (update : RefUpdate) (repo : Repo) (oid : ℕ)
    → after update ≡ some oid
    → (update.new_id ≡ null) ⊎ (true ≡ false) ⊎ (numbers_commit repo update.new_id ≡ true)
    → numbers_commit repo oid ≡ true
unfolding after
landed_numbered update repo oid e h = ground arith

Outcome-cases : (o : Outcome) → (o ≡ landed) ⊎ ((why : RefUpdateRejection) × (o ≡ rejected why))
Outcome-cases landed = inl refl
Outcome-cases (rejected why) = inr (why, refl)

module _ (is_name : List ℕ → Bool) (repo : Repo) (update : RefUpdate) (at : ℕ) (s : IsTipped repo)
    (oid : ℕ) where
  tip_of_update :
      is_branch_refname update.refname ≡ true
      → tip (apply is_name repo update at).0.branches update.refname ≡ some oid
      → numbers_commit repo oid ≡ true
  unfolding table IsTipped
  tip_of_update b e = elim (Outcome-cases (apply is_name repo update at).1.result) [
    | inl l ↦
        let here = apply_landed is_name repo update at true b l in
        landed_numbered update repo oid (sym here.0 ∙ e) here.3
    | inr (why, r) ↦ s update.refname oid (
        ap (λ (to : Repo). tip to.branches update.refname)
          (sym (apply_rejected is_name repo update at why r))
        ∙ e)
  ]

  apply-tip :
      (k : List ℕ)
      → tip (apply is_name repo update at).0.branches k ≡ some oid
      → numbers_commit repo oid ≡ true
  unfolding table IsTipped
  apply-tip k e = elim (Bool-cases (bytes_eq update.refname k)) [
    | inl p ↦ elim (Bool-cases (is_branch_refname update.refname)) [
      | inl b ↦ tip_of_update b (
          ap (λ j. tip (apply is_name repo update at).0.branches j)
            ((bytes_iff update.refname k).0 p)
          ∙ e)
      | inr b ↦ s k oid (ap (λ refs. tip refs k) (sym (apply_others is_name repo update at b)) ∙ e)
    ]
    | inr p ↦ s k oid (sym (apply_apart is_name repo update at true k (differs p)) ∙ e)
  ]
    where
      differs : bytes_eq update.refname k ≡ false → update.refname ≢ k
      differs p q = true≢false (sym ((bytes_iff update.refname k).1 q) ∙ p)

-- What updates keep of a repository.
apply-IsTipped :
    (is_name : List ℕ → Bool) (repo : Repo) (update : RefUpdate) (at : ℕ)
    → IsTipped repo
    → IsTipped (apply is_name repo update at).0
unfolding IsTipped
apply-IsTipped is_name repo update at s k oid e =
    numbers_commit_same (apply is_name repo update at).0 repo oid
      (apply_identities is_name repo update at)
    ∙ apply-tip is_name repo update at s oid k e

-- However many updates are applied, and whichever of them land, every branch of the repository is
-- left at an object that is numbered as a commit, if every branch was before.
pub update_refs-IsTipped :
    (is_name : List ℕ → Bool) (repo : Repo) (updates : List (RefUpdate × ℕ))
    → IsTipped repo
    → IsTipped (update_refs is_name repo updates).0
unfolding update_refs
update_refs-IsTipped is_name repo [] s = s
update_refs-IsTipped is_name repo (update ∷ updates) s =
    update_refs-IsTipped is_name (apply is_name repo update.0 update.1).0 updates
      (apply-IsTipped is_name repo update.0 update.1 s)
