-- ===== src/Metadata/Rows.antt =====
-- crates/git/metadata/src/memory.rs: what the store holds. An object id is the number that its bytes
-- spell, 0 for the null id; a refname and an external key are their bytes; an i64 that is never
-- negative is its number, in microseconds where it is a time.
use enroute.Prelude.{ℕ, ◌/◌, Bool, Option, none, some, List, [], false, ◌==◌}
use enroute.Prelude.Dict.{get, nat_key}
use enroute.Packfile.Format.{Kind, commit, tree, blob, tag}

abbrev pub null : ℕ
null = 0

-- `kind_to_u8`
unfoldable pub kind_to_u8 : Kind → ℕ
kind_to_u8 commit = 1
kind_to_u8 tree = 2
kind_to_u8 blob = 3
kind_to_u8 tag = 4

unfoldable pub is_commit : Kind → Bool
unfolding kind_to_u8
is_commit kind = kind_to_u8 kind == 1

pub record Identity : Type 0 where
  pub seq : ℕ
  pub kind : Kind

pub record Ref : Type 0 where
  pub oid : ℕ
  pub updated : ℕ

pub record Repo : Type 0 where
  pub storage_key : Option ℕ
  pub key : Option (List ℕ)
  pub default_branch : List ℕ
  pub deleted_at : Option ℕ
  pub counters : List (ℕ × ℕ)
  pub identities : List (ℕ × Identity)
  pub by_seq : List ((ℕ × ℕ) × ℕ)
  pub branches : List (List ℕ × Ref)
  pub others : List (List ℕ × Ref)
  pub segments : List (ℕ × Option ℕ)
  pub gathering : Bool

-- `Repo::default`
abbrev pub default : Repo
default = record {
  storage_key = none;
  key = none;
  default_branch = [];
  deleted_at = none;
  counters = [];
  identities = [];
  by_seq = [];
  branches = [];
  others = [];
  segments = [];
  gathering = false;
}

-- `secs`
unfoldable pub secs : ℕ → ℕ
secs micros = micros / 1_000_000

-- `Repo::numbers_commit`
unfoldable pub numbers_commit : Repo → ℕ → Bool
unfolding get is_commit
numbers_commit repo oid = elim (get repo.identities oid) [
  | none ↦ false
  | some held ↦ is_commit held.kind
]
