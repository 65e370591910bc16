-- ===== src/Metadata/Objects.antt =====
-- crates/git/metadata/src/memory.rs: the numbers of objects, counted per kind.
pub mod Numbers
pub mod Recorded
use enroute.Prelude.{
  ℕ, ◌+◌, ◌-◌, ◌^◌, min, Bool, true, false, ◌||◌, Option, none, some, List, [], ◌∷◌, ltb, ◌==◌,
  if◌then◌else◌, Result, ok, err,
}
use enroute.Prelude.Dict.{get, put, Key, nat_key, pair_key}
use enroute.Packfile.Format.{Kind, commit, tree, blob, tag}
use enroute.Metadata.Rows.{Repo, Identity, kind_to_u8}

-- `entry(kind).or_insert(0)`
unfoldable pub or_insert : List (ℕ × ℕ) → ℕ → List (ℕ × ℕ)
unfolding get put
or_insert counters kind = elim (get counters kind) [
  | some next ↦ counters
  | none ↦ put counters kind 0
]

-- `counters`
unfoldable pub with_counters : Repo → Repo
unfolding or_insert kind_to_u8
with_counters repo = record repo {
  counters = or_insert (or_insert (or_insert (or_insert repo.counters 1) 2) 3) 4;
}

pub data Unallocated : Type 0 where
  nothing_asked past_a_bigint no_counter : Unallocated

unfoldable pub allocate : Repo → Kind → ℕ → Result Unallocated (Repo × ℕ)
unfolding get put kind_to_u8
allocate repo kind count =
    if count == 0
    then err nothing_asked
    else if ltb count (2 ^ 63)
    then elim (get repo.counters (kind_to_u8 kind)) [
      | none ↦ err no_counter
      | some next ↦ ok (
        record repo {
          counters = put repo.counters (kind_to_u8 kind) (min (next + count) (2 ^ 63 - 1));
        },
        next,
      )
    ]
    else err past_a_bigint

pub data Recording : Type 0 where
  recorded raced : Recording

unfoldable pub any_held : List (ℕ × Identity) → List (ℕ × Identity) → Bool
unfolding get
any_held identities [] = false
any_held identities (one ∷ named) = elim (get identities one.0) [
  | none ↦ any_held identities named
  | some held ↦ true
]

-- The loop that names each object, both ways.
unfoldable pub record_each : Repo → List (ℕ × Identity) → Repo
unfolding put kind_to_u8
record_each repo [] = repo
record_each repo (one ∷ named) =
    record_each
      (record repo {
        identities = put repo.identities one.0 one.1;
        by_seq = put repo.by_seq (kind_to_u8 one.1.kind, one.1.seq) one.0;
      })
      named

-- `record`
unfoldable pub record_all : Repo → List (ℕ × Identity) → Repo × Recording
unfolding any_held record_each
record_all repo named =
    if any_held repo.identities named then (repo, raced) else (record_each repo named, recorded)

-- `filter_map` into a map, by what is held of each.
unfoldable pub collect_by {ℓ} : {V : Type ℓ} → (ℕ → Option V) → List ℕ → List (ℕ × V)
unfolding put
collect_by held [] = []
collect_by held (k ∷ ks) = elim (held k) [
  | none ↦ collect_by held ks
  | some v ↦ put (collect_by held ks) k v
]

unfoldable pub identify : Repo → List ℕ → List (ℕ × Identity)
unfolding get collect_by
identify repo oids = collect_by (λ oid. get repo.identities oid) oids

unfoldable pub oids_of : Repo → Kind → List ℕ → List (ℕ × ℕ)
unfolding get collect_by kind_to_u8
oids_of repo kind seqs = collect_by (λ seq. get repo.by_seq (kind_to_u8 kind, seq)) seqs
