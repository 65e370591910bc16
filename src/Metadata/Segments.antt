-- ===== src/Metadata/Segments.antt =====
-- crates/git/metadata/src/memory.rs: the pack images of a repository, and its maintenance lock. The
-- time that `now` answers is an argument.
pub mod Sweep
use enroute.Prelude.{
  ℕ, ◌+◌, ◌-◌, ◌*◌, ◌^◌, min, Bool, true, false, not, Option, none, some, List, [], ◌∷◌, length,
  ltb, if◌then◌else◌,
}
use enroute.Prelude.Dict.{get, put, Key, nat_key}
use enroute.Metadata.Rows.{Repo}

-- `entry(id).or_default()` of each
unfoldable pub register_each : List (ℕ × Option ℕ) → List ℕ → List (ℕ × Option ℕ)
unfolding get put
register_each segments [] = segments
register_each segments (id ∷ ids) =
    register_each (elim (get segments id) [ none ↦ put segments id none | some held ↦ segments ])
      ids

unfoldable pub register_segments : Repo → List ℕ → Repo
unfolding register_each
register_segments repo ids = record repo { segments = register_each repo.segments ids }

-- One step of `retire_segments`: a stamp that is there stays.
unfoldable pub retire_one : List (ℕ × Option ℕ) → ℕ → ℕ → List (ℕ × Option ℕ)
unfolding get put
retire_one segments id at = elim (get segments id) [
  | none ↦ segments
  | some retired ↦ put segments id (elim retired [ none ↦ some at | some earlier ↦ some earlier ])
]

unfoldable pub retire_each : List (ℕ × Option ℕ) → List ℕ → ℕ → List (ℕ × Option ℕ)
unfolding retire_one
retire_each segments [] at = segments
retire_each segments (id ∷ ids) at = retire_each (retire_one segments id at) ids at

unfoldable pub retire_segments : Repo → List ℕ → ℕ → Repo
unfolding retire_each
retire_segments repo ids at = record repo { segments = retire_each repo.segments ids at }

-- `cutoff`, from what `now` answers; before the first second of the epoch it is 0, which no stamp is
-- below.
unfoldable pub cutoff : ℕ → ℕ → ℕ
cutoff grace_secs now = now - min ((min grace_secs (2 ^ 63 - 1)) * 1_000_000) (2 ^ 63 - 1)

-- Whether a sweep keeps a segment with that stamp.
unfoldable pub outlives : ℕ → Option ℕ → Bool
outlives cut none = true
outlives cut (some at) = not (ltb at cut)

unfoldable pub retain : ℕ → List (ℕ × Option ℕ) → List (ℕ × Option ℕ)
unfolding outlives
retain cut [] = []
retain cut (entry ∷ segments) =
    let rest = retain cut segments in if outlives cut entry.1 then entry ∷ rest else rest

-- What is left, and how many were dropped.
unfoldable pub drop_retired_segments : Repo → ℕ → ℕ → Repo × ℕ
unfolding cutoff retain
drop_retired_segments repo grace_secs now =
    let kept = retain (cutoff grace_secs now) repo.segments in
    (record repo { segments = kept }, length repo.segments - length kept)

unfoldable pub hold_maintenance : Repo → Repo × Bool
hold_maintenance repo = (record repo { gathering = true }, not repo.gathering)

unfoldable pub release_maintenance : Repo → Repo
release_maintenance repo = record repo { gathering = false }
