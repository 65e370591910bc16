-- ===== src/Metadata/Objects/Numbers.antt =====
-- Counters hand out ranges that neither overlap nor leave gaps.
use enroute.Prelude.{
  ℕ, ◌+◌, ◌-◌, ◌^◌, ◌<◌, min, ◌≡◌, ◌≢◌, refl, sym, ◌∙◌, Option, some, Option-cases, List, lt→ltb,
  ne→==, ok, arith, inl, inr,
}
use enroute.Prelude.Dict.{get, put, nat_key, get-put_same, get-put_apart}
use enroute.Packfile.Format.{Kind, commit, tree, blob, tag}
use enroute.Metadata.Rows.{Repo, kind_to_u8}
use enroute.Metadata.Objects.{or_insert, with_counters, allocate}

-- What is allocated next.
unfoldable pub counter : Repo → Kind → Option ℕ
unfolding get
counter repo kind = get repo.counters (kind_to_u8 kind)

kind_to_u8_apart : (a b : Kind) → a ≢ b → kind_to_u8 a ≢ kind_to_u8 b
unfolding kind_to_u8
kind_to_u8_apart a b ne = ground arith

-- An allocation answers where the counter stood and moves it past the range, at the most to the last
-- i64; the counters of the other kinds stay.
pub allocate_moves :
    (repo to : Repo) (kind other : Kind) (count first : ℕ)
    → allocate repo kind count ≡ ok (to, first)
    → other ≢ kind
    → (counter repo kind ≡ some first)
      × (counter to kind ≡ some (min (first + count) (2 ^ 63 - 1)))
      × (counter to other ≡ counter repo other)
unfolding allocate counter
allocate_moves repo to kind other count first e ne = ground (
  arith,
  get-put_same repo.counters (kind_to_u8 kind) (min (first + count) (2 ^ 63 - 1)),
  get-put_apart repo.counters (kind_to_u8 kind) (kind_to_u8 other)
      (min (first + count) (2 ^ 63 - 1)) (kind_to_u8_apart kind other (λ q. ne (sym q))),
)

or_insert_has :
    (counters : List (ℕ × ℕ)) (k : ℕ) → (n : ℕ) × (get (or_insert counters k) k ≡ some n)
unfolding or_insert
or_insert_has counters k = elim (Option-cases (get counters k)) [
  | inl e ↦ (0, rw (e, or_insert) (get-put_same counters k 0))
  | inr (n, e) ↦ (n, rw (e, or_insert) e)
]

or_insert_keeps :
    (counters : List (ℕ × ℕ)) (j k : ℕ)
    → (n : ℕ) × (get counters j ≡ some n)
    → j ≢ k
    → (n : ℕ) × (get (or_insert counters k) j ≡ some n)
unfolding or_insert
or_insert_keeps counters j k (n, e) ne = elim (Option-cases (get counters k)) [
  | inl f ↦ (n, rw (f, or_insert) (get-put_apart counters k j 0 (λ q. ne (sym q)) ∙ e))
  | inr (m, f) ↦ (n, rw (f, or_insert) e)
]

counter_made : (repo : Repo) (kind : Kind) → (n : ℕ) × (counter (with_counters repo) kind ≡ some n)
unfolding counter with_counters
counter_made repo kind = by kind
  where
    one : List (ℕ × ℕ)
    one = or_insert repo.counters 1

    two : List (ℕ × ℕ)
    two = or_insert one 2

    three : List (ℕ × ℕ)
    three = or_insert two 3

    by : (kind : Kind) → (n : ℕ) × (get (or_insert three 4) (kind_to_u8 kind) ≡ some n)
    by commit =
        or_insert_keeps three 1 4
          (or_insert_keeps two 1 3
            (or_insert_keeps one 1 2 (or_insert_has repo.counters 1) (omega arith)) (omega arith))
          (omega arith)
    by tree =
        or_insert_keeps three 2 4 (or_insert_keeps two 2 3 (or_insert_has one 2) (omega arith))
          (omega arith)
    by blob = or_insert_keeps three 3 4 (or_insert_has two 3) (omega arith)
    by tag = or_insert_has three 4

allocate-some :
    (repo : Repo) (kind : Kind) (count n : ℕ)
    → count ≢ 0
    → count < 2 ^ 63
    → counter repo kind ≡ some n
    → (to : Repo) × (first : ℕ) × (allocate repo kind count ≡ ok (to, first))
unfolding counter allocate
allocate-some repo kind count n ne small e = (
  record repo { counters = put repo.counters (kind_to_u8 kind) (min (n + count) (2 ^ 63 - 1)) },
  n,
  rw (ne→== count 0 ne, lt→ltb count (2 ^ 63) small, e, allocate) refl,
)

-- With its counters made, a repository allocates every count from 1 to 2 ^ 63 - 1.
pub allocate_total :
    (repo : Repo) (kind : Kind) (count : ℕ)
    → count ≢ 0
    → count < 2 ^ 63
    → (to : Repo) × (first : ℕ) × (allocate (with_counters repo) kind count ≡ ok (to, first))
allocate_total repo kind count ne small = of (counter_made repo kind)
  where
    of :
        (n : ℕ) × (counter (with_counters repo) kind ≡ some n)
        → (to : Repo) × (first : ℕ) × (allocate (with_counters repo) kind count ≡ ok (to, first))
    of (n, e) = allocate-some (with_counters repo) kind count n ne small e
