-- ===== src/Metadata/Objects/Recorded.antt =====
-- An object is numbered once.
use mathlib.Core.Bool.{true≢false}
use enroute.Prelude.{
  ℕ, ◌≡◌, ◌≢◌, refl, sym, ap, ◌∙◌, Bool, true, false, Option, none, some, Option-cases, List, [],
  ◌∷◌, ◌++◌, ◌==◌, ==_iff, Bool-cases, All, if◌then◌else◌, arith, inl, inr,
}
use enroute.Prelude.Dict.{get, nat_key, pair_key, get-put_same, get-put_apart}
use enroute.Metadata.Rows.{Repo, Identity}
use enroute.Metadata.Objects.{raced, any_held, record_each, record_all, collect_by, identify}

-- A batch that lost the race leaves nothing behind.
pub record_raced :
    (repo : Repo) (named : List (ℕ × Identity))
    → (record_all repo named).1 ≡ raced
    → (record_all repo named).0 ≡ repo
unfolding record_all
record_raced repo named e = ground arith

none_of :
    (named : List (ℕ × Identity)) (identities : List (ℕ × Identity)) (oid : ℕ) (held : Identity)
    → any_held identities named ≡ false
    → get identities oid ≡ some held
    → All (λ (one : ℕ × Identity). one.0 ≢ oid) named
unfolding any_held
none_of [] identities oid held e g = tt
none_of (one ∷ named) identities oid held e g = elim (Option-cases (get identities one.0)) [
  | inl n ↦ (
    λ q. some_not_none (sym g ∙ ap (λ k. get identities k) (sym q) ∙ n),
    none_of named identities oid held (sym (rw (n, any_held) refl) ∙ e) g,
  )
  | inr (h, n) ↦ absurd (true≢false (sym (rw (n, any_held) refl) ∙ e))
]
  where
    some_not_none : some held ≢ none
    some_not_none q = true≢false (ap {B = Bool} (λ o. elim o [ none ↦ false | some x ↦ true ]) q)

record_each_apart :
    (named : List (ℕ × Identity)) (repo : Repo) (oid : ℕ)
    → All (λ (one : ℕ × Identity). one.0 ≢ oid) named
    → get (record_each repo named).identities oid ≡ get repo.identities oid
unfolding record_each
record_each_apart [] repo oid h = refl
record_each_apart (one ∷ named) repo oid h =
    record_each_apart named _ oid h.1 ∙ get-put_apart repo.identities one.0 oid one.1 h.0

-- What an object is numbered as stays, whatever is recorded after.
pub record_keeps :
    (repo : Repo) (named : List (ℕ × Identity)) (oid : ℕ) (held : Identity)
    → get repo.identities oid ≡ some held
    → get (record_all repo named).0.identities oid ≡ some held
unfolding record_all
record_keeps repo named oid held g = elim (Bool-cases (any_held repo.identities named)) [
  | inl e ↦ rw e g
  | inr e ↦ rw e (record_each_apart named repo oid (none_of named repo.identities oid held e g) ∙ g)
]

record_each_finds :
    (front back : List (ℕ × Identity)) (repo : Repo) (oid : ℕ) (identity : Identity)
    → All (λ (one : ℕ × Identity). one.0 ≢ oid) back
    → get (record_each repo (front ++ ((oid, identity) ∷ back))).identities oid ≡ some identity
unfolding record_each
record_each_finds [] back repo oid identity h =
    record_each_apart back _ oid h ∙ get-put_same repo.identities oid identity
record_each_finds (one ∷ front) back repo oid identity h =
    record_each_finds front back _ oid identity h

unfoldable pub has : List ℕ → ℕ → Bool
has [] k = false
has (j ∷ ks) k = if j == k then true else has ks k

if_none {ℓ} : {V : Type ℓ} (b : Bool) (o : Option V) → o ≡ none → (if b then o else none) ≡ none
if_none true o e = e
if_none false o e = refl

collect_by-has {ℓ} :
    {V : Type ℓ}
    → (held : ℕ → Option V) (ks : List ℕ) (k : ℕ)
    → get (collect_by held ks) k ≡ (if has ks k then held k else none)
unfolding collect_by has get
collect_by-has held [] k = refl
collect_by-has held (j ∷ ks) k = elim (Option-cases (held j)) [
  | inl n ↦ elim (Bool-cases (j == k)) [
    | inl e ↦ rw (n, e, collect_by) (collect_by-has held ks k ∙ gone n ((==_iff j k).0 e))
    | inr e ↦ rw (n, e, collect_by) (collect_by-has held ks k)
  ]
  | inr (v, n) ↦ elim (Bool-cases (j == k)) [
    | inl e ↦ rw (n, e, collect_by) (sym n ∙ ap held ((==_iff j k).0 e))
    | inr e ↦
        rw (n, collect_by)
          (get-put_apart (collect_by held ks) j k v (differs e) ∙ rw e (collect_by-has held ks k))
  ]
]
  where
    differs : (j == k) ≡ false → j ≢ k
    differs e q = true≢false (sym ((==_iff j k).1 q) ∙ e)

    gone : held j ≡ none → j ≡ k → (if has ks k then held k else none) ≡ held k
    gone n q = if_none (has ks k) (held k) (ap held (sym q) ∙ n) ∙ sym (ap held (sym q) ∙ n)

-- `identify` answers what each object it is asked about is numbered as, and nothing of any other.
pub identify_answers :
    (repo : Repo) (oids : List ℕ) (oid : ℕ)
    → get (identify repo oids) oid ≡ (if has oids oid then get repo.identities oid else none)
unfolding identify
identify_answers repo oids oid = collect_by-has (λ k. get repo.identities k) oids oid

-- A batch of objects that were not numbered is recorded, and each is then numbered as the batch says
-- last of it.
pub record_finds :
    (repo : Repo) (front back : List (ℕ × Identity)) (oid : ℕ) (identity : Identity)
    → any_held repo.identities (front ++ ((oid, identity) ∷ back)) ≡ false
    → All (λ (one : ℕ × Identity). one.0 ≢ oid) back
    → get (identify (record_all repo (front ++ ((oid, identity) ∷ back))).0 (oid ∷ [])) oid
      ≡ some identity
unfolding record_all has
record_finds repo front back oid identity e h =
    identify_answers (record_all repo (front ++ ((oid, identity) ∷ back))).0 (oid ∷ []) oid
    ∙ rw ((==_iff oid oid).1 refl, e) (record_each_finds front back repo oid identity h)
