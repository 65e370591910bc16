-- ===== src/Metadata/Segments/Sweep.antt =====
-- What a sweep drops, and what keeps a pack image from it.
use mathlib.Core.Bool.{true≢false}
use enroute.Prelude.{
  ℕ, ◌≡◌, sym, ap, ◌∙◌, true, Option, none, some, Option-cases, Bool-cases, List, [], ◌∷◌, ◌==◌,
  ==_iff, arith, inl, inr, ◌+◌, ◌*◌, ◌^◌, ◌<◌, Bool, false, leb, refl, if◌then◌else◌, none≢some,
  some_eq,
}
use enroute.Prelude.Sets.{has, IsDistinct}
use enroute.Prelude.Dict.{get, nat_key, get-put_apart}
use enroute.Metadata.Rows.{Repo}
use enroute.Metadata.Segments.{
  retire_one, retire_each, retire_segments, cutoff, outlives, retain, drop_retired_segments,
}

-- The ids of pack images, and those a map holds are each there once.
unfoldable pub ids_of : List (ℕ × Option ℕ) → List ℕ
ids_of [] = []
ids_of (entry ∷ segments) = entry.0 ∷ ids_of segments

-- Whether an image is to outlive a sweep: it was never retired, or its grace of so many seconds, from
-- when it was retired on, is not over.
unfoldable pub in_grace : ℕ → ℕ → Option ℕ → Bool
in_grace grace_secs now none = true
in_grace grace_secs now (some at) = leb now (at + grace_secs * 1_000_000)

-- A window that saturates reaches back to the epoch, so that no time is out of it.
outlives_lem :
    (grace_secs now : ℕ) (stamp : Option ℕ)
    → now < 2 ^ 63
    → outlives (cutoff grace_secs now) stamp ≡ in_grace grace_secs now stamp
unfolding outlives in_grace cutoff
outlives_lem grace_secs now none h = refl
outlives_lem grace_secs now (some at) h = ground arith

get-retain_absent :
    (cut : ℕ) (segments : List (ℕ × Option ℕ)) (id : ℕ)
    → has (ids_of segments) id ≡ false
    → get (retain cut segments) id ≡ none
unfolding get retain ids_of has
get-retain_absent cut [] id h = refl
get-retain_absent cut (entry ∷ segments) id h = ground (arith, get-retain_absent cut segments id)

retain_front :
    (cut : ℕ) (entry : ℕ × Option ℕ) (segments : List (ℕ × Option ℕ)) (id : ℕ)
    → IsDistinct (ids_of (entry ∷ segments))
    → (entry.0 == id) ≡ true
    → get (retain cut (entry ∷ segments)) id ≡ (if outlives cut entry.1 then some entry.1 else none)
unfolding get retain ids_of IsDistinct
retain_front cut entry segments id d q = elim (Bool-cases (outlives cut entry.1)) [
  | inl o ↦ rw (o, q) refl
  | inr o ↦ rw o (
      get-retain_absent cut segments id
        (ap (λ k. has (ids_of segments) k) (sym ((==_iff entry.0 id).0 q)) ∙ d.0))
]

retain_behind :
    (cut : ℕ) (entry : ℕ × Option ℕ) (segments : List (ℕ × Option ℕ)) (id : ℕ)
    → (entry.0 == id) ≡ false
    → get (retain cut (entry ∷ segments)) id ≡ get (retain cut segments) id
unfolding get retain
retain_behind cut entry segments id q = elim (Bool-cases (outlives cut entry.1)) [
  | inl o ↦ rw (o, q) refl
  | inr o ↦ rw o refl
]

get_front :
    (entry : ℕ × Option ℕ) (segments : List (ℕ × Option ℕ)) (id : ℕ)
    → (entry.0 == id) ≡ true
    → get (entry ∷ segments) id ≡ some entry.1
unfolding get
get_front entry segments id q = rw q refl

get_behind :
    (entry : ℕ × Option ℕ) (segments : List (ℕ × Option ℕ)) (id : ℕ)
    → (entry.0 == id) ≡ false
    → get (entry ∷ segments) id ≡ get segments id
unfolding get
get_behind entry segments id q = rw q refl

-- A sweep keeps an image with a stamp or drops it, as the stamp has it.
get-retain :
    (cut : ℕ) (segments : List (ℕ × Option ℕ)) (id : ℕ) (stamp : Option ℕ)
    → IsDistinct (ids_of segments)
    → get segments id ≡ some stamp
    → get (retain cut segments) id ≡ (if outlives cut stamp then some stamp else none)
unfolding ids_of IsDistinct get
get-retain cut [] id stamp d g = absurd (none≢some refl g)
get-retain cut (entry ∷ segments) id stamp d g = elim (Bool-cases (entry.0 == id)) [
  | inl q ↦
      retain_front cut entry segments id d q
      ∙ ap (λ s. if outlives cut s then some s else none)
          (some_eq entry.1 stamp (sym (get_front entry segments id q) ∙ g))
  | inr q ↦
      retain_behind cut entry segments id q
      ∙ get-retain cut segments id stamp d.1 (sym (get_behind entry segments id q) ∙ g)
]

-- In a repository whose pack images are a map, and at a time that fits an `i64`, a sweep leaves an image
-- as it is when it was never retired or when no more than `grace_secs` seconds have passed since it was,
-- and drops it otherwise.
pub sweep_window :
    (repo : Repo) (grace_secs now id : ℕ) (stamp : Option ℕ)
    → IsDistinct (ids_of repo.segments)
    → now < 2 ^ 63
    → get repo.segments id ≡ some stamp
    → get (drop_retired_segments repo grace_secs now).0.segments id
      ≡ (if in_grace grace_secs now stamp then some stamp else none)
unfolding drop_retired_segments
sweep_window repo grace_secs now id stamp d h g =
    get-retain (cutoff grace_secs now) repo.segments id stamp d g
    ∙ ap (λ (b : Bool). if b then some stamp else none) (outlives_lem grace_secs now stamp h)

retire_one_keeps :
    (segments : List (ℕ × Option ℕ)) (one id at earlier : ℕ)
    → get segments id ≡ some (some earlier)
    → get (retire_one segments one at) id ≡ some (some earlier)
unfolding retire_one
retire_one_keeps segments one id at earlier g = elim (Option-cases (get segments one)) [
  | inl n ↦ rw (n, retire_one) g
  | inr (stamp, n) ↦ elim (Bool-cases (one == id)) [
    | inl e ↦
        rw (n, retire_one, e)
          (ap {B = Option (Option ℕ)} (λ o. elim o [ none ↦ none | some was ↦ some (stamped was) ])
            (sym n ∙ ap (λ k. get segments k) ((==_iff one id).0 e) ∙ g))
    | inr e ↦
        rw (n, retire_one)
          (get-put_apart segments one id (stamped stamp)
              (λ q. true≢false (sym ((==_iff one id).1 q) ∙ e))
            ∙ g)
  ]
]
  where
    stamped : Option ℕ → Option ℕ
    stamped was = elim was [ none ↦ some at | some before ↦ some before ]

retire_each_keeps :
    (ids : List ℕ) (segments : List (ℕ × Option ℕ)) (id at earlier : ℕ)
    → get segments id ≡ some (some earlier)
    → get (retire_each segments ids at) id ≡ some (some earlier)
unfolding retire_each
retire_each_keeps [] segments id at earlier g = g
retire_each_keeps (one ∷ ids) segments id at earlier g =
    retire_each_keeps ids (retire_one segments one at) id at earlier
      (retire_one_keeps segments one id at earlier g)

-- Retiring pack images again leaves the stamp of each that has one: the grace window of an image runs
-- from when it was first retired.
pub retire_keeps :
    (repo : Repo) (ids : List ℕ) (id at earlier : ℕ)
    → get repo.segments id ≡ some (some earlier)
    → get (retire_segments repo ids at).segments id ≡ some (some earlier)
unfolding retire_segments
retire_keeps repo ids id at earlier g = retire_each_keeps ids repo.segments id at earlier g
