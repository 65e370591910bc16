-- ===== src/Prelude/Dict.antt =====
-- Maps as association lists, with keys compared by an instance.
use Prim.Native.Nat.{ℕ}
use mathlib.Core.Path.{◌≡◌, refl}
use mathlib.Core.Logic.{◌↔◌, ◌≢◌, inl, inr}
use mathlib.Core.Bool.{Bool, true, false, ◌&&◌}
use mathlib.Core.Option.{Option, none, some}
use mathlib.Core.List.{List, [], ◌∷◌}
use native.Mathlib.Omega.{arith}
use enroute.Prelude.Tests.{◌==◌, ==_iff, if◌then◌else◌, Bool-cases}
use enroute.Prelude.Bytes.{bytes_eq, bytes_eq_refl, bytes_eq→eq}

pub record Key (K : Type 0) : Type 0 where
  pub same : K → K → Bool
  pub same_iff : (a b : K) → (same a b ≡ true) ↔ (a ≡ b)

instance abbrev pub nat_key : Key ℕ
nat_key = record { same = λ a b. a == b; same_iff = ==_iff }

pub bytes_iff : (a b : List ℕ) → (bytes_eq a b ≡ true) ↔ (a ≡ b)
bytes_iff a b = (bytes_eq→eq a b, λ e. rw e (bytes_eq_refl b))

instance abbrev pub bytes_key : Key (List ℕ)
bytes_key = record { same = bytes_eq; same_iff = bytes_iff }

pub pair_iff : (a b : ℕ × ℕ) → (a.0 == b.0 && a.1 == b.1 ≡ true) ↔ (a ≡ b)
pair_iff a b = ground arith

instance abbrev pub pair_key : Key (ℕ × ℕ)
pair_key = record { same = λ a b. a.0 == b.0 && a.1 == b.1; same_iff = pair_iff }

module _ {K : Type 0} ⦃key : Key K⦄ where
  same_refl : (k : K) → key.same k k ≡ true
  same_refl k = (key.same_iff k k).1 refl

  apart : (j k : K) → j ≢ k → key.same j k ≡ false
  apart j k ne = elim (Bool-cases (key.same j k)) [
    | inl e ↦ absurd (ne ((key.same_iff j k).0 e))
    | inr e ↦ e
  ]

module _ {ℓ} {K : Type 0} {V : Type ℓ} ⦃key : Key K⦄ where
  unfoldable pub get : List (K × V) → K → Option V
  get [] k = none
  get (entry ∷ d) k = if key.same entry.0 k then some entry.1 else get d k

  unfoldable pub remove : List (K × V) → K → List (K × V)
  remove [] k = []
  remove (entry ∷ d) k = let rest = remove d k in if key.same entry.0 k then rest else entry ∷ rest

  unfoldable pub put : List (K × V) → K → V → List (K × V)
  unfolding remove
  put d k v = (k, v) ∷ remove d k

  pub get-remove_same : (d : List (K × V)) (k : K) → get (remove d k) k ≡ none
  unfolding get remove
  get-remove_same [] k = refl
  get-remove_same (entry ∷ d) k = elim (Bool-cases (key.same entry.0 k)) [
    | inl e ↦ rw e (get-remove_same d k)
    | inr e ↦ rw (e, e) (get-remove_same d k)
  ]

  pub get-put_same : (d : List (K × V)) (k : K) (v : V) → get (put d k v) k ≡ some v
  unfolding get put
  get-put_same d k v = rw (same_refl k) refl

  pub get-remove_apart : (d : List (K × V)) (j k : K) → j ≢ k → get (remove d j) k ≡ get d k
  unfolding get remove
  get-remove_apart [] j k ne = refl
  get-remove_apart (entry ∷ d) j k ne = elim (Bool-cases (key.same entry.0 j)) [
    | inl e ↦ rw (e, (key.same_iff entry.0 j).0 e, apart j k ne) (get-remove_apart d j k ne)
    | inr e ↦ elim (Bool-cases (key.same entry.0 k)) [
      | inl f ↦ rw (e, f) refl
      | inr f ↦ rw (e, f) (get-remove_apart d j k ne)
    ]
  ]

  pub get-put_apart : (d : List (K × V)) (j k : K) (v : V) → j ≢ k → get (put d j v) k ≡ get d k
  unfolding get put
  get-put_apart d j k v ne = rw (apart j k ne) (get-remove_apart d j k ne)
