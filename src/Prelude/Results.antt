-- ===== src/Prelude/Results.antt =====
-- Rust's `Result`, with the `?` operator as `>>=`.
use mathlib.Core.Path.{◌≡◌, refl}
use mathlib.Core.Bool.{Bool, true, false}
use mathlib.Core.Option.{Option, none, some}
use enroute.Prelude.Tests.{if◌then◌else◌}

pub data Result (E A : Type 0) : Type 0 where
  ok : A → Result E A
  err : E → Result E A

infixl 5 ◌>>=◌ ◌>>◌
abbrev pub ◌>>=◌ : {E A B : Type 0} → Result E A → (A → Result E B) → Result E B
◌>>=◌ (err reason) next = err reason
◌>>=◌ (ok found) next = next found

abbrev pub ◌>>◌ : {E B : Type 0} → Result E (Unit {0}) → Result E B → Result E B
◌>>◌ first second = first >>= λ _. second

-- An early `return Err(e)` unless the test holds.
unfoldable pub guard : {E : Type 0} → Bool → E → Result E (Unit {0})
guard true e = ok tt
guard false e = err e

-- `ok_or`
unfoldable pub ok_or : {E A : Type 0} → Option A → E → Result E A
ok_or none e = err e
ok_or (some a) e = ok a

-- What a call promises: `P` of a value, `Q` of an error.
pub data Ensures {E A : Type 0} (P : A → Type 0) (Q : E → Type 0) : Result E A → Type 0 where
  value : {a : A} → P a → Ensures P Q (ok a)
  fault : {e : E} → Q e → Ensures P Q (err e)

module _ {E A : Type 0} {P : A → Type 0} {Q : E → Type 0} where
  pub Ensures-ok : {a : A} → Ensures P Q (ok a) → P a
  Ensures-ok (value h) = h

  pub Ensures-err : {e : E} → Ensures P Q (err e) → Q e
  Ensures-err (fault h) = h

  pub Ensures_of_eq : {r : Result E A} {a : A} → Ensures P Q r → r ≡ ok a → P a
  Ensures_of_eq h e = Ensures-ok (rw e at h)

  pub Ensures-if :
      (b : Bool) (x y : Result E A)
      → (b ≡ true → Ensures P Q x)
      → (b ≡ false → Ensures P Q y)
      → Ensures P Q (if b then x else y)
  Ensures-if true x y h k = h refl
  Ensures-if false x y h k = k refl

module _ {E A B : Type 0} {P : A → Type 0} {R : B → Type 0} {Q : E → Type 0} where
  pub Ensures-bind :
      {m : Result E A} {f : A → Result E B}
      → Ensures P Q m
      → ((a : A) → P a → Ensures R Q (f a))
      → Ensures R Q (m >>= f)
  Ensures-bind (value h) k = k _ h
  Ensures-bind (fault h) k = fault h

pub Ensures-guard :
    {E : Type 0} {Q : E → Type 0} (b : Bool) (e : E) → Q e → Ensures (λ _. b ≡ true) Q (guard b e)
unfolding guard
Ensures-guard true e h = value refl
Ensures-guard false e h = fault h

pub Ensures-ok_or :
    {E A : Type 0} {Q : E → Type 0} (o : Option A) (e : E)
    → Q e
    → Ensures (λ a. o ≡ some a) Q (ok_or o e)
unfolding ok_or
Ensures-ok_or none e h = fault h
Ensures-ok_or (some a) e h = value refl
