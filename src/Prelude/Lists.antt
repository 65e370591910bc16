-- ===== src/Prelude/Lists.antt =====
-- Lists measured and indexed by native numbers, under the library's names: a Rust slice is a list.
use Prim.Native.Nat.{ℕ, zero, suc, ◌+◌, ◌-◌, ◌*◌, ◌/◌, ◌%◌, ◌≤◌, ◌<◌, min, ◌^◌, ◌<◌}
use native.Mathlib.Nat.{pow-suc}
use Prim.Native.Nat.add
use mathlib.Core.Path.{◌≡◌, refl, sym, ap, ◌∙◌}
use mathlib.Core.Bool.{◌&&◌}
use mathlib.Core.List.{List, [], ◌∷◌, ◌++◌, reverse, reverse-append, reverse-reverse}
use mathlib.Core.Option.{Option, none, some}
use native.Mathlib.Omega.{arith}
use enroute.Prelude.Tests.{leb, if◌then◌else◌}

module _ {ℓ} {A : Type ℓ} where
  abbrev pub length : List A → ℕ
  length [] = 0
  length (x ∷ xs) = suc (length xs)

  abbrev pub get_elem? : List A → ℕ → Option A
  get_elem? [] i = none
  get_elem? (x ∷ xs) zero = some x
  get_elem? (x ∷ xs) (suc i) = get_elem? xs i

  -- A write out of bounds changes nothing.
  abbrev pub set : List A → ℕ → A → List A
  set [] i v = []
  set (x ∷ xs) zero v = v ∷ xs
  set (x ∷ xs) (suc i) v = x ∷ set xs i v

  abbrev pub take : ℕ → List A → List A
  take zero xs = []
  take (suc n) [] = []
  take (suc n) (x ∷ xs) = x ∷ take n xs

  abbrev pub drop : ℕ → List A → List A
  drop zero xs = xs
  drop (suc n) [] = []
  drop (suc n) (x ∷ xs) = drop n xs

  abbrev pub replicate : ℕ → A → List A
  replicate zero a = []
  replicate (suc n) a = a ∷ replicate n a

  abbrev pub All {κ} : (A → Type κ) → List A → Type κ
  All P [] = Unit {κ}
  All P (x ∷ xs) = P x × All P xs

module _ {ℓ} {A : Type ℓ} where
  pub length-append : (xs ys : List A) → length (xs ++ ys) ≡ length xs + length ys
  length-append [] ys = omega arith
  length-append (x ∷ xs) ys = omega (arith, length-append xs ys)

  pub take-append-drop : (n : ℕ) (xs : List A) → take n xs ++ drop n xs ≡ xs
  take-append-drop zero xs = refl
  take-append-drop (suc n) [] = refl
  take-append-drop (suc n) (x ∷ xs) = rw (take-append-drop n xs)

  pub length-take : (n : ℕ) (xs : List A) → length (take n xs) ≡ min n (length xs)
  length-take zero xs = omega arith
  length-take (suc n) [] = omega arith
  length-take (suc n) (x ∷ xs) = omega (arith, length-take n xs)

  pub length-drop : (n : ℕ) (xs : List A) → length (drop n xs) ≡ length xs - n
  length-drop zero xs = omega arith
  length-drop (suc n) [] = omega arith
  length-drop (suc n) (x ∷ xs) = omega (arith, length-drop n xs)

  pub length-replicate : (n : ℕ) (a : A) → length (replicate n a) ≡ n
  length-replicate zero a = refl
  length-replicate (suc n) a = ap suc (length-replicate n a)

  pub take-length-append : (xs ys : List A) → take (length xs) (xs ++ ys) ≡ xs
  take-length-append [] ys = refl
  take-length-append (x ∷ xs) ys = rw (take-length-append xs ys)

  pub drop-length-append : (xs ys : List A) → drop (length xs) (xs ++ ys) ≡ ys
  drop-length-append [] ys = refl
  drop-length-append (x ∷ xs) ys = drop-length-append xs ys

  pub take_all : (n : ℕ) (xs : List A) → length xs ≤ n → take n xs ≡ xs
  take_all zero [] h = refl
  take_all zero (x ∷ xs) h = absurd (omega arith)
  take_all (suc n) [] h = refl
  take_all (suc n) (x ∷ xs) h = rw (take_all n xs (omega arith))

  pub drop_all : (n : ℕ) (xs : List A) → length xs ≤ n → drop n xs ≡ []
  drop_all zero [] h = refl
  drop_all zero (x ∷ xs) h = absurd (omega arith)
  drop_all (suc n) [] h = refl
  drop_all (suc n) (x ∷ xs) h = drop_all n xs (omega arith)

-- `bytes.get(a..b)`, `bytes.get(a..)` and `bytes.get(..b)`: nothing out of bounds.
module _ {ℓ} {A : Type ℓ} where
  abbrev pub get_from : List A → ℕ → Option (List A)
  get_from xs a = if leb a (length xs) then some (drop a xs) else none

  abbrev pub get_upto : List A → ℕ → Option (List A)
  get_upto xs b = if leb b (length xs) then some (take b xs) else none

  abbrev pub slice : List A → ℕ → ℕ → List A
  slice xs a b = take (b - a) (drop a xs)

  abbrev pub get_range : List A → ℕ → ℕ → Option (List A)
  get_range xs a b = if leb a b && leb b (length xs) then some (slice xs a b) else none

module _ {ℓ} {A : Type ℓ} where
  abbrev nil : List A
  nil = []

  drop-nil : (n : ℕ) → drop n nil ≡ nil
  drop-nil zero = refl
  drop-nil (suc n) = refl

  take-nil : (n : ℕ) → take n nil ≡ nil
  take-nil zero = refl
  take-nil (suc n) = refl

  pub drop-drop : (a b : ℕ) (xs : List A) → drop a (drop b xs) ≡ drop (b + a) xs
  drop-drop a zero xs = ap (λ (n : ℕ). drop n xs) (omega arith)
  drop-drop a (suc b) [] = drop-nil a ∙ sym (drop-nil (suc b + a))
  drop-drop a (suc b) (x ∷ xs) = drop-drop a b xs ∙ ap (λ (n : ℕ). drop n (x ∷ xs)) (shift a b)
    where
      shift : (a b : ℕ) → suc (b + a) ≡ suc b + a
      shift a b = omega arith

-- `n.to_le_bytes()` of a word of that many bytes, and back.
unfoldable pub to_le_bytes : ℕ → ℕ → List ℕ
to_le_bytes zero n = []
to_le_bytes (suc w) n = (n % 256) ∷ to_le_bytes w (n / 256)

unfoldable pub from_le_bytes : List ℕ → ℕ
from_le_bytes [] = 0
from_le_bytes (b ∷ bs) = b + 256 * from_le_bytes bs

module _ {ℓ} {A : Type ℓ} where
  pub length-slice : (xs : List A) (a b : ℕ) → a ≤ b → b ≤ length xs → length (slice xs a b) ≡ b - a
  length-slice xs a b h k = omega (arith, length-take (b - a) (drop a xs), length-drop a xs)

  take-add : (m n : ℕ) (xs : List A) → take (m + n) xs ≡ take m xs ++ take n (drop m xs)
  take-add zero n xs = ap (λ (k : ℕ). take k xs) (omega arith)
  take-add (suc m) n [] = ap (λ (k : ℕ). take k nil) (add.suc m n) ∙ sym (take-nil n)
  take-add (suc m) n (x ∷ xs) =
      ap (λ (k : ℕ). take k (x ∷ xs)) (add.suc m n) ∙ ap (λ t. x ∷ t) (take-add m n xs)

  -- A slice is cut in two at any place inside.
  pub slice-append :
      (xs : List A) (a b c : ℕ) → a ≤ b → b ≤ c → slice xs a c ≡ slice xs a b ++ slice xs b c
  slice-append xs a b c h k =
      ap (λ (n : ℕ). take n (drop a xs)) (whole a b c h k)
      ∙ take-add (b - a) (c - b) (drop a xs)
      ∙ ap (λ s. slice xs a b ++ take (c - b) s)
          (drop-drop (b - a) a xs ∙ ap (λ (n : ℕ). drop n xs) (reach a b h))
    where
      whole : (a b c : ℕ) → a ≤ b → b ≤ c → c - a ≡ (b - a) + (c - b)
      whole a b c h k = omega arith

      reach : (a b : ℕ) → a ≤ b → a + (b - a) ≡ b
      reach a b h = omega arith

  -- What is left from `a` on is the slice up to `b` and what is left from there.
  pub slice-append-drop : (xs : List A) (a b : ℕ) → a ≤ b → drop a xs ≡ slice xs a b ++ drop b xs
  slice-append-drop xs a b h =
      sym (take-append-drop (b - a) (drop a xs))
      ∙ ap (λ s. slice xs a b ++ s)
          (drop-drop (b - a) a xs ∙ ap (λ (n : ℕ). drop n xs) (reach a b h))
    where
      reach : (a b : ℕ) → a ≤ b → a + (b - a) ≡ b
      reach a b h = omega arith

  pub drop-take : (a b : ℕ) (xs : List A) → drop a (take b xs) ≡ take (b - a) (drop a xs)
  drop-take zero b xs = ap (λ (n : ℕ). take n xs) (sub_zero b)
    where
      sub_zero : (b : ℕ) → b ≡ b - 0
      sub_zero b = omega arith
  drop-take (suc a) zero xs = ap (λ (n : ℕ). take n (drop (suc a) xs)) (zero_sub a)
    where
      zero_sub : (a : ℕ) → 0 ≡ 0 - suc a
      zero_sub a = omega arith
  drop-take (suc a) (suc b) [] = sym (take-nil (suc b - suc a))
  drop-take (suc a) (suc b) (x ∷ xs) =
      drop-take a b xs ∙ ap (λ (n : ℕ). take n (drop a xs)) (both a b)
    where
      both : (a b : ℕ) → b - a ≡ suc b - suc a
      both a b = omega arith

  pub length-reverse : (xs : List A) → length (reverse xs) ≡ length xs
  length-reverse [] = refl
  length-reverse (x ∷ xs) =
      ap length (reverse-append (x ∷ []) xs)
      ∙ length-append (reverse xs) (x ∷ [])
      ∙ plus_one (length (reverse xs)) (length xs) (length-reverse xs)
    where
      plus_one : (a b : ℕ) → a ≡ b → a + 1 ≡ suc b
      plus_one a b e = omega arith

  -- The front of the reverse is the reverse of the back.
  pub take-reverse :
      (k : ℕ) (xs : List A)
      → k ≤ length xs
      → take k (reverse xs) ≡ reverse (drop (length xs - k) xs)
  take-reverse k xs h =
      let front = take (length xs - k) xs in
      let back = drop (length xs - k) xs in
      let size : k ≡ length (reverse back) =
        omega (arith, length-reverse back, length-drop (length xs - k) xs) in
      ap (λ (l : List A). take k (reverse l)) (sym (take-append-drop (length xs - k) xs))
      ∙ ap (take k) (reverse-append front back)
      ∙ ap (λ (n : ℕ). take n (reverse back ++ reverse front)) size
      ∙ take-length-append (reverse back) (reverse front)

-- `n.to_be_bytes()` of a word of that many bytes, and back.
unfoldable pub to_be_bytes : ℕ → ℕ → List ℕ
unfolding to_le_bytes
to_be_bytes w n = reverse (to_le_bytes w n)

unfoldable pub from_be_bytes : List ℕ → ℕ
unfolding from_le_bytes
from_be_bytes bytes = from_le_bytes (reverse bytes)

pub from_le_bytes-to_le_bytes : (w n : ℕ) → n < 256 ^ w → from_le_bytes (to_le_bytes w n) ≡ n
unfolding to_le_bytes from_le_bytes
from_le_bytes-to_le_bytes zero n h = omega arith
from_le_bytes-to_le_bytes (suc w) n h =
    omega (arith, from_le_bytes-to_le_bytes w (n / 256), pow-suc 256 w)

pub length-to_le_bytes : (w n : ℕ) → length (to_le_bytes w n) ≡ w
unfolding to_le_bytes
length-to_le_bytes zero n = refl
length-to_le_bytes (suc w) n = ap suc (length-to_le_bytes w (n / 256))

pub from_be_bytes-to_be_bytes : (w n : ℕ) → n < 256 ^ w → from_be_bytes (to_be_bytes w n) ≡ n
unfolding from_be_bytes to_be_bytes
from_be_bytes-to_be_bytes w n h =
    ap from_le_bytes (reverse-reverse (to_le_bytes w n)) ∙ from_le_bytes-to_le_bytes w n h

module _ {ℓ} {A : Type ℓ} where
  abbrev pub get_or : List A → ℕ → A → A
  get_or [] i d = d
  get_or (x ∷ xs) zero d = x
  get_or (x ∷ xs) (suc i) d = get_or xs i d

module _ {ℓ κ} {A : Type ℓ} (P : A → Type κ) where
  pub All-++ : (xs ys : List A) → All P xs → All P ys → All P (xs ++ ys)
  All-++ [] ys h k = k
  All-++ (x ∷ xs) ys h k = (h.0, All-++ xs ys h.1 k)

  pub All-front : (xs ys : List A) → All P (xs ++ ys) → All P xs
  All-front [] ys h = tt
  All-front (x ∷ xs) ys h = (h.0, All-front xs ys h.1)

  pub All-back : (xs ys : List A) → All P (xs ++ ys) → All P ys
  All-back [] ys h = h
  All-back (x ∷ xs) ys h = All-back xs ys h.1

module _ {ℓ} {A : Type ℓ} where
  -- The front of known length, and what follows it.
  pub take_front : (n : ℕ) (front back : List A) → length front ≡ n → take n (front ++ back) ≡ front
  take_front n front back h =
      ap (λ (k : ℕ). take k (front ++ back)) (sym h) ∙ take-length-append front back

  pub drop_front : (n : ℕ) (front back : List A) → length front ≡ n → drop n (front ++ back) ≡ back
  drop_front n front back h =
      ap (λ (k : ℕ). drop k (front ++ back)) (sym h) ∙ drop-length-append front back

pub length-to_be_bytes : (w n : ℕ) → length (to_be_bytes w n) ≡ w
unfolding to_be_bytes
length-to_be_bytes w n = length-reverse (to_le_bytes w n) ∙ length-to_le_bytes w n
