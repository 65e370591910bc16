-- ===== src/Prelude/Bits.antt =====
-- `|` and `&` on words as arithmetic. The native operations recur on binary digits with fuel; one
-- equation for the lowest digit drops it, and the laws for fields and masks follow from that.
use Prim.Native.Nat.{digits, bitwise, bit_and-bitwise, bit_or-bitwise}
use native.Mathlib.Nat.{pow-suc}
use enroute.Prelude.Tests.{◌==◌, ==_iff, Bool-cases}
use Prim.Native.Nat.{
  ℕ, zero, suc, ◌+◌, ◌-◌, ◌*◌, ◌/◌, ◌%◌, ◌^◌, ◌≤◌, ◌<◌, min, max, bit_and, bit_or,
}
use mathlib.Core.Path.{◌≡◌, refl, sym, ap, ◌∙◌}
use mathlib.Core.Logic.{inl, inr}
use mathlib.Core.Bool.{Bool, true, ◌&&◌}
use native.Mathlib.Omega.{arith}

suc_sum : (fuel spare : ℕ) → suc fuel + spare ≡ suc (fuel + spare)
suc_sum fuel spare = omega arith

-- Fuel past the first argument is not used.
module _ (last : ℕ → ℕ) (digit : ℕ → ℕ → ℕ) where
  no_digits : (fuel y : ℕ) → digits last digit fuel 0 y ≡ last y
  no_digits zero y = refl
  no_digits (suc fuel) y = refl

  spare_fuel :
      (fuel spare x y : ℕ)
      → x ≤ fuel
      → digits last digit (fuel + spare) x y ≡ digits last digit fuel x y
  spare_fuel fuel spare zero y h = no_digits (fuel + spare) y ∙ sym (no_digits fuel y)
  spare_fuel zero spare (suc x) y h = absurd (omega arith)
  spare_fuel (suc fuel) spare (suc x) y h =
      ap (λ (n : ℕ). digits last digit n (suc x) y) (suc_sum fuel spare)
      ∙ ap (λ (high : ℕ). high * 2 + digit (suc x % 2) (y % 2))
          (spare_fuel fuel spare (suc x / 2) (y / 2) (omega arith))

  -- The lowest digit, and those above it.
  lowest_digit :
      (x y : ℕ)
      → bitwise last digit (suc x) y
        ≡ digit (suc x % 2) (y % 2) + 2 * bitwise last digit (suc x / 2) (y / 2)
  lowest_digit x y =
      whole (spare_fuel (suc x / 2) (x - suc x / 2) (suc x / 2) (y / 2) (omega arith))
    where
      sum : suc x / 2 + (x - suc x / 2) ≡ x
      sum = omega arith

      whole :
          digits last digit (suc x / 2 + (x - suc x / 2)) (suc x / 2) (y / 2)
            ≡ digits last digit (suc x / 2) (suc x / 2) (y / 2)
          → bitwise last digit (suc x) y
            ≡ digit (suc x % 2) (y % 2) + 2 * bitwise last digit (suc x / 2) (y / 2)
      whole e =
          ap (λ (high : ℕ). high * 2 + digit (suc x % 2) (y % 2))
            (ap (λ (n : ℕ). digits last digit n (suc x / 2) (y / 2)) (sym sum) ∙ e)
          ∙ omega arith

bit_or_step : (x y : ℕ) → bit_or x y ≡ max (x % 2) (y % 2) + 2 * bit_or (x / 2) (y / 2)
bit_or_step zero y = simp bit_or-bitwise (omega arith)
bit_or_step (suc x) y = simp bit_or-bitwise (lowest_digit (λ n. n) max x y)

bit_and_step : (x y : ℕ) → bit_and x y ≡ min (x % 2) (y % 2) + 2 * bit_and (x / 2) (y / 2)
bit_and_step zero y = simp bit_and-bitwise (omega arith)
bit_and_step (suc x) y = simp bit_and-bitwise (lowest_digit (λ n. 0) min x y)

nothing_masked : (bits a : ℕ) → a ≤ bits → 0 ≡ bit_and a 0
nothing_masked bits zero small = refl
nothing_masked (suc bits) (suc a) small =
    omega (arith, nothing_masked bits (suc a / 2) (omega arith), bit_and_step (suc a) 0)
nothing_masked zero (suc a) small = absurd (omega arith)

mask_one : (a : ℕ) → bit_and a 1 ≡ a % 2
mask_one a = omega (arith, nothing_masked a (a / 2) (omega arith), bit_and_step a 1)

-- The low bits that the wire formats mask out.
pub low_three : (a : ℕ) → bit_and a 7 ≡ a % 8
low_three a = omega (arith, mask_one (a / 2 / 2), bit_and_step (a / 2) 3, bit_and_step a 7)

pub low_four : (a : ℕ) → bit_and a 0x0f ≡ a % 16
low_four a = omega (arith, bit_and_step a 15, low_three (a / 2))

mask_31 : (a : ℕ) → bit_and a 0x1f ≡ a % 32
mask_31 a = omega (arith, bit_and_step a 0x1f, low_four (a / 2))

mask_63 : (a : ℕ) → bit_and a 0x3f ≡ a % 64
mask_63 a = omega (arith, bit_and_step a 0x3f, mask_31 (a / 2))

pub low_seven : (a : ℕ) → bit_and a 0x7f ≡ a % 128
low_seven a = omega (arith, bit_and_step a 0x7f, mask_63 (a / 2))

zero-bit_or : (b : ℕ) → bit_or 0 b ≡ b
zero-bit_or b = simp bit_or-bitwise refl

-- `|` stays within a width.
pub bit_or-lt : (k a b : ℕ) → a < 2 ^ k → b < 2 ^ k → bit_or a b < 2 ^ k
bit_or-lt zero zero b p q = rw zero-bit_or q
bit_or-lt zero (suc a) b p q = absurd (omega arith)
bit_or-lt (suc k) a b p q =
    ground (arith, bit_or_step a b, pow-suc 2 k, bit_or-lt k (a / 2) (b / 2))

pow_double : (s g : ℕ) → g * 2 ^ suc s ≡ 2 * (g * 2 ^ s)
pow_double s g = omega (arith, ap (λ (t : ℕ). g * t) (pow-suc 2 s))

-- `v | g << s` is a sum while `v` fits the `s` bits below.
pub bit_or-above : (s v g : ℕ) → v < 2 ^ s → bit_or v (g * 2 ^ s) ≡ v + g * 2 ^ s
bit_or-above zero zero g h = rw zero-bit_or (omega arith)
bit_or-above zero (suc v) g h = absurd (omega arith)
bit_or-above (suc s) v g h =
    ground
      (arith, bit_or_step v (g * 2 ^ suc s), pow_double s g, pow-suc 2 s, bit_or-above s (v / 2) g)

-- Over a small range a law is a table, checked by evaluation.
unfoldable pub all_below : ℕ → (ℕ → Bool) → Bool
all_below (suc count) holds = all_below count holds && holds count
all_below zero holds = true

pub all_below_sound :
    (count : ℕ) (holds : ℕ → Bool) (x : ℕ)
    → all_below count holds ≡ true
    → x < count
    → holds x ≡ true
unfolding all_below
all_below_sound zero holds x table small = absurd (omega arith)
all_below_sound (suc count) holds x table small = elim (Bool-cases (x == count)) [
  | inl last ↦ rw ((==_iff x count).0 last) (ground (arith, table))
  | inr below ↦ all_below_sound count holds x (ground (arith, table)) (ground arith)
]

agree :
    (f g : ℕ → ℕ) (count : ℕ)
    → all_below count (λ n. f n == g n) ≡ true
    → (x : ℕ) → x < count
    → f x ≡ g x
agree f g count table x small =
    (==_iff (f x) (g x)).0 (all_below_sound count (λ n. f n == g n) x table small)

-- The top bit of one byte.
pub top_bit : (b : ℕ) → b < 256 → bit_and b 0x80 ≡ b / 128 * 128
unfolding all_below
top_bit = agree (λ b. bit_and b 0x80) (λ b. b / 128 * 128) 256 refl

pub set_top_bit : (b : ℕ) → b < 128 → bit_or b 0x80 ≡ b + 128
unfolding all_below
set_top_bit = agree (λ b. bit_or b 0x80) (λ b. b + 128) 128 refl
