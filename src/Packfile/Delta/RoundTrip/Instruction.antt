-- ===== src/Packfile/Delta/RoundTrip/Instruction.antt =====
-- One insert instruction, and one copy instruction, as the encoder writes them.
use enroute.Prelude.{
  ℕ, zero, suc, ◌+◌, ◌*◌, ◌/◌, ◌%◌, ◌^◌, ◌≤◌, ◌<◌, ◌≡◌, refl, bit_and, bit_or, List, [], ◌∷◌, ◌++◌,
  length, length-append, ok, ok_or, arith, ltb, ◌==◌, take-length-append, drop-length-append,
  ==_iff, true, if◌then◌else◌,
}
use native.Mathlib.Nat.{one-le-pow}
use enroute.Prelude.Bits.{bit_or-above, top_bit, all_below, all_below_sound}
use enroute.Packfile.Delta.Apply.{Out, wrote, read_byte, insert_step, step}
use enroute.Packfile.Delta.RoundTrip.Running.{Emits, run_step, write_all_fits}

insert_step_lem :
    (base chunk rest : List ℕ) (out : Out)
    → 1 ≤ length chunk
    → length chunk < 128
    → length chunk ≤ out.room
    → step base (length chunk) (chunk ++ rest) out ≡ ok (rest, wrote chunk out)
unfolding step insert_step ok_or
insert_step_lem base chunk rest out lo hi fits = ground (
  arith,
  top_bit (length chunk),
  length-append chunk rest,
  take-length-append chunk rest,
  drop-length-append chunk rest,
  write_all_fits chunk out,
)

pub Emits-insert :
    (base chunk : List ℕ)
    → 1 ≤ length chunk
    → length chunk < 128
    → Emits base (length chunk ∷ chunk) chunk
Emits-insert base chunk lo hi rest out fits =
    run_step base (length chunk) (chunk ++ rest) out rest (wrote chunk out)
      (insert_step_lem base chunk rest out lo hi fits)

-- The bit of the command that says whether a byte is there, and the byte's place in the payload.
abbrev pub flag : ℕ → ℕ
flag b = if b == 0 then 0 else 1

abbrev pub present : ℕ → List ℕ
present b = if b == 0 then [] else b ∷ []

set_table :
    all_below 7 (λ i.
      all_below 64
        (λ lo. if ltb lo (2 ^ i) then bit_or (128 + lo) (2 ^ i) == 128 + lo + 2 ^ i else true))
    ≡ true
unfolding all_below
set_table = refl

test_table :
    all_below 7 (λ i. all_below 128 (λ n. bit_and (128 + n) (2 ^ i) == n / 2 ^ i % 2 * 2 ^ i))
    ≡ true
unfolding all_below
test_table = refl

pub set_flag :
    (i lo : ℕ) → i < 7 → lo < 2 ^ i → lo < 64 → bit_or (128 + lo) (2 ^ i) ≡ 128 + lo + 2 ^ i
set_flag i lo hi h h' = ground (
  arith,
  all_below_sound 7 _ i set_table hi,
  all_below_sound 64
      (λ lo. if ltb lo (2 ^ i) then bit_or (128 + lo) (2 ^ i) == 128 + lo + 2 ^ i else true) lo,
)

pub test_flag : (i n : ℕ) → i < 7 → n < 128 → bit_and (128 + n) (2 ^ i) ≡ n / 2 ^ i % 2 * 2 ^ i
test_flag i n hi h = (==_iff _ _).0 (
    all_below_sound 128 (λ n. bit_and (128 + n) (2 ^ i) == n / 2 ^ i % 2 * 2 ^ i) n
      (all_below_sound 7
        (λ i. all_below 128 (λ n. bit_and (128 + n) (2 ^ i) == n / 2 ^ i % 2 * 2 ^ i)) i test_table
        hi)
      h)

-- One byte of the payload read back, by the mask `2 ^ i`.
pub read_present :
    (n i shift dst b : ℕ) (rest : List ℕ)
    → i < 7
    → n < 128
    → n / 2 ^ i % 2 ≡ flag b
    → b < 256
    → shift ≤ 24
    → dst < 2 ^ shift
    → b * 2 ^ shift < 2 ^ 32
    → read_byte (128 + n) (2 ^ i) shift dst (present b ++ rest) ≡ ok (dst + b * 2 ^ shift, rest)
unfolding read_byte
read_present n i shift dst zero [] hi hn hf hb hs hd hm = ground (arith, test_flag i n)
read_present n i shift dst zero (r ∷ rs) hi hn hf hb hs hd hm = ground (arith, test_flag i n)
read_present n i shift dst (suc b) rest hi hn hf hb hs hd hm =
    ground (arith, test_flag i n, bit_or-above shift dst (suc b), one-le-pow i 2)
