-- ===== src/Packfile/Delta/RoundTrip/Copy.antt =====
-- A copy instruction as the encoder writes it, read back by the decoder.
use enroute.Prelude.{
  ℕ, zero, suc, ◌+◌, ◌*◌, ◌^◌, ◌≤◌, ◌<◌, ◌≡◌, refl, ap, ◌∙◌, List, [], ◌∷◌, ◌++◌, append-nil,
  append_assoc, ok, arith, ◌==◌, if◌then◌else◌,
}
use enroute.Packfile.Delta.Apply.{read_offset, read_size}
use enroute.Packfile.Delta.Encode.{select, push_copy_instruction}
use enroute.Packfile.Delta.RoundTrip.Instruction.{flag, present, set_flag, read_present}

select_step :
    (i lo b : ℕ) (bs payload : List ℕ)
    → i < 7
    → lo < 2 ^ i
    → lo < 64
    → select i (b ∷ bs) (128 + lo, payload)
      ≡ select (i + 1) bs (128 + (lo + flag b * 2 ^ i), payload ++ present b)
unfolding select
select_step i lo zero bs payload hi h h' =
    ap (select (i + 1) bs) (ground (arith, append-nil payload))
select_step i lo (suc b) bs payload hi h h' = ap (select (i + 1) bs) (ground (arith, set_flag i lo))

-- The flags of four and of three bytes, and their places in the payload.
abbrev pub flags₄ : ℕ → ℕ → ℕ → ℕ → ℕ
flags₄ a b c d = flag a + flag b * 2 + flag c * 4 + flag d * 8

abbrev pub flags₃ : ℕ → ℕ → ℕ → ℕ
flags₃ x y z = flag x * 16 + flag y * 32 + flag z * 64

abbrev pub payload₄ : ℕ → ℕ → ℕ → ℕ → List ℕ → List ℕ
payload₄ a b c d rest = present a ++ (present b ++ (present c ++ (present d ++ rest)))

abbrev pub payload₃ : ℕ → ℕ → ℕ → List ℕ → List ℕ
payload₃ x y z rest = present x ++ (present y ++ (present z ++ rest))

select-nil :
    (i cmd cmd' : ℕ) (xs ys : List ℕ) → cmd ≡ cmd' → xs ≡ ys → select i [] (cmd, xs) ≡ (cmd', ys)
unfolding select
select-nil i cmd cmd' xs ys p q = cc

regroup₄ : (p q r s : List ℕ) → p ++ q ++ r ++ s ≡ p ++ (q ++ (r ++ (s ++ [])))
regroup₄ p q r s = simp (append_assoc, append-nil)

regroup₃ : (o p q r : List ℕ) → o ++ p ++ q ++ r ≡ o ++ (p ++ (q ++ (r ++ [])))
regroup₃ o p q r = simp (append_assoc, append-nil)

pub select_offset :
    (a b c d : ℕ)
    → select 0 (a ∷ b ∷ c ∷ d ∷ []) (128, []) ≡ (128 + flags₄ a b c d, payload₄ a b c d [])
select_offset a b c d =
    select_step 0 0 a _ _ (omega arith) (omega arith) (omega arith)
    ∙ select_step 1 _ b _ _ (omega arith) (ground arith) (ground arith)
    ∙ select_step 2 _ c _ _ (omega arith) (ground arith) (ground arith)
    ∙ select_step 3 _ d _ _ (omega arith) (ground arith) (ground arith)
    ∙ select-nil _ _ _ _ _ (omega arith) (regroup₄ (present a) (present b) (present c) (present d))

pub select_size :
    (lo x y z : ℕ) (payload : List ℕ)
    → lo < 16
    → select 4 (x ∷ y ∷ z ∷ []) (128 + lo, payload)
      ≡ (128 + (lo + flags₃ x y z), payload ++ payload₃ x y z [])
select_size lo x y z payload h =
    select_step 4 lo x _ _ (omega arith) h (omega arith)
    ∙ select_step 5 _ y _ _ (omega arith) (ground arith) (ground arith)
    ∙ select_step 6 _ z _ _ (omega arith) (ground arith) (ground arith)
    ∙ select-nil _ _ _ _ _ (omega arith) (regroup₃ payload (present x) (present y) (present z))

flag-le : (b : ℕ) → flag b ≤ 1
flag-le b = ground arith

-- The four bytes of an offset, behind a command with their flags.
pub read_offset_lem :
    (a b c d x y z : ℕ) (rest : List ℕ)
    → a < 256
    → b < 256
    → c < 256
    → d < 256
    → read_offset (128 + (flags₄ a b c d + flags₃ x y z)) (payload₄ a b c d rest)
      ≡ ok (a + b * 2 ^ 8 + c * 2 ^ 16 + d * 2 ^ 24, rest)
unfolding read_offset
read_offset_lem a b c d x y z rest ha hb hc hd =
    let n : ℕ = flags₄ a b c d + flags₃ x y z in
    let fx = flag-le x in
    let fy = flag-le y in
    let fz = flag-le z in
    let fa = flag-le a in
    let fb = flag-le b in
    let fc = flag-le c in
    let fd = flag-le d in
    rw
      (
        read_present n 0 0 0 a (present b ++ (present c ++ (present d ++ rest))) (omega arith)
            (omega arith) (omega arith) ha (omega arith) (omega arith) (omega arith),
        read_present n 1 8 (0 + a * 2 ^ 0) b (present c ++ (present d ++ rest)) (omega arith)
            (omega arith) (omega arith) hb (omega arith) (omega arith) (omega arith),
        read_present n 2 16 (0 + a * 2 ^ 0 + b * 2 ^ 8) c (present d ++ rest) (omega arith)
            (omega arith) (omega arith) hc (omega arith) (omega arith) (omega arith),
        read_present n 3 24 (0 + a * 2 ^ 0 + b * 2 ^ 8 + c * 2 ^ 16) d rest (omega arith)
            (omega arith) (omega arith) hd (omega arith) (omega arith) (omega arith),
      )
      (ap (λ (v : ℕ). ok (v, rest)) (omega arith))

-- The three bytes of a size that is not 0.
pub read_size_lem :
    (lo x y z : ℕ) (rest : List ℕ)
    → lo < 16
    → x < 256
    → y < 256
    → z < 256
    → 0 < x + y * 2 ^ 8 + z * 2 ^ 16
    → read_size (128 + (lo + flags₃ x y z)) (payload₃ x y z rest)
      ≡ ok (x + y * 2 ^ 8 + z * 2 ^ 16, rest)
unfolding read_size
read_size_lem lo x y z rest hl hx hy hz pos =
    let n : ℕ = lo + flags₃ x y z in
    let fx = flag-le x in
    let fy = flag-le y in
    let fz = flag-le z in
    let e : 0 + x * 2 ^ 0 + y * 2 ^ 8 + z * 2 ^ 16 ≡ x + y * 2 ^ 8 + z * 2 ^ 16 = omega arith in
    rw
      (
        read_present n 4 0 0 x (present y ++ (present z ++ rest)) (omega arith) (omega arith)
            (omega arith) hx (omega arith) (omega arith) (omega arith),
        read_present n 5 8 (0 + x * 2 ^ 0) y (present z ++ rest) (omega arith) (omega arith)
            (omega arith) hy (omega arith) (omega arith) (omega arith),
        read_present n 6 16 (0 + x * 2 ^ 0 + y * 2 ^ 8) z rest (omega arith) (omega arith)
            (omega arith) hz (omega arith) (omega arith) (omega arith),
      )
      (ap (λ (v : ℕ). ok (v, rest)) (non_zero _ _ pos e))
  where
    non_zero : (v w : ℕ) → 0 < w → v ≡ w → (if v == 0 then 0x10000 else v) ≡ w
    non_zero v w p q = ground arith

-- The instruction for an offset below 2 ^ 32 and a size from 1 to 2 ^ 24 - 1, in full.
pub push_copy_instruction_lem :
    (out : List ℕ) (offset size : ℕ)
    → push_copy_instruction out offset size ≡ out ++ push_copy_instruction [] offset size
unfolding push_copy_instruction
push_copy_instruction_lem out offset size = refl

pub flags_fit : (a b c d x y z : ℕ) → (flags₄ a b c d < 16) × (flags₃ x y z ≤ 112)
flags_fit a b c d x y z =
    omega (arith, flag-le a, flag-le b, flag-le c, flag-le d, flag-le x, flag-le y, flag-le z)
