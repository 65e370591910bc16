-- ===== src/Packfile/Delta/RoundTrip/CopyEmits.antt =====
-- A copy instruction emits the run of the base that it names.
use enroute.Prelude.{
  ℕ, ◌+◌, ◌*◌, ◌/◌, ◌%◌, ◌^◌, ◌≤◌, ◌<◌, ◌≡◌, ap, ◌∙◌, List, [], ◌∷◌, ◌++◌, append-nil, append_assoc,
  length, ok, guard, ok_or, arith, slice, length-slice, to_le_bytes, lt→ltb, le→leb,
}
use enroute.Prelude.Bits.{top_bit}
use enroute.Packfile.Delta.Apply.{Out, wrote, read_offset, read_size, copy_step, step, run}
use enroute.Packfile.Delta.Encode.{push_copy_instruction}
use enroute.Packfile.Delta.RoundTrip.Running.{Emits, run_step, write_all_fits}
use enroute.Packfile.Delta.RoundTrip.Instruction.{present}
use enroute.Packfile.Delta.RoundTrip.Copy.{
  flags₄, flags₃, payload₄, payload₃, select_offset, select_size, read_offset_lem, read_size_lem,
  flags_fit,
}

regroup₇ :
    (p q r s x y z rest : List ℕ)
    → (p ++ (q ++ (r ++ (s ++ [])))) ++ (x ++ (y ++ (z ++ []))) ++ rest
      ≡ p ++ (q ++ (r ++ (s ++ (x ++ (y ++ (z ++ rest))))))
regroup₇ p q r s x y z rest = simp (append_assoc, append-nil)

copy_step_lem :
    (base : List ℕ) (cmd ofs sz : ℕ) (rest rest₁ rest₂ : List ℕ) (out : Out)
    → read_offset cmd rest ≡ ok (ofs, rest₁)
    → read_size cmd rest₁ ≡ ok (sz, rest₂)
    → ofs < 2 ^ 32
    → sz < 2 ^ 32
    → ofs + sz ≤ length base
    → sz ≤ out.room
    → copy_step base cmd rest out ≡ ok (rest₂, wrote (slice base ofs (ofs + sz)) out)
unfolding copy_step guard ok_or
copy_step_lem base cmd ofs sz rest rest₁ rest₂ out p q ho hs inside fits =
    let fits' : length (slice base ofs (ofs + sz)) ≤ out.room =
      omega (arith, length-slice base ofs (ofs + sz)) in
    rw (
      p,
      q,
      lt→ltb (ofs + sz) (2 ^ 64) (omega arith),
      le→leb ofs (ofs + sz) (omega arith),
      le→leb _ _ inside,
      write_all_fits _ out fits',
    )

step_copy :
    (base : List ℕ) (n : ℕ) (rest : List ℕ) (out : Out)
    → n < 128
    → step base (128 + n) rest out ≡ copy_step base (128 + n) rest out
unfolding step
step_copy base n rest out h = ground (arith, top_bit (128 + n))

-- Running the instruction for a range of the base writes that range.
pub Emits-copy :
    (base : List ℕ) (offset size : ℕ)
    → offset < 2 ^ 32
    → 1 ≤ size
    → size < 2 ^ 24
    → offset + size ≤ length base
    → Emits base (push_copy_instruction [] offset size) (slice base offset (offset + size))
unfolding push_copy_instruction to_le_bytes
Emits-copy base offset size ho lo hi inside rest out fits =
    let a = offset % 256 in
    let b = offset / 256 % 256 in
    let c = offset / 256 / 256 % 256 in
    let d = offset / 256 / 256 / 256 % 256 in
    let x = size % 256 in
    let y = size / 256 % 256 in
    let z = size / 256 / 256 % 256 in
    let offset-bytes : a + b * 2 ^ 8 + c * 2 ^ 16 + d * 2 ^ 24 ≡ offset = omega arith in
    let size-bytes : x + y * 2 ^ 8 + z * 2 ^ 16 ≡ size = omega arith in
    let n = flags₄ a b c d + flags₃ x y z in
    let fit = flags_fit a b c d x y z in
    rw (select_offset a b c d, select_size (flags₄ a b c d) x y z (payload₄ a b c d []) fit.0)
      (ap (λ s. run base ((128 + n) ∷ s) out)
          (regroup₇ (present a) (present b) (present c) (present d) (present x) (present y)
            (present z) rest)
        ∙ run_step base (128 + n) (payload₄ a b c d (payload₃ x y z rest)) out rest
            (wrote (slice base offset (offset + size)) out)
            (step_copy base n _ out (omega arith)
              ∙ copy_step_lem base (128 + n) offset size _ (payload₃ x y z rest) rest out
                  (rw offset-bytes at (
                    read_offset_lem a b c d x y z (payload₃ x y z rest) (omega arith) (omega arith)
                      (omega arith) (omega arith)))
                  (rw size-bytes at (
                    read_size_lem (flags₄ a b c d) x y z rest fit.0 (omega arith) (omega arith)
                      (omega arith) (omega arith)))
                  ho (omega arith) inside
                  (omega (arith, length-slice base offset (offset + size)))))
