-- ===== src/Packfile/Delta/RoundTrip/Push.antt =====
-- Literals of any length and copies of any length: split into instructions, they emit the whole.
use enroute.Prelude.{
  ℕ, zero, suc, ◌+◌, ◌-◌, ◌^◌, ◌≤◌, ◌<◌, min, ◌≡◌, refl, sym, ap, Bool-cases, ltb→lt, ◌∙◌, List, [],
  ◌∷◌, ◌++◌, append-nil, append_assoc, length, length-take, length-drop, take-append-drop, Result,
  ok, guard, arith, ltb, lt→ltb, le→ltb, take, drop, slice, slice-append, inl, inr,
}
use mathlib.Core.Path.{subst₂}
use enroute.Packfile.Errors.{Error}
use enroute.Packfile.Delta.{max_copy, max_insert}
use enroute.Packfile.Delta.Encode.{
  chunks, push_chunks, push_literal, push_copy_instruction, push_copy_loop, push_copy,
}
use enroute.Packfile.Delta.RoundTrip.Running.{Emits, Emits-nil, Emits-append}
use enroute.Packfile.Delta.RoundTrip.Instruction.{Emits-insert}
use enroute.Packfile.Delta.RoundTrip.Copy.{push_copy_instruction_lem}
use enroute.Packfile.Delta.RoundTrip.CopyEmits.{Emits-copy}

-- The call succeeds, and appends instructions that emit `bytes`.
abbrev pub Pushed : List ℕ → List ℕ → List ℕ → Result Error (List ℕ) → Type 0
Pushed base out bytes r = (is : List ℕ) × (r ≡ ok (out ++ is)) × Emits base is bytes

pub Pushed-nil : (base out : List ℕ) → Pushed base out [] (ok out)
Pushed-nil base out = ([], ap ok (sym (append-nil out)), Emits-nil base)

-- What is pushed after other instructions.
pub Pushed-behind :
    (base out is xs ys : List ℕ) (r : Result Error (List ℕ))
    → Emits base is xs
    → Pushed base (out ++ is) ys r
    → Pushed base out (xs ++ ys) r
Pushed-behind base out is xs ys r p (js, e, q) =
    (is ++ js, e ∙ ap ok (append_assoc out is js), Emits-append base is js xs ys p q)

pub Pushed-eq :
    (base out : List ℕ) {xs ys : List ℕ} {r r' : Result Error (List ℕ)}
    → xs ≡ ys
    → r ≡ r'
    → Pushed base out xs r
    → Pushed base out ys r'
Pushed-eq base out p q h = subst₂ (Pushed base out) p q h

chunk_size :
    (b : ℕ) (bs : List ℕ)
    → (1 ≤ length (take max_insert (b ∷ bs))) × (length (take max_insert (b ∷ bs)) < 128)
chunk_size b bs = omega (arith, length-take max_insert (b ∷ bs))

push_chunk :
    (out chunk : List ℕ) (rest : List (List ℕ))
    → length chunk < 128
    → push_chunks (out ++ (length chunk ∷ chunk)) rest ≡ push_chunks out (chunk ∷ rest)
unfolding push_chunks guard
push_chunk out chunk rest h = rw (lt→ltb (length chunk) 256 (omega arith))

push_chunks_emits :
    (fuel : ℕ) (base out literal : List ℕ)
    → length literal ≤ fuel
    → Pushed base out literal (push_chunks out (chunks fuel max_insert literal))
unfolding chunks
push_chunks_emits fuel base out [] h = unfold push_chunks in Pushed-nil base out
push_chunks_emits zero base out (b ∷ bs) h = absurd (omega arith)
push_chunks_emits (suc fuel) base out (b ∷ bs) h =
    let chunk : List ℕ = take max_insert (b ∷ bs) in
    let rest : List ℕ = drop max_insert (b ∷ bs) in
    let (lo, hi) = chunk_size b bs in
    Pushed-eq base out (take-append-drop max_insert (b ∷ bs))
      (push_chunk out chunk (chunks fuel max_insert rest) hi)
      (Pushed-behind base out (length chunk ∷ chunk) chunk rest _ (Emits-insert base chunk lo hi)
        (push_chunks_emits fuel base _ rest (omega (arith, length-drop max_insert (b ∷ bs)))))

pub push_literal_emits :
    (base out literal : List ℕ) → Pushed base out literal (push_literal out literal)
unfolding push_literal
push_literal_emits base out literal =
    push_chunks_emits (length literal) base out literal (omega arith)

push_copy_round :
    (fuel : ℕ) (out : List ℕ) (base_offset len done : ℕ)
    → done < len
    → base_offset + len < 2 ^ 32
    → push_copy_loop fuel
        (push_copy_instruction out (base_offset + done) (min (len - done) max_copy))
        base_offset
        len
        (done + min (len - done) max_copy)
      ≡ push_copy_loop (suc fuel) out base_offset len done
unfolding push_copy_loop guard
push_copy_round fuel out base_offset len done h small = rw (
  lt→ltb done len h,
  lt→ltb (base_offset + done) (2 ^ 32) (omega arith),
  lt→ltb (min (len - done) max_copy) (2 ^ 32) (omega arith),
)

push_copy_over :
    (fuel : ℕ) (out : List ℕ) (base_offset len done : ℕ)
    → len ≤ done
    → ok out ≡ push_copy_loop fuel out base_offset len done
unfolding push_copy_loop
push_copy_over zero out base_offset len done h = rw (le→ltb done len h)
push_copy_over (suc fuel) out base_offset len done h = rw (le→ltb done len h)

slice_empty : (xs : List ℕ) (a b : ℕ) → b ≤ a → [] ≡ slice xs a b
slice_empty xs a b h = let e : b - a ≡ 0 = omega arith in rw e

push_copy_emits_over :
    (fuel : ℕ) (base out : List ℕ) (base_offset len done : ℕ)
    → len ≤ done
    → Pushed base out
        (slice base (base_offset + done) (base_offset + len))
        (push_copy_loop fuel out base_offset len done)
push_copy_emits_over fuel base out base_offset len done h =
    Pushed-eq base out (slice_empty base (base_offset + done) (base_offset + len) (omega arith))
      (push_copy_over fuel out base_offset len done h) (Pushed-nil base out)

push_copy_emits_loop :
    (fuel : ℕ) (base out : List ℕ) (base_offset len done : ℕ)
    → len ≤ fuel + done
    → base_offset + len ≤ length base
    → length base < 2 ^ 32
    → Pushed base out
        (slice base (base_offset + done) (base_offset + len))
        (push_copy_loop fuel out base_offset len done)
push_copy_emits_loop zero base out base_offset len done hf inside small =
    push_copy_emits_over zero base out base_offset len done (omega arith)
push_copy_emits_loop (suc fuel) base out base_offset len done hf inside small =
    elim (Bool-cases (ltb done len)) [
      | inl more ↦
          let go : done < len = ltb→lt done len more in
          let taken : ℕ = min (len - done) max_copy in
          let is : List ℕ = push_copy_instruction [] (base_offset + done) taken in
          let e : base_offset + done + taken ≡ base_offset + (done + taken) = omega arith in
          Pushed-eq base out
            (sym (
              slice-append base (base_offset + done) (base_offset + (done + taken))
                (base_offset + len) (omega arith) (omega arith)))
            (push_copy_round fuel out base_offset len done go (omega arith))
            (rw push_copy_instruction_lem (
              Pushed-behind base out is _ _ _
                (rw (← e) (
                  Emits-copy base (base_offset + done) taken (omega arith) (omega arith)
                    (omega arith) (omega arith)))
                (push_copy_emits_loop fuel base _ base_offset len (done + taken) (omega arith)
                  inside small)))
      | inr over ↦ push_copy_emits_over (suc fuel) base out base_offset len done (ground arith)
    ]

pub push_copy_emits :
    (base out : List ℕ) (base_offset len : ℕ)
    → base_offset + len ≤ length base
    → length base < 2 ^ 32
    → Pushed base out (slice base base_offset (base_offset + len)) (push_copy out base_offset len)
unfolding push_copy
push_copy_emits base out base_offset len inside small =
    let e : base_offset + 0 ≡ base_offset = omega arith in
    Pushed-eq base out (ap (λ (a : ℕ). slice base a (base_offset + len)) e) refl
      (push_copy_emits_loop len base out base_offset len 0 (omega arith) inside small)
