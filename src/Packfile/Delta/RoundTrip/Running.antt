-- ===== src/Packfile/Delta/RoundTrip/Running.antt =====
-- An instruction stream emits bytes if running it writes them, whatever follows the stream.
use enroute.Prelude.{
  ℕ, ◌≤◌, ◌≡◌, refl, ap, ◌∙◌, List, [], ◌∷◌, ◌++◌, append-nil, append_assoc, length, length-append,
  ok, Ensures_of_eq, arith, le→leb,
}
use enroute.Packfile.Delta.Apply.{Out, wrote, write_all, step, apply_loop, run}
use enroute.Packfile.Delta.Apply.Total.{step-Round, apply_loop_fuel}

pub run_step :
    (base : List ℕ) (cmd : ℕ) (rest : List ℕ) (out : Out) (rest' : List ℕ) (out' : Out)
    → step base cmd rest out ≡ ok (rest', out')
    → run base (cmd ∷ rest) out ≡ run base rest' out'
unfolding run apply_loop
run_step base cmd rest out rest' out' e = rw e (
    apply_loop_fuel (length rest) (length rest') base rest' out'
      (Ensures_of_eq (step-Round base cmd rest out _ refl) e).0 (omega arith))

abbrev pub Emits : List ℕ → List ℕ → List ℕ → Type 0
Emits base instructions bytes =
    (rest : List ℕ) (out : Out)
    → length bytes ≤ out.room
    → run base (instructions ++ rest) out ≡ run base rest (wrote bytes out)

wrote-wrote : (xs ys : List ℕ) (out : Out) → wrote ys (wrote xs out) ≡ wrote (xs ++ ys) out
wrote-wrote xs ys out = ground (arith, append_assoc out.written xs ys, length-append xs ys)

pub Emits-nil : (base : List ℕ) → Emits base [] []
Emits-nil base rest out h = ap (run base rest) (ground (arith, append-nil out.written))

pub Emits-append :
    (base is js xs ys : List ℕ)
    → Emits base is xs
    → Emits base js ys
    → Emits base (is ++ js) (xs ++ ys)
Emits-append base is js xs ys p q rest out h =
    ap (λ s. run base s out) (append_assoc is js rest)
    ∙ p (js ++ rest) out (omega (arith, length-append xs ys))
    ∙ q rest (wrote xs out) (omega (arith, length-append xs ys))
    ∙ ap (run base rest) (wrote-wrote xs ys out)

pub write_all_fits :
    (src : List ℕ) (out : Out) → length src ≤ out.room → write_all src out ≡ ok (wrote src out)
unfolding write_all
write_all_fits src out h = rw (le→leb _ _ h)
