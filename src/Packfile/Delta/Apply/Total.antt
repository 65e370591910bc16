-- ===== src/Packfile/Delta/Apply/Total.antt =====
-- The loop of `apply_delta` ends on every input.
use enroute.Prelude.{
  true, length-append, leb→le, inl, inr, ℕ, zero, suc, ◌+◌, ◌≤◌, ◌≡◌, ◌≢◌, refl, bit_and, List, [],
  ◌∷◌, leb, ◌==◌, length, drop, length-drop, Result, ◌>>=◌, arith, Ensures, value, fault,
  Ensures-if, Ensures-bind, Ensures-guard, Ensures-ok_or,
}
use enroute.Packfile.Errors.{Error, Reason, invalid, out_of_fuel}
use enroute.Packfile.Format.{max_object_bytes}
use enroute.Packfile.Varint.{read_varint}
use enroute.Packfile.Varint.Rejects.{read_loop_cases}
use enroute.Packfile.Delta.Apply.{
  Out, wrote, write_all, read_byte, read_offset, read_size, copy_step, insert_step, step,
  apply_loop, run, apply_delta,
}

abbrev pub IsFault : Error → Type 0
IsFault e = e ≢ out_of_fuel

not_fuel : (r : Reason) → IsFault (invalid r)
not_fuel r h = cc

-- A reading step leaves no more than `n` bytes, and does not run out of fuel.
abbrev Leaves : {A : Type 0} → ℕ → A × List ℕ → Type 0
Leaves n r = length r.1 ≤ n

read_byte-Leaves :
    (cmd mask shift dst n : ℕ) (rest : List ℕ)
    → length rest ≤ n
    → Ensures (Leaves n) IsFault (read_byte cmd mask shift dst rest)
unfolding read_byte
read_byte-Leaves cmd mask shift dst n [] h =
    Ensures-if (bit_and cmd mask == 0) _ _ (λ _. value h) (λ _. fault (not_fuel _))
read_byte-Leaves cmd mask shift dst n (b ∷ rest) h =
    let shorter : length rest ≤ n = omega arith in
    Ensures-if (bit_and cmd mask == 0) _ _ (λ _. value h) (λ _. value shorter)

read_offset-Leaves :
    (cmd n : ℕ) (rest : List ℕ)
    → length rest ≤ n
    → Ensures (Leaves n) IsFault (read_offset cmd rest)
unfolding read_offset
read_offset-Leaves cmd n rest h = Ensures-bind (read_byte-Leaves cmd 0x01 0 0 n rest h) λ r h.
    Ensures-bind (read_byte-Leaves cmd 0x02 8 r.0 n r.1 h) λ r h.
      Ensures-bind (read_byte-Leaves cmd 0x04 16 r.0 n r.1 h)
        λ r h. read_byte-Leaves cmd 0x08 24 r.0 n r.1 h

read_size-Leaves :
    (cmd n : ℕ) (rest : List ℕ) → length rest ≤ n → Ensures (Leaves n) IsFault (read_size cmd rest)
unfolding read_size
read_size-Leaves cmd n rest h = Ensures-bind (read_byte-Leaves cmd 0x10 0 0 n rest h) λ r h.
    Ensures-bind (read_byte-Leaves cmd 0x20 8 r.0 n r.1 h)
      λ r h. Ensures-bind (read_byte-Leaves cmd 0x40 16 r.0 n r.1 h) λ r h. value h

-- After a round: the rest of the delta is no longer, and the result has its length still.
abbrev pub Round : ℕ → ℕ → List ℕ × Out → Type 0
Round n size r = (length r.0 ≤ n) × (length r.1.written + r.1.room ≡ size)

abbrev pub HasSize : ℕ → Out → Type 0
HasSize size out = length out.written + out.room ≡ size

write_all_size :
    (src : List ℕ) (out : Out) (size : ℕ)
    → HasSize size out
    → Ensures (HasSize size) IsFault (write_all src out)
unfolding write_all
write_all_size src out size h =
    Ensures-if (leb (length src) out.room) _ _ (λ fits. value (enough fits))
      (λ _. fault (not_fuel _))
  where
    enough : leb (length src) out.room ≡ true → HasSize size (wrote src out)
    enough fits = rw length-append (ground arith)

copy_step-Round :
    (base : List ℕ) (cmd : ℕ) (rest : List ℕ) (out : Out) (size : ℕ)
    → HasSize size out
    → Ensures (Round (length rest) size) IsFault (copy_step base cmd rest out)
unfolding copy_step
copy_step-Round base cmd rest out size h =
    Ensures-bind (read_offset-Leaves cmd (length rest) rest (omega arith)) λ r h₁.
      Ensures-bind (read_size-Leaves cmd (length rest) r.1 h₁) λ s h₂.
        Ensures-bind (Ensures-guard _ _ (not_fuel _)) λ _ _.
          Ensures-bind (Ensures-ok_or _ _ (not_fuel _))
            λ src _. Ensures-bind (write_all_size src out size h) λ out' h₃. value (h₂, h₃)

insert_step-Round :
    (count : ℕ) (rest : List ℕ) (out : Out) (size : ℕ)
    → HasSize size out
    → Ensures (Round (length rest) size) IsFault (insert_step count rest out)
unfolding insert_step
insert_step-Round count rest out size h =
    Ensures-bind (Ensures-ok_or _ _ (not_fuel _))
      λ src _. Ensures-bind (write_all_size src out size h) λ out' h₁. value (shorter, h₁)
  where
    shorter : length (drop count rest) ≤ length rest
    shorter = rw length-drop (omega arith)

pub step-Round :
    (base : List ℕ) (cmd : ℕ) (rest : List ℕ) (out : Out) (size : ℕ)
    → HasSize size out
    → Ensures (Round (length rest) size) IsFault (step base cmd rest out)
unfolding step
step-Round base cmd rest out size h =
    Ensures-if (bit_and cmd 0x80 == 0) _ _
      (λ _.
        Ensures-if (cmd == 0) _ _ (λ _. fault (not_fuel _))
          (λ _. insert_step-Round cmd rest out size h))
      (λ _. copy_step-Round base cmd rest out size h)

apply_loop_total :
    (fuel : ℕ) (base delta : List ℕ) (out : Out) (size : ℕ)
    → length delta ≤ fuel
    → HasSize size out
    → Ensures (HasSize size) IsFault (apply_loop fuel base delta out)
unfolding apply_loop
apply_loop_total fuel base [] out size hf h = value h
apply_loop_total zero base (cmd ∷ rest) out size hf h = absurd (omega arith)
apply_loop_total (suc fuel) base (cmd ∷ rest) out size hf h =
    Ensures-bind (step-Round base cmd rest out size h)
      λ r k. apply_loop_total fuel base r.0 r.1 size (omega arith) k.1

-- More fuel than bytes changes nothing.
pub apply_loop_fuel :
    (f g : ℕ) (base delta : List ℕ) (out : Out)
    → length delta ≤ f
    → length delta ≤ g
    → apply_loop f base delta out ≡ apply_loop g base delta out
unfolding apply_loop
apply_loop_fuel f g base [] out p q = refl
apply_loop_fuel zero g base (cmd ∷ rest) out p q = absurd (omega arith)
apply_loop_fuel (suc f) zero base (cmd ∷ rest) out p q = absurd (omega arith)
apply_loop_fuel (suc f) (suc g) base (cmd ∷ rest) out p q =
    bind_eq (step base cmd rest out) _ _ (step-Round base cmd rest out _ refl)
      λ r k. apply_loop_fuel f g base r.0 r.1 (omega arith) (omega arith)
  where
    bind_eq :
        {A B : Type 0} {P : A → Type 0} (m : Result Error A) (f g : A → Result Error B)
        → Ensures P IsFault m
        → ((a : A) → P a → f a ≡ g a)
        → (m >>= f) ≡ (m >>= g)
    bind_eq _ f g (value h) k = k _ h
    bind_eq _ f g (fault h) k = refl

read_varint-IsFault : (bytes : List ℕ) → Ensures (λ _. Unit {0}) IsFault (read_varint bytes)
unfolding read_varint
read_varint-IsFault bytes = elim (read_loop_cases bytes 0 0 0) [
  | inl (p, e) ↦ rw e (value tt)
  | inr (inl e) ↦ rw e (fault (not_fuel _))
  | inr (inr e) ↦ rw e (fault (not_fuel _))
]

-- `apply_delta` answers on every input, with a result or an error of its own, and a result is no
-- larger than the limit on an object.
pub apply_delta_total :
    (base delta : List ℕ)
    → Ensures
        (λ result. length result ≤ max_object_bytes)
        (λ e. e ≢ out_of_fuel)
        (apply_delta base delta)
unfolding apply_delta run
apply_delta_total base delta = Ensures-bind (read_varint-IsFault delta) λ _ _.
    Ensures-bind (Ensures-ok_or _ _ (not_fuel _)) λ delta₁ _.
      Ensures-bind (Ensures-guard _ _ (not_fuel _)) λ _ _.
        Ensures-bind (read_varint-IsFault delta₁) λ r _.
          Ensures-bind (Ensures-ok_or _ _ (not_fuel _)) λ delta₂ _.
            Ensures-bind (Ensures-guard _ _ (not_fuel _)) λ _ small.
              Ensures-bind
                (apply_loop_total _ base delta₂ (record { written = []; room = r.0 }) r.0
                  (omega arith) (omega arith))
                λ out size. Ensures-bind (Ensures-guard _ _ (not_fuel _)) λ _ _.
                  let fits : length out.written ≤ max_object_bytes =
                    omega (arith, leb→le _ _ small) in
                  value fits
