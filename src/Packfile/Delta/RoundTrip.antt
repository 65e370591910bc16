-- ===== src/Packfile/Delta/RoundTrip.antt =====
-- What an instruction stream does when `apply_delta` runs it, and the round trip.
mod Running
mod Instruction
mod Copy
mod CopyEmits
mod Push
mod Match
mod Loop
use enroute.Prelude.{
  ℕ, zero, some, ◌+◌, ◌^◌, ◌≤◌, ◌<◌, ◌≡◌, refl, sym, ap, ◌∙◌, List, [], ◌∷◌, ◌++◌, append_assoc,
  append-nil, length, length-append, arith, le→leb, eq→==, drop, drop-length-append, get_from,
  Result, ok, ◌>>=◌, guard, ok_or, ◌==◌,
}
use enroute.Packfile.Format.{max_object_bytes}
use enroute.Packfile.Varint.{read_varint, write_varint}
use enroute.Packfile.Varint.RoundTrip.{read-write, write_varint_shape}
use enroute.Packfile.Delta.Apply.{Out, wrote, apply_loop, run, apply_delta}
use enroute.Packfile.Delta.Encode.{hash_at, encode_loop, encode_delta}
use enroute.Packfile.Delta.Encode.Index.{build}
use Running.{Emits}
use Loop.{encode-LoopEmits}

run_all :
    (base is bytes : List ℕ)
    → Emits base is bytes
    → run base is (record { written = []; room = length bytes })
      ≡ ok (record { written = bytes; room = 0 })
unfolding run apply_loop
run_all base is bytes h =
    let out : Out = record { written = []; room = length bytes } in
    ap (λ s. run base s out) (sym (append-nil is)) ∙ h [] out (omega arith) ∙ ap ok (ground arith)

header_read :
    (v : ℕ) (rest : List ℕ)
    → v < 2 ^ 64
    → (read_varint (write_varint [] v ++ rest) ≡ ok (v, length (write_varint [] v)))
      × (get_from (write_varint [] v ++ rest) (length (write_varint [] v)) ≡ some rest)
header_read v rest h =
    (read-write v rest h, rw (le→leb _ _ shorter, drop-length-append (write_varint [] v) rest))
  where
    shorter : length (write_varint [] v) ≤ length (write_varint [] v ++ rest)
    shorter = omega (arith, length-append (write_varint [] v) rest)

apply_delta_lem :
    (base is bytes : List ℕ)
    → length base ≤ max_object_bytes
    → length bytes ≤ max_object_bytes
    → Emits base is bytes
    → apply_delta base (write_varint [] (length base) ++ (write_varint [] (length bytes) ++ is))
      ≡ ok bytes
unfolding apply_delta guard ok_or
apply_delta_lem base is bytes hb ht h =
    let (r₁, g₁) = header_read (length base) (write_varint [] (length bytes) ++ is) (omega arith) in
    let (r₂, g₂) = header_read (length bytes) is (omega arith) in
    rw (
      r₁,
      g₁,
      eq→== (length base) (length base) refl,
      r₂,
      g₂,
      le→leb _ _ ht,
      run_all base is bytes h,
    )

-- For a base and a target within the limit on an object, `encode_delta` succeeds, and applying what
-- it returns to the base gives the target.
pub apply-encode :
    (base target : List ℕ)
    → length base ≤ max_object_bytes
    → length target ≤ max_object_bytes
    → (delta : List ℕ) × (encode_delta base target ≡ ok delta)
      × (apply_delta base delta ≡ ok target)
unfolding encode_delta guard
apply-encode base target hb ht =
    let header = write_varint (write_varint [] (length base)) (length target) in
    let (is, e, p) =
      encode-LoopEmits base target (omega arith) (length target) (build base) header 0 0
        (hash_at target 0) (omega arith) (omega arith) (omega arith) in
    let header-eq : header ≡ write_varint [] (length base) ++ write_varint [] (length target) =
      (write_varint_shape (write_varint [] (length base)) (length target) (omega arith)).0 in
    (
      header ++ is,
      rw (le→leb _ _ hb, le→leb _ _ ht) e,
      ap (apply_delta base) (
            ap (λ s. s ++ is) header-eq
            ∙ append_assoc (write_varint [] (length base)) (write_varint [] (length target)) is)
          ∙ apply_delta_lem base is target hb ht p,
    )
