-- ===== src/Lattice/Tail/Stow.antt =====
-- A stowed blob is fetched back, and no other offset changes its answer.
use enroute.Prelude.{
  take_front, drop_front, ℕ, zero, suc, ◌+◌, ◌-◌, ◌^◌, ◌≤◌, ◌<◌, ◌≡◌, ◌≢◌, refl, sym, ap, ◌∙◌, some,
  List, [], ◌∷◌, ◌++◌, append_assoc, length, length-append, length-to_le_bytes,
  from_le_bytes-to_le_bytes, take, drop, Option-cases, get_range, length-drop, to_le_bytes,
  from_le_bytes, lt→ltb, le→leb, ne→==, take_all, drop-length-append, arith, inl, inr,
}
use enroute.Lattice.Tail.{no_blob, length_bytes, stow, length_at, fetch}

stow_lem :
    (b : ℕ) (bs tail : List ℕ)
    → length tail < 2 ^ 32
    → length (b ∷ bs) < 2 ^ 32
    → stow (b ∷ bs) tail ≡ (length tail, tail ++ (to_le_bytes 4 (length (b ∷ bs)) ++ (b ∷ bs)))
unfolding stow
stow_lem b bs tail ht hb =
    rw (lt→ltb (length tail) (2 ^ 32) ht, lt→ltb (length (b ∷ bs)) (2 ^ 32) hb)

fits :
    (word blob tail : List ℕ) → length word ≡ 4 → length tail + 4 ≤ length (tail ++ (word ++ blob))
fits word blob tail hw =
    rw (length-append tail (word ++ blob), length-append word blob, hw) (omega arith)

-- Bytes that end a list are the range from where they begin.
get_range_end {ℓ} :
    {A : Type ℓ}
    → (front back : List A) (a b : ℕ) → length front ≡ a
    → a + length back ≡ b
    → get_range (front ++ back) a b ≡ some back
get_range_end front back a b ha hb =
    rw
      (
        le→leb a b (omega arith),
        le→leb b (length (front ++ back)) (omega (arith, length-append front back)),
        drop_front a front back ha,
      )
      (ap some (take_all (b - a) back (omega arith)))

length_at_end :
    (word blob tail : List ℕ)
    → length word ≡ 4
    → from_le_bytes word ≡ length blob
    → length_at (length tail) (tail ++ (word ++ blob)) ≡ some (length blob)
unfolding length_at
length_at_end word blob tail hw hl = rw (
  le→leb (length tail + length_bytes) (length (tail ++ (word ++ blob))) (fits word blob tail hw),
  drop-length-append tail (word ++ blob),
  take_front 4 word blob hw,
  hl,
)

fetch_end :
    (word blob tail : List ℕ)
    → length word ≡ 4
    → from_le_bytes word ≡ length blob
    → length tail ≢ no_blob
    → fetch (length tail) (tail ++ (word ++ blob)) ≡ some blob
unfolding fetch
fetch_end word blob tail hw hl ne =
    rw (ne→== (length tail) no_blob ne, length_at_end word blob tail hw hl)
      (ap (λ (bs : List ℕ). get_range bs (length tail + 4) (length tail + 4 + length blob))
          (sym (append_assoc tail word blob))
        ∙ get_range_end (tail ++ word) blob (length tail + 4) (length tail + 4 + length blob)
            (length-append tail word ∙ ap (λ (n : ℕ). length tail + n) hw) refl)

drop_inside {ℓ} :
    {A : Type ℓ}
    → (n : ℕ) (front more : List A) → n ≤ length front
    → drop n (front ++ more) ≡ drop n front ++ more
drop_inside zero front more h = refl
drop_inside (suc n) [] more h = absurd (omega arith)
drop_inside (suc n) (x ∷ front) more h = drop_inside n front more (omega arith)

take_inside {ℓ} :
    {A : Type ℓ}
    → (n : ℕ) (front more : List A) → n ≤ length front
    → take n (front ++ more) ≡ take n front
take_inside zero front more h = refl
take_inside (suc n) [] more h = absurd (omega arith)
take_inside (suc n) (x ∷ front) more h = ap (λ xs. x ∷ xs) (take_inside n front more (omega arith))

-- A range of a list is the same range of a longer list.
slice_inside {ℓ} :
    {A : Type ℓ}
    → (front more : List A) (a b : ℕ) → a ≤ b
    → b ≤ length front
    → take (b - a) (drop a (front ++ more)) ≡ take (b - a) (drop a front)
slice_inside front more a b h k =
    ap (λ xs. take (b - a) xs) (drop_inside a front more (omega arith))
    ∙ take_inside (b - a) (drop a front) more (omega (arith, length-drop a front))

get_range-append :
    (front more : List ℕ) (a b : ℕ) (found : List ℕ)
    → get_range front a b ≡ some found
    → get_range (front ++ more) a b ≡ some found
get_range-append front more a b found e =
    ground (arith, slice_inside front more a b, length-append front more)

length_at-append :
    (at : ℕ) (front more : List ℕ) (len : ℕ)
    → length_at at front ≡ some len
    → length_at at (front ++ more) ≡ some len
unfolding length_at
length_at-append at front more len e =
    ground (arith, slice_inside front more at (at + 4), length-append front more)

fetch-append :
    (at : ℕ) (front more found : List ℕ)
    → fetch at front ≡ some found
    → fetch at (front ++ more) ≡ some found
unfolding fetch
fetch-append at front more found e = elim (Option-cases (length_at at front)) [
  | inl none_there ↦ ground (arith, none_there, length_at-append at front more)
  | inr (len, there) ↦ ground (
    arith,
    there,
    length_at-append at front more len there,
    get_range-append front more (at + length_bytes) (at + length_bytes + len) found,
  )
]

fetch_none : (tail : List ℕ) → fetch (stow [] tail).0 (stow [] tail).1 ≡ some []
unfolding stow fetch
fetch_none tail = refl

stow_none :
    (at : ℕ) (tail found : List ℕ)
    → fetch at tail ≡ some found
    → fetch at (stow [] tail).1 ≡ some found
unfolding stow
stow_none at tail found e = e

-- Stowing a blob shorter than 2 ^ 32 bytes behind a tail shorter than 2 ^ 32 - 1 bytes gives an offset
-- that fetches the blob back, and an offset that fetched a blob before fetches the same blob afterwards.
pub fetch-stow :
    (blob tail : List ℕ) (at : ℕ) (found : List ℕ)
    → length tail < no_blob
    → length blob < 2 ^ 32
    → fetch at tail ≡ some found
    → (fetch (stow blob tail).0 (stow blob tail).1 ≡ some blob)
      × (fetch at (stow blob tail).1 ≡ some found)
fetch-stow [] tail at found ht hb e = (fetch_none tail, stow_none at tail found e)
fetch-stow (b ∷ bs) tail at found ht hb e = rw (stow_lem b bs tail (omega arith) hb) (
  fetch_end (to_le_bytes 4 (length (b ∷ bs))) (b ∷ bs) tail (length-to_le_bytes 4 (length (b ∷ bs)))
      (from_le_bytes-to_le_bytes 4 (length (b ∷ bs)) hb) (omega arith),
  fetch-append at tail (to_le_bytes 4 (length (b ∷ bs)) ++ (b ∷ bs)) found e,
)
