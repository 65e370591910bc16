-- ===== src/Packfile/Headers.antt =====
-- The pack header as written and read, and an entry's header against the format's description.
use enroute.Prelude.{
  ℕ, zero, suc, ◌+◌, ◌*◌, ◌/◌, ◌%◌, ◌^◌, ◌≤◌, ◌<◌, ◌≡◌, refl, ap, ◌∙◌, bit_and, Bool-cases, inl,
  inr, List, [], ◌∷◌, ◌++◌, length, length-append, leb, ltb, le→leb, lt→ltb, ltb→lt, eq→==, ne→==,
  if◌then◌else◌, true, false, ◌≢◌, ok, arith,
}
use mathlib.Core.Path.{ap₂}
use enroute.Prelude.Bits.{low_three, low_four, low_seven, top_bit}
use enroute.Packfile.Format.{Kind, commit, tree, blob, tag, full}
use enroute.Packfile.Reader.{
  PackReader, ◌>>=◌, pure, some_or, advanced, read_u8_hashing, read_pack_header, size_loop,
  entry_header, read_entry_header,
}
use enroute.Packfile.Reader.Consumes.{advanced-advanced}
use enroute.Packfile.Varint.RoundTrip.{groups, split_group, length-groups}
use enroute.Packfile.Writer.{write_pack_header}

twelve :
    (n : ℕ)
    → leb 12 (suc (suc (suc (suc (suc (suc (suc (suc (suc (suc (suc (suc n)))))))))))) ≡ true
twelve n = ground arith

-- A reader in front of what `write_pack_header` wrote reads the count back, and is then behind it.
pub read_pack_header-write :
    (r : PackReader) (count : ℕ) (rest : List ℕ)
    → count < 2 ^ 32
    → r.inner ≡ write_pack_header count [] ++ rest
    → read_pack_header r ≡ ok (count, advanced (write_pack_header count []) rest r)
unfolding write_pack_header read_pack_header
read_pack_header-write r count rest h e =
    rw (e, twelve (length rest))
      (ap (λ (n : ℕ). ok (n, advanced (write_pack_header count []) rest r)) (omega arith))

pub read_u8_lem :
    (r : PackReader) (byte : ℕ) (bytes : List ℕ)
    → r.inner ≡ byte ∷ bytes
    → read_u8_hashing r ≡ ok (byte, advanced (byte ∷ []) bytes r)
unfolding read_u8_hashing
read_u8_lem r byte bytes e = rw (e, le→leb 1 (suc (length bytes)) (omega arith))

size_step :
    (fuel cur byte size shift : ℕ) (r : PackReader) (rest : List ℕ)
    → bit_and cur 0x80 ≢ 0
    → r.inner ≡ byte ∷ rest
    → shift < 64
    → size + byte % 128 * 2 ^ shift < 2 ^ 64
    → size_loop (suc fuel) cur size shift r
      ≡ size_loop fuel byte
          (size + byte % 128 * 2 ^ shift)
          (shift + 7)
          (advanced (byte ∷ []) rest r)
unfolding size_loop ◌>>=◌ some_or
size_step fuel cur byte size shift r rest more e hs fits =
    let small : byte % 128 * 2 ^ shift % 2 ^ 64 ≡ byte % 128 * 2 ^ shift = omega arith in
    rw (
      ne→== (bit_and cur 0x80) 0 more,
      read_u8_lem r byte rest e,
      lt→ltb shift 64 hs,
      low_seven byte,
      small,
      lt→ltb (size + byte % 128 * 2 ^ shift) (2 ^ 64) fits,
    )

size_end :
    (fuel cur size shift : ℕ) (r : PackReader)
    → bit_and cur 0x80 ≡ 0
    → size_loop fuel cur size shift r ≡ ok (size, r)
unfolding size_loop
size_end zero cur size shift r e = rw (eq→== (bit_and cur 0x80) 0 e)
size_end (suc fuel) cur size shift r e = rw (eq→== (bit_and cur 0x80) 0 e)

last_group :
    (fuel cur w size shift : ℕ) (r : PackReader) (rest : List ℕ)
    → bit_and cur 0x80 ≢ 0
    → r.inner ≡ w ∷ rest
    → w < 128
    → shift < 64
    → size + w * 2 ^ shift < 2 ^ 64
    → size_loop (suc fuel) cur size shift r ≡ ok (size + w * 2 ^ shift, advanced (w ∷ []) rest r)
last_group fuel cur w size shift r rest more e hw hs fits =
    let g : w % 128 ≡ w = omega arith in
    size_step fuel cur w size shift r rest more e hs (rw g fits)
    ∙ size_end fuel w _ _ _ (omega (arith, top_bit w))
    ∙ rw g

ne_zero : (b : ℕ) → (128 ≤ b) × (b < 256) → bit_and b 0x80 ≢ 0
ne_zero b h = omega (arith, top_bit b)

-- The size's higher bits, in groups of seven.
size_loop-groups :
    (k fuel cur w size shift : ℕ) (r : PackReader) (rest : List ℕ)
    → bit_and cur 0x80 ≢ 0
    → r.inner ≡ groups k w ++ rest
    → w < 128 ^ suc k
    → shift + 7 * k < 64
    → size + w * 2 ^ shift < 2 ^ 64
    → length (groups k w) ≤ fuel
    → size_loop fuel cur size shift r ≡ ok (size + w * 2 ^ shift, advanced (groups k w) rest r)
unfolding groups
size_loop-groups k zero cur w size shift r rest more e hw hs fits hf =
    absurd (omega (arith, length-groups k w))
size_loop-groups zero (suc fuel) cur w size shift r rest more e hw hs fits hf =
    last_group fuel cur w size shift r rest more e (omega arith) (omega arith) fits
size_loop-groups (suc k) (suc fuel) cur w size shift r rest more e hw hs fits hf =
    elim (Bool-cases (ltb w 128)) [
      | inl last ↦ rw last (
          last_group fuel cur w size shift r rest more (e ∙ rw last) (ltb→lt w 128 last)
            (omega arith) fits)
      | inr inner ↦
          let b = w % 128 + 128 in
          let g : b % 128 ≡ w % 128 = omega arith in
          let whole : size + w % 128 * 2 ^ shift + w / 128 * 2 ^ (shift + 7)
              ≡ size + w * 2 ^ shift =
            omega (arith, split_group w shift) in
          let below : size + w % 128 * 2 ^ shift < 2 ^ 64 = omega arith in
          rw inner (
            size_step fuel cur b size shift r (groups k (w / 128) ++ rest) more (e ∙ rw inner)
              (omega arith) (rw g below)
            ∙ ap (λ (n : ℕ). size_loop fuel b (size + n * 2 ^ shift) (shift + 7) (after b)) g
            ∙ size_loop-groups k fuel b (w / 128) (size + w % 128 * 2 ^ shift) (shift + 7) (after b)
                rest (ne_zero b (omega arith, omega arith)) refl (omega arith) (omega arith)
                (rw whole fits) (shorter inner hf)
            ∙ ap ok (
                ap₂ (λ (n : ℕ) (r : PackReader). (n, r)) whole
                  (advanced-advanced (b ∷ []) (groups k (w / 128)) (groups k (w / 128) ++ rest) rest
                    r)))
    ]
  where
    after : ℕ → PackReader
    after b = advanced (b ∷ []) (groups k (w / 128) ++ rest) r

    shorter :
        ltb w 128 ≡ false
        → length (if ltb w 128 then w ∷ [] else (w % 128 + 128) ∷ groups k (w / 128)) ≤ suc fuel
        → length (groups k (w / 128)) ≤ fuel
    shorter p h = let h' : suc (length (groups k (w / 128))) ≤ suc fuel = rw p at h in omega arith

-- The format's description of the header of an entry of type 1 to 7: type and low four bits of the
-- size in the first byte, then the size's other bits in groups of seven.
abbrev pub header_bytes : ℕ → ℕ → List ℕ
header_bytes type_id size =
    if ltb size 16
    then (type_id * 16 + size) ∷ []
    else (type_id * 16 + size % 16 + 128) ∷ groups 8 (size / 16)

-- The types of whole objects.
abbrev pub type_id_of : Kind → ℕ
type_id_of commit = 1
type_id_of tree = 2
type_id_of blob = 3
type_id_of tag = 4

entry_header_full : (kind : Kind) → entry_header (type_id_of kind) ≡ pure (full kind)
unfolding entry_header
entry_header_full commit = refl
entry_header_full tree = refl
entry_header_full blob = refl
entry_header_full tag = refl

small_byte :
    (t low : ℕ)
    → t < 8
    → low < 16
    → (bit_and ((t * 16 + low) / 2 ^ 4) 0x07 ≡ t)
      × (bit_and (t * 16 + low) 0x0f ≡ low)
      × (bit_and (t * 16 + low) 0x80 ≡ 0)
small_byte t low ht hl =
    omega (arith, low_three ((t * 16 + low) / 16), low_four (t * 16 + low), top_bit (t * 16 + low))

large_byte :
    (t low : ℕ)
    → t < 8
    → low < 16
    → (bit_and ((t * 16 + low + 128) / 2 ^ 4) 0x07 ≡ t) × (bit_and (t * 16 + low + 128) 0x0f ≡ low)
large_byte t low ht hl =
    omega (arith, low_three ((t * 16 + low + 128) / 16), low_four (t * 16 + low + 128))

type_id-lt : (kind : Kind) → type_id_of kind < 8
type_id-lt commit = omega arith
type_id-lt tree = omega arith
type_id-lt blob = omega arith
type_id-lt tag = omega arith

-- The header of a whole object, of any kind and any size that fits 64 bits, is read as written in
-- the format's description, and exactly its bytes are taken.
pub read_entry_header-full :
    (r : PackReader) (kind : Kind) (size : ℕ) (rest : List ℕ)
    → size < 2 ^ 64
    → r.inner ≡ header_bytes (type_id_of kind) size ++ rest
    → read_entry_header r
      ≡ ok ((full kind, size), advanced (header_bytes (type_id_of kind) size) rest r)
unfolding read_entry_header ◌>>=◌ pure
read_entry_header-full r kind size rest h e = elim (Bool-cases (ltb size 16)) [
  | inl small ↦
      let t = type_id_of kind in
      let (p, q, z) = small_byte t size (type_id-lt kind) (ltb→lt size 16 small) in
      rw (
        small,
        read_u8_lem r (t * 16 + size) rest (e ∙ rw small),
        q,
        size_end _ (t * 16 + size) size 4 _ z,
        p,
        entry_header_full kind,
      )
  | inr large ↦
      let t = type_id_of kind in
      let b = t * 16 + size % 16 + 128 in
      let low : size % 16 < 16 = omega arith in
      let (p, q) = large_byte t (size % 16) (type_id-lt kind) low in
      let size-eq : size % 16 + size / 16 * 2 ^ 4 ≡ size = omega arith in
      let r' = advanced (b ∷ []) (groups 8 (size / 16) ++ rest) r in
      rw
        (
          large,
          read_u8_lem r b (groups 8 (size / 16) ++ rest) (e ∙ rw large),
          q,
          size_loop-groups 8 (suc (length (groups 8 (size / 16) ++ rest))) b (size / 16) (size % 16)
              4 r' rest (ne_zero b (omega arith, omega (arith, type_id-lt kind))) refl (omega arith)
              (omega arith) (rw size-eq h)
              (omega (arith, length-append (groups 8 (size / 16)) rest)),
          p,
          entry_header_full kind,
        )
        (ap ok (
          ap₂ (λ (n : ℕ) (s : PackReader). ((full kind, n), s)) size-eq
            (advanced-advanced (b ∷ []) (groups 8 (size / 16)) (groups 8 (size / 16) ++ rest) rest
              r)))
]
