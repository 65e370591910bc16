-- ===== src/Packfile/Reader/Consumes.antt =====
-- Every hashed read takes bytes off the stream, and puts the same bytes to the hash and the copy.
use enroute.Prelude.{
  ℕ, zero, suc, ◌+◌, ◌^◌, ◌≤◌, ◌<◌, ◌≡◌, ◌≢◌, refl, sym, ap, ◌∙◌, bit_and, ◌/◌, Bool, true, false,
  Option, none, some, List, [], ◌++◌, append-nil, append_assoc, length, length-append, length-take,
  leb, ◌==◌, leb→le, take, take-append-drop, if◌then◌else◌, Result, ok, err, Ensures, value, fault,
  Ensures-if, arith,
}
use enroute.Packfile.Errors
use enroute.Packfile.Errors.{Error, Reason, invalid, out_of_fuel}
use enroute.Packfile.Reader.{
  PackReader, M, ◌>>=◌, pure, fail, some_or, keep, saturating_add, advanced, read_exact_hashing,
  head_or, read_u8_hashing, checked_shl, checked_add, continue, size_loop, distance_loop,
  read_ofs_delta_distance, entry_header, read_entry_header,
}

-- At least `n` bytes are taken, and what is left is `advanced` by them.
abbrev pub Takes : ℕ → PackReader → PackReader → Type 0
Takes n r r' =
    (bytes : List ℕ) × (n ≤ length bytes)
    × (r.inner ≡ bytes ++ r'.inner)
    × (r' ≡ advanced bytes r'.inner r)

abbrev pub IsFault : Error → Type 0
IsFault e = e ≢ out_of_fuel

not_fuel : (reason : Reason) → IsFault (invalid reason)
not_fuel reason h = cc

abbrev pub Reads : {A : Type 0} → ℕ → M A → PackReader → Type 0
Reads n m r = Ensures (λ p. Takes n r p.1) IsFault (m r)

keep-keep : (k : Option (List ℕ)) (xs ys : List ℕ) → keep (keep k xs) ys ≡ keep k (xs ++ ys)
unfolding keep
keep-keep none xs ys = refl
keep-keep (some k) xs ys = ap some (append_assoc k xs ys)

keep-nil : (k : Option (List ℕ)) → k ≡ keep k []
unfolding keep
keep-nil none = refl
keep-nil (some k) = ap some (sym (append-nil k))

saturating_add-add : (o a b : ℕ) → saturating_add (saturating_add o a) b ≡ saturating_add o (a + b)
saturating_add-add o a b = ground arith

pub advanced-advanced :
    (xs ys mid rest : List ℕ) (r : PackReader)
    → advanced ys rest (advanced xs mid r) ≡ advanced (xs ++ ys) rest r
advanced-advanced xs ys mid rest r = λ i. record {
  inner = rest;
  kept = keep-keep r.kept xs ys i;
  hashed = append_assoc r.hashed xs ys i;
  offset =
      (saturating_add-add r.offset (length xs) (length ys)
          ∙ ap (saturating_add r.offset) (sym (length-append xs ys)))
        i;
}

Takes-trans : (m n : ℕ) (r s t : PackReader) → Takes m r s → Takes n s t → Takes (m + n) r t
Takes-trans m n r s t (xs, hx, ex, fx) (ys, hy, ey, fy) = (
  xs ++ ys,
  omega (arith, length-append xs ys),
  ex ∙ ap (λ l. xs ++ l) ey ∙ sym (append_assoc xs ys t.inner),
  fy ∙ ap (advanced ys t.inner) fx ∙ advanced-advanced xs ys s.inner t.inner r,
)

Takes-nil : (r : PackReader) → r.offset < 2 ^ 64 → Takes 0 r r
Takes-nil r h = (
  [],
  omega arith,
  refl,
  λ i. record {
    inner = r.inner;
    kept = keep-nil r.kept i;
    hashed = sym (append-nil r.hashed) i;
    offset = same r.offset h i;
  },
)
  where
    same : (o : ℕ) → o < 2 ^ 64 → o ≡ saturating_add o 0
    same o h = ground arith

-- The offset of the reader after a read, and what it has left.
pub Takes-left :
    (n : ℕ) (r r' : PackReader)
    → Takes n r r'
    → (r'.offset < 2 ^ 64) × (length r'.inner + n ≤ length r.inner)
Takes-left n r r' (xs, hx, ex, fx) =
    (rw fx (bounded r.offset (length xs)), omega (arith, ap length ex, length-append xs r'.inner))
  where
    bounded : (o n : ℕ) → saturating_add o n < 2 ^ 64
    bounded o n = ground arith

Takes-less : (m n : ℕ) (r r' : PackReader) → m ≤ n → Takes n r r' → Takes m r r'
Takes-less m n r r' h (xs, hx, ex, fx) = (xs, omega arith, ex, fx)

module _ {A B : Type 0} where
  Reads-bind :
      (m n : ℕ) (a : M A) (f : A → M B) (r : PackReader)
      → Reads m a r
      → ((x : A) (s : PackReader) → Takes m r s → Reads n (f x) s)
      → Reads (m + n) (a >>= f) r
  unfolding ◌>>=◌
  Reads-bind m n a f r h k = go (a r) h
    where
      go :
          (q : Result Error (A × PackReader))
          → Ensures (λ p. Takes m r p.1) IsFault q
          → Ensures (λ p. Takes (m + n) r p.1) IsFault (continue q f)
      go (ok (x, s)) (value t) = after (f x s) (k x s t)
        where
          after :
              (q : Result Error (B × PackReader))
              → Ensures (λ p. Takes n s p.1) IsFault q
              → Ensures (λ p. Takes (m + n) r p.1) IsFault q
          after (ok (y, u)) (value t') = value (Takes-trans m n r s u t t')
          after (err e) (fault h) = fault h
      go (err e) (fault h) = fault h

Reads-pure : {A : Type 0} (a : A) (r : PackReader) → r.offset < 2 ^ 64 → Reads 0 (pure a) r
unfolding pure
Reads-pure a r h = value (Takes-nil r h)

Reads-some_or :
    {A : Type 0} (o : Option A) (reason : Reason) (r : PackReader)
    → r.offset < 2 ^ 64
    → Reads 0 (some_or o reason) r
unfolding some_or
Reads-some_or none reason r h = fault (not_fuel reason)
Reads-some_or (some a) reason r h = value (Takes-nil r h)

Reads-exact : (n : ℕ) (r : PackReader) → Reads n (read_exact_hashing n) r
unfolding read_exact_hashing
Reads-exact n r =
    Ensures-if (leb n (length r.inner)) _ _
      (λ enough. value (
        take n r.inner,
        omega (arith, length-take n r.inner, leb→le _ _ enough),
        sym (take-append-drop n r.inner),
        refl,
      ))
      (λ _. fault (not_fuel _))

Reads-less :
    {A : Type 0} (m n : ℕ) (r : PackReader) {q : Result Error (A × PackReader)}
    → m ≤ n
    → Ensures (λ p. Takes n r p.1) IsFault q
    → Ensures (λ p. Takes m r p.1) IsFault q
Reads-less m n r h (value t) = value (Takes-less m n r _ h t)
Reads-less m n r h (fault e) = fault e

Reads-u8 : (r : PackReader) → Reads 1 read_u8_hashing r
unfolding read_u8_hashing
Reads-u8 r =
    Reads-bind 1 0 (read_exact_hashing 1) (λ bytes. pure (head_or 0 bytes)) r (Reads-exact 1 r)
      λ bytes s t. Reads-pure _ s (Takes-left 1 r s t).0

size_loop-Reads :
    (fuel cur size shift : ℕ) (r : PackReader)
    → length r.inner < fuel
    → r.offset < 2 ^ 64
    → Reads 0 (size_loop fuel cur size shift) r
unfolding size_loop
size_loop-Reads zero cur size shift r h o = absurd (omega arith)
size_loop-Reads (suc fuel) cur size shift r h o =
    Ensures-if (bit_and cur 0x80 == 0) _ _ (λ _. value (Takes-nil r o))
      (λ _. Reads-less 0 1 r (omega arith) (
        Reads-bind 1 0 read_u8_hashing _ r (Reads-u8 r) λ cur' s t.
          let (os, ls) = Takes-left 1 r s t in
          Reads-bind 0 0
            (some_or (checked_shl (bit_and cur' 0x7f) shift) Errors.entry_size_overflow) _ s
            (Reads-some_or _ _ s os)
            λ bits s₁ t₁.
              let (o₁, l₁) = Takes-left 0 s s₁ t₁ in
              Reads-bind 0 0 (some_or (checked_add size bits) Errors.entry_size_overflow) _ s₁
                (Reads-some_or _ _ s₁ o₁)
                λ size' s₂ t₂.
                  let (o₂, l₂) = Takes-left 0 s₁ s₂ t₂ in
                  size_loop-Reads fuel cur' size' (shift + 7) s₂ (omega arith) o₂))

distance_loop-Reads :
    (fuel cur distance : ℕ) (r : PackReader)
    → length r.inner < fuel
    → r.offset < 2 ^ 64
    → Reads 0 (distance_loop fuel cur distance) r
unfolding distance_loop
distance_loop-Reads zero cur distance r h o = absurd (omega arith)
distance_loop-Reads (suc fuel) cur distance r h o =
    Ensures-if (bit_and cur 0x80 == 0) _ _ (λ _. value (Takes-nil r o))
      (λ _. Reads-less 0 1 r (omega arith) (
        Reads-bind 1 0 read_u8_hashing _ r (Reads-u8 r) λ cur' s t.
          let (os, ls) = Takes-left 1 r s t in
          Reads-bind 0 0 (some_or (checked_add distance 1) Errors.ofs_distance_overflow) _ s
            (Reads-some_or _ _ s os)
            λ v₁ s₁ t₁.
              let (o₁, l₁) = Takes-left 0 s s₁ t₁ in
              Reads-bind 0 0 (some_or (checked_shl v₁ 7) Errors.ofs_distance_overflow) _ s₁
                (Reads-some_or _ _ s₁ o₁)
                λ v₂ s₂ t₂.
                  let (o₂, l₂) = Takes-left 0 s₁ s₂ t₂ in
                  Reads-bind 0 0
                    (some_or (checked_add v₂ (bit_and cur' 0x7f)) Errors.ofs_distance_overflow) _ s₂
                    (Reads-some_or _ _ s₂ o₂)
                    λ v₃ s₃ t₃.
                      let (o₃, l₃) = Takes-left 0 s₂ s₃ t₃ in
                      distance_loop-Reads fuel cur' v₃ s₃ (omega arith) o₃))

read_ofs_delta_distance-Reads : (r : PackReader) → Reads 1 read_ofs_delta_distance r
unfolding read_ofs_delta_distance
read_ofs_delta_distance-Reads r =
    Reads-bind 1 0 read_u8_hashing _ r (Reads-u8 r)
      λ c s t. distance_loop-Reads (suc (length s.inner)) c _ s (omega arith) (Takes-left 1 r s t).0

Reads-if :
    {A : Type 0} (n : ℕ) (b : Bool) (x y : M A) (r : PackReader)
    → Reads n x r
    → Reads n y r
    → Reads n (if b then x else y) r
Reads-if n true x y r h k = h
Reads-if n false x y r h k = k

entry_header-Reads :
    (type_id : ℕ) (r : PackReader) → r.offset < 2 ^ 64 → Reads 0 (entry_header type_id) r
unfolding entry_header fail
entry_header-Reads type_id r o = Reads-if 0 (type_id == 1) _ _ r (Reads-pure _ r o) (
    Reads-if 0 (type_id == 2) _ _ r (Reads-pure _ r o) (
      Reads-if 0 (type_id == 3) _ _ r (Reads-pure _ r o) (
        Reads-if 0 (type_id == 4) _ _ r (Reads-pure _ r o) (
          Reads-if 0 (type_id == 6) _ _ r
            (Reads-less 0 1 r (omega arith) (
              Reads-bind 1 0 read_ofs_delta_distance _ r (read_ofs_delta_distance-Reads r)
                λ d s t. Reads-pure _ s (Takes-left 1 r s t).0))
            (Reads-if 0 (type_id == 7) _ _ r
              (Reads-less 0 20 r (omega arith) (
                Reads-bind 20 0 (read_exact_hashing 20) _ r (Reads-exact 20 r)
                  λ d s t. Reads-pure _ s (Takes-left 20 r s t).0))
              (fault (not_fuel _)))))))

-- Parsing an entry's header ends on every stream, with an error of its own or having taken at least
-- one byte; what it took is off the stream, counted in the offset, hashed, and in the copy.
pub read_entry_header_reads :
    (r : PackReader) → Ensures (λ p. Takes 1 r p.1) (λ e. e ≢ out_of_fuel) (read_entry_header r)
unfolding read_entry_header
read_entry_header_reads r = Reads-bind 1 0 read_u8_hashing _ r (Reads-u8 r) λ c s t.
    Reads-bind 0 0 (λ r. size_loop (suc (length r.inner)) c (bit_and c 0x0f) 4 r) _ s
      (size_loop-Reads (suc (length s.inner)) c (bit_and c 0x0f) 4 s (omega arith)
        (Takes-left 1 r s t).0)
      λ size s₁ t₁.
        let (o₁, l₁) = Takes-left 0 s s₁ t₁ in
        Reads-bind 0 0 (entry_header (bit_and (c / 2 ^ 4) 0x07)) _ s₁
          (entry_header-Reads (bit_and (c / 2 ^ 4) 0x07) s₁ o₁)
          λ header s₂ t₂. Reads-pure _ s₂ (Takes-left 0 s₁ s₂ t₂).0
