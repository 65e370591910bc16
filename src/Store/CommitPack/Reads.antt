-- ===== src/Store/CommitPack/Reads.antt =====
-- Reads at the front of what was written.
use enroute.Prelude.{
  ℕ, ◌^◌, ◌<◌, ◌≡◌, refl, ap, List, [], ◌∷◌, ◌++◌, length, length-append, take_front, drop_front,
  le→leb, drop-length-append, ok, to_be_bytes, from_be_bytes, from_be_bytes-to_be_bytes,
  length-to_be_bytes, arith,
}
use enroute.Packfile.Format.{Kind, commit, tree, blob, tag}
use enroute.Packfile.Varint.{IsU64, write_varint}
use enroute.Packfile.Varint.RoundTrip.{read-write}
use enroute.Store.CommitPack.{
  Refusal, split_bytes, read_word, encode_kind, decode_kind, advance_varint,
}

pub split_bytes-append :
    (n : ℕ) (why : Refusal) (front back : List ℕ)
    → length front ≡ n
    → split_bytes n why (front ++ back) ≡ ok (front, back)
unfolding split_bytes
split_bytes-append n why front back h = rw (
  le→leb n (length (front ++ back)) (omega (arith, length-append front back)),
  take_front n front back h,
  drop_front n front back h,
)

pub read_word-to_be_bytes :
    (width n : ℕ) (why : Refusal) (back : List ℕ)
    → n < 256 ^ width
    → read_word width why (to_be_bytes width n ++ back) ≡ ok (n, back)
unfolding read_word
read_word-to_be_bytes width n why back h = rw (
  split_bytes-append width why (to_be_bytes width n) back (length-to_be_bytes width n),
  from_be_bytes-to_be_bytes width n h,
)

pub read_word_one :
    (byte : ℕ) (why : Refusal) (back : List ℕ) → read_word 1 why (byte ∷ back) ≡ ok (byte, back)
unfolding read_word from_be_bytes
read_word_one byte why back =
    rw (split_bytes-append 1 why (byte ∷ []) back refl) (ap (λ (n : ℕ). ok (n, back)) (omega arith))

pub decode_kind-encode_kind : (kind : Kind) → decode_kind (encode_kind kind) ≡ ok kind
unfolding decode_kind encode_kind
decode_kind-encode_kind commit = refl
decode_kind-encode_kind tree = refl
decode_kind-encode_kind blob = refl
decode_kind-encode_kind tag = refl

pub advance_varint-write :
    (v : ℕ) (back : List ℕ) → IsU64 v → advance_varint (write_varint [] v ++ back) ≡ ok (v, back)
unfolding advance_varint
advance_varint-write v back h =
    rw (read-write v back h, advance_varint)
      (ap (λ (left : List ℕ). ok (v, left)) (drop-length-append (write_varint [] v) back))
