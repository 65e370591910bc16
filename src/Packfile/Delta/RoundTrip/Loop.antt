-- ===== src/Packfile/Delta/RoundTrip/Loop.antt =====
-- The loop of `encode_delta` pushes instructions that emit what is not yet emitted.
use enroute.Prelude.{
  ℕ, zero, suc, ◌+◌, ◌^◌, ◌≤◌, ◌<◌, refl, sym, Bool-cases, Option, none, some, List, ◌++◌, length,
  arith, ltb, leb, ltb→lt, le→leb, le→ltb, inl, inr, drop, slice, slice-append, slice-append-drop,
  Result, ◌>>=◌, ok_or,
}
use enroute.Packfile.Errors.{Error}
use enroute.Packfile.Delta.Encode.{hash_at, find_match, rolled, push_match, push_tail, encode_loop}
use enroute.Packfile.Delta.Encode.Index.{Match, BlockIndex, block}
use enroute.Packfile.Delta.RoundTrip.Push.{
  Pushed, Pushed-eq, Pushed-behind, push_literal_emits, push_copy_emits,
}
use enroute.Packfile.Delta.RoundTrip.Match.{IsMatch, Holds, best_match_lem}

Pushed-bind :
    (base out xs ys : List ℕ) (m : Result Error (List ℕ)) (f : List ℕ → Result Error (List ℕ))
    → Pushed base out xs m
    → ((out : List ℕ) → Pushed base out ys (f out))
    → Pushed base out (xs ++ ys) (m >>= f)
Pushed-bind base out xs ys m f (is, e, p) k =
    rw e (Pushed-behind base out is xs ys (f (out ++ is)) p (k (out ++ is)))

module _ (base target : List ℕ) (small : length base < 2 ^ 32) where
  push_match_emits :
      (out : List ℕ) (pending pos : ℕ) (m : Match)
      → IsMatch base target pending pos m
      → Pushed base out (slice target pending (m.start + m.len)) (push_match out target pending m)
  unfolding push_match ok_or
  push_match_emits out pending pos m h =
      rw (le→leb pending m.start h.from_pending, le→leb m.start (length target) (omega arith))
        (Pushed-eq base out
          (sym (slice-append target pending m.start (m.start + m.len) h.from_pending (omega arith)))
          refl
          (Pushed-bind base out (slice target pending m.start)
            (slice target m.start (m.start + m.len)) _ _
            (push_literal_emits base out (slice target pending m.start))
            (λ out.
              Pushed-eq base out h.same refl
                (push_copy_emits base out m.base_offset m.len h.in_base small))))

  push_tail_emits :
      (out : List ℕ) (pending : ℕ)
      → pending ≤ length target
      → Pushed base out (drop pending target) (push_tail out target pending)
  unfolding push_tail ok_or
  push_tail_emits out pending h =
      rw (le→leb pending (length target) h) (push_literal_emits base out (drop pending target))

  find_match_lem :
      (index : BlockIndex) (pending pos hash : ℕ)
      → pending ≤ pos
      → pos ≤ length target
      → Holds (IsMatch base target pending pos) (find_match base target index pending pos hash)
  unfolding find_match
  find_match_lem index pending pos hash h k =
      elim (Bool-cases (leb (pos + block) (length target))) [
        | inl room ↦ rw room (best_match_lem base target pending pos h k index hash)
        | inr over ↦ rw (over, Holds) tt
      ]

  -- What a loop with this much fuel does, from any place where the fuel is enough.
  abbrev LoopEmits : BlockIndex → ℕ → Type 0
  LoopEmits index fuel =
      (out : List ℕ) (pending pos hash : ℕ)
      → pending ≤ pos
      → pos ≤ length target
      → length target ≤ fuel + pos
      → Pushed base out (drop pending target)
          (encode_loop fuel base target index out pending pos hash)

  round_emits :
      (fuel : ℕ) (index : BlockIndex) (out : List ℕ) (pending pos hash : ℕ)
      → pending ≤ pos
      → pos < length target
      → length target ≤ suc fuel + pos
      → LoopEmits index fuel
      → (found : Option Match) → Holds (IsMatch base target pending pos) found
      → Pushed base out (drop pending target) (elim found [
        | some m ↦ push_match out target pending m >>= λ out.
            encode_loop fuel base target index out
              (m.start + m.len)
              (m.start + m.len)
              (hash_at target (m.start + m.len))
        | none ↦ encode_loop fuel base target index out pending (pos + 1) (rolled target pos hash)
      ])
  round_emits fuel index out pending pos hash h k enough ih none _ =
      ih out pending (pos + 1) (rolled target pos hash) (omega arith) (omega arith) (omega arith)
  round_emits fuel index out pending pos hash h k enough ih (some m) found =
      let end : ℕ = m.start + m.len in
      Pushed-eq base out (sym (slice-append-drop target pending end (omega arith))) refl (
        Pushed-bind base out (slice target pending end) (drop end target) _ _
          (push_match_emits out pending pos m found)
          (λ out. ih out end end (hash_at target end) (omega arith) (omega arith) (omega arith)))

  pub encode-LoopEmits : (fuel : ℕ) (index : BlockIndex) → LoopEmits index fuel
  unfolding encode_loop
  encode-LoopEmits zero index out pending pos hash h k enough =
      rw (le→ltb pos (length target) (omega arith)) (push_tail_emits out pending (omega arith))
  encode-LoopEmits (suc fuel) index out pending pos hash h k enough =
      elim (Bool-cases (ltb pos (length target))) [
        | inr over ↦ rw over (push_tail_emits out pending (omega arith))
        | inl more ↦ rw more (
            round_emits fuel index out pending pos hash h (ltb→lt pos (length target) more) enough
              (encode-LoopEmits fuel index) (find_match base target index pending pos hash)
              (find_match_lem index pending pos hash h k))
      ]
