-- ===== src/Packfile/Delta/RoundTrip/Match.antt =====
-- What `best_match` promises: a run of the target that the base holds, which reaches past `pos`.
use mathlib.Core.List.{reverse-reverse}
use mathlib.Core.Path.{ap₂}
use enroute.Prelude.{
  ℕ, zero, suc, ◌+◌, ◌-◌, ◌*◌, ◌≤◌, ◌<◌, ◌≡◌, ◌⊎◌, refl, sym, ap, ◌∙◌, Bool, Bool-cases,
  Option-cases, le→leb, Option, none, some, List, [], ◌∷◌, ◌++◌, length, length-take, length-drop,
  length-slice, length-reverse, take-reverse, arith, ltb, leb, ◌==◌, ◌&&◌, true, inl, inr, take,
  drop, slice, slice-append, drop-take, drop-drop, reverse, get_elem?, leb→le,
}
use enroute.Packfile.Delta.Encode.Index.{
  Match, BlockIndex, block, common_prefix, common_suffix, forward_of, backward_of, is_longer,
  better, candidates, best_match, no_block, max_candidates, bucket,
}

pub record IsMatch (base target : List ℕ) (pending pos : ℕ) (m : Match) : Type 0 where
  pub from_pending : pending ≤ m.start
  pub to_pos : m.start ≤ pos
  pub past_pos : pos < m.start + m.len
  pub in_target : m.start + m.len ≤ length target
  pub in_base : m.base_offset + m.len ≤ length base
  pub same :
      slice base m.base_offset (m.base_offset + m.len) ≡ slice target m.start (m.start + m.len)

common_prefix_lem :
    (xs ys : List ℕ)
    → (common_prefix xs ys ≤ length xs)
      × (common_prefix xs ys ≤ length ys)
      × (take (common_prefix xs ys) xs ≡ take (common_prefix xs ys) ys)
unfolding common_prefix
common_prefix_lem [] ys = (omega arith, omega arith, refl)
common_prefix_lem (x ∷ xs) [] = (omega arith, omega arith, refl)
common_prefix_lem (x ∷ xs) (y ∷ ys) = ground (arith, common_prefix_lem xs ys)

common_suffix_lem :
    (xs ys : List ℕ)
    → (common_suffix xs ys ≤ length xs)
      × (common_suffix xs ys ≤ length ys)
      × (drop (length xs - common_suffix xs ys) xs ≡ drop (length ys - common_suffix xs ys) ys)
unfolding common_suffix
common_suffix_lem xs ys =
    let k = common_prefix (reverse xs) (reverse ys) in
    let (hx, hy, e) = common_prefix_lem (reverse xs) (reverse ys) in
    let kx : k ≤ length xs = omega (arith, length-reverse xs) in
    let ky : k ≤ length ys = omega (arith, length-reverse ys) in
    (
      kx,
      ky,
      sym (reverse-reverse _)
          ∙ ap reverse (sym (take-reverse k xs kx) ∙ e ∙ take-reverse k ys ky)
          ∙ reverse-reverse _,
    )

forward_lem :
    (base target : List ℕ) (pos offset : ℕ)
    → pos ≤ length target
    → (forward_of base (drop pos target) offset ≡ 0)
      ⊎ ((pos + forward_of base (drop pos target) offset ≤ length target)
          × (offset + forward_of base (drop pos target) offset ≤ length base)
          × (slice base offset (offset + forward_of base (drop pos target) offset)
              ≡ slice target pos (pos + forward_of base (drop pos target) offset)))
forward_lem base target pos offset h = elim (Bool-cases (leb offset (length base))) [
  | inl in_base ↦
      let k = common_prefix (drop offset base) (drop pos target) in
      let (hb, ht, e) = common_prefix_lem (drop offset base) (drop pos target) in
      rw (in_base, forward_of)
        (inr (
          omega (arith, length-drop pos target),
          omega (arith, length-drop offset base, leb→le _ _ in_base),
          ap (λ (n : ℕ). take n (drop offset base)) (cancel offset k)
              ∙ e
              ∙ ap (λ (n : ℕ). take n (drop pos target)) (sym (cancel pos k)),
        ))
  | inr outside ↦ rw (outside, forward_of) (inl refl)
]
  where
    cancel : (a k : ℕ) → a + k - a ≡ k
    cancel a k = omega arith

drop-slice :
    (xs : List ℕ) (a b g : ℕ) → a + g ≤ b → drop (b - a - g) (slice xs a b) ≡ slice xs (b - g) b
drop-slice xs a b g h =
    drop-take (b - a - g) (b - a) (drop a xs)
    ∙ ap (take (b - a - (b - a - g))) (drop-drop (b - a - g) a xs)
    ∙ ap (λ (n : ℕ). take n (drop (a + (b - a - g)) xs)) width
    ∙ ap (λ (n : ℕ). take (b - (b - g)) (drop n xs)) place
  where
    width : b - a - (b - a - g) ≡ b - (b - g)
    width = omega arith

    place : a + (b - a - g) ≡ b - g
    place = omega arith

slice_self : (xs ys : List ℕ) (a b : ℕ) → slice xs (a - 0) a ≡ slice ys (b - 0) b
slice_self xs ys a b =
    let p : a - (a - 0) ≡ 0 = omega arith in let q : b - (b - 0) ≡ 0 = omega arith in rw (p, q)

backward_lem :
    (base target : List ℕ) (pending pos offset : ℕ)
    → pending ≤ pos
    → pos ≤ length target
    → (pending + backward_of base (slice target pending pos) offset ≤ pos)
      × (backward_of base (slice target pending pos) offset ≤ offset)
      × (slice base (offset - backward_of base (slice target pending pos) offset) offset
          ≡ slice target (pos - backward_of base (slice target pending pos) offset) pos)
backward_lem base target pending pos offset h k = elim (Bool-cases (leb offset (length base))) [
  | inl in_base ↦
      let g = common_suffix (take offset base) (slice target pending pos) in
      let (hb, ht, e) = common_suffix_lem (take offset base) (slice target pending pos) in
      let base-length : length (take offset base) ≡ offset =
        omega (arith, length-take offset base, leb→le _ _ in_base) in
      let target-length : length (slice target pending pos) ≡ pos - pending =
        length-slice target pending pos h k in
      let g-offset : g ≤ offset = omega arith in
      let g-pos : pending + g ≤ pos = omega arith in
      rw (in_base, backward_of)
        (
          g-pos,
          g-offset,
          sym (drop-take (offset - g) offset base)
              ∙ ap (λ (n : ℕ). drop (n - g) (take offset base)) (sym base-length)
              ∙ e
              ∙ ap (λ (n : ℕ). drop (n - g) (slice target pending pos)) target-length
              ∙ drop-slice target pending pos g g-pos,
        )
  | inr outside ↦
      rw (outside, backward_of) (omega arith, omega arith, slice_self base target offset pos)
]

-- What holds of a match, if there is one.
abbrev pub Holds : (Match → Type 0) → Option Match → Type 0
Holds P none = Unit
Holds P (some m) = P m

module _ (base target : List ℕ) (pending pos : ℕ) (h : pending ≤ pos)
    (k : pos ≤ length target) where
  better_lem :
      (offset : ℕ) (best : Option Match)
      → Holds (IsMatch base target pending pos) best
      → Holds
          (IsMatch base target pending pos)
          (better base (drop pos target) (slice target pending pos) pos offset best)
  unfolding better
  better_lem offset best hb = elim (Bool-cases chosen) [
    | inl chose ↦ rw chose (found (chosen_pos chose) (forward_lem base target pos offset k))
    | inr kept ↦ rw kept hb
  ]
    where
      f : ℕ
      f = forward_of base (drop pos target) offset

      g : ℕ
      g = backward_of base (slice target pending pos) offset

      chosen : Bool
      chosen = ltb 0 f && (leb block (f + g) && is_longer (f + g) best)

      chosen_pos : chosen ≡ true → 0 < f
      chosen_pos e = ground arith

      found :
          0 < f
          → (f ≡ 0)
            ⊎ ((pos + f ≤ length target)
                × (offset + f ≤ length base)
                × (slice base offset (offset + f) ≡ slice target pos (pos + f)))
          → IsMatch base target pending pos
              (record { start = pos - g; base_offset = offset - g; len = f + g })
      found p (inl z) = absurd (omega arith)
      found p (inr (ht, hbase, e)) =
          let (gp, go, e') = backward_lem base target pending pos offset h k in
          let past : pos - g + (f + g) ≡ pos + f = omega arith in
          let past' : offset - g + (f + g) ≡ offset + f = omega arith in
          record {
            from_pending = omega arith;
            to_pos = omega arith;
            past_pos = omega arith;
            in_target = omega arith;
            in_base = omega arith;
            same =
                rw (past, past')
                  (slice-append base (offset - g) offset (offset + f) (omega arith) (omega arith)
                    ∙ ap₂ ◌++◌ e' e
                    ∙ sym
                        (slice-append target (pos - g) pos (pos + f) (omega arith) (omega arith)));
          }

  candidates_lem :
      (rounds : ℕ) (index : BlockIndex) (candidate : ℕ) (best : Option Match)
      → Holds (IsMatch base target pending pos) best
      → Holds (IsMatch base target pending pos) (
          candidates rounds index base
            (drop pos target)
            (slice target pending pos)
            pos
            candidate
            best)
  unfolding candidates
  candidates_lem zero index candidate best hb = hb
  candidates_lem (suc rounds) index candidate best hb =
      elim (Option-cases (get_elem? index.next candidate)) [
        | inl none_there ↦ rw (none_there, Holds) tt
        | inr (next, e) ↦ elim (Bool-cases (next == no_block)) [
          | inl over ↦ rw (e, Holds, over) (better_lem (candidate * block) best hb)
          | inr more ↦
              rw (e, Holds, more)
                (candidates_lem rounds index next _ (better_lem (candidate * block) best hb))
        ]
      ]

  -- A match that the search returns is a run of the target that the base holds, which starts no
  -- earlier than what is not yet emitted, and reaches past `pos`.
  pub best_match_lem :
      (index : BlockIndex) (hash : ℕ)
      → Holds (IsMatch base target pending pos) (best_match index base target pos pending hash)
  unfolding best_match
  best_match_lem index hash =
      rw (le→leb pos (length target) k, Holds, le→leb pending pos h, le→leb pos (length target) k)
        (elim (Option-cases (get_elem? index.head (bucket hash index.mask))) [
          | inl none_there ↦ rw (none_there, Holds) tt
          | inr (candidate, e) ↦
              rw (e, Holds) (candidates_lem max_candidates index candidate none tt)
        ])
