-- ===== src/Lattice/Plan/Runs.antt =====
-- What the runs of a tier are.
use enroute.Prelude.{
  ℕ, suc, ◌≤◌, ◌≡◌, refl, sym, ap, ◌∙◌, ◌⊎◌, inl, inr, max, true, false, List, [], ◌∷◌, ◌++◌,
  append_assoc, append-nil, leb, length, length-append, All, Bool-cases, leb→le, arith,
}
use enroute.Lattice.Plan.{Placement, Policy, plus, is_full, size_at, runs_loop, runs}

-- The size of a run, summed in its order without exceeding a `u64`.
unfoldable pub weight : List Placement → List ℕ → ℕ → ℕ
weight placements [] so_far = so_far
weight placements (index ∷ run) so_far =
    weight placements run (plus so_far (size_at placements index))

weight-snoc :
    (placements : List Placement) (run : List ℕ) (index so_far : ℕ)
    → weight placements (run ++ (index ∷ [])) so_far
      ≡ plus (weight placements run so_far) (size_at placements index)
unfolding weight
weight-snoc placements [] index so_far = refl
weight-snoc placements (i ∷ run) index so_far =
    weight-snoc placements run index (plus so_far (size_at placements i))

-- What one merge takes on: two segments at least, `max_inputs` at most, and only two if together they
-- are larger than `max_input_bytes`.
pub record IsRun (placements : List Placement) (policy : Policy) (run : List ℕ) : Type 0 where
  pub many : 2 ≤ length run
  pub bounded : length run ≤ max policy.max_inputs 2
  pub light : (length run ≤ 2) ⊎ (weight placements run 0 ≤ policy.max_input_bytes)

-- A run that is still open.
record IsOpen (placements : List Placement) (policy : Policy) (run : List ℕ) (bytes : ℕ)
    : Type 0 where
  bounded : length run ≤ max policy.max_inputs 2
  light : (length run ≤ 2) ⊎ (weight placements run 0 ≤ policy.max_input_bytes)
  weighed : bytes ≡ weight placements run 0

unfoldable pub concat : List (List ℕ) → List ℕ
concat [] = []
concat (xs ∷ xss) = xs ++ concat xss

full_many : (policy : Policy) (n bytes size : ℕ) → is_full policy n bytes size ≡ true → 2 ≤ n
unfolding is_full
full_many policy n bytes size h = ground arith

open_bounded :
    (policy : Policy) (n bytes size : ℕ)
    → is_full policy n bytes size ≡ false
    → suc n ≤ max policy.max_inputs 2
unfolding is_full
open_bounded policy n bytes size h = ground arith

open_light :
    (policy : Policy) (n bytes size : ℕ)
    → is_full policy n bytes size ≡ false
    → (suc n ≤ 2) ⊎ (plus bytes size ≤ policy.max_input_bytes)
unfolding is_full
open_light policy n bytes size h = ground arith

-- A run that is full is one, and the next begins with the segment that did not fit.
IsOpen-begin :
    (placements : List Placement) (policy : Policy) (index : ℕ)
    → IsOpen placements policy (index ∷ []) (plus 0 (size_at placements index))
unfolding weight
IsOpen-begin placements policy index = record {
  bounded = omega arith;
  light = inl (omega arith);
  weighed = refl;
}

IsOpen-grow :
    (placements : List Placement) (policy : Policy) (run : List ℕ) (bytes index : ℕ)
    → IsOpen placements policy run bytes
    → is_full policy (length run) bytes (size_at placements index) ≡ false
    → IsOpen placements policy (run ++ (index ∷ [])) (plus bytes (size_at placements index))
IsOpen-grow placements policy run bytes index o h = record {
  bounded = omega (
    arith,
    open_bounded policy (length run) bytes (size_at placements index) h,
    length-append run (index ∷ []),
  );
  light = ground (
    arith,
    open_light policy (length run) bytes (size_at placements index) h,
    length-append run (index ∷ []),
    weight-snoc placements run index 0,
  );
  weighed = rw (weight-snoc placements run index 0, o.weighed) refl;
}

loop_IsRun :
    (placements : List Placement) (policy : Policy) (indices run : List ℕ) (bytes : ℕ)
    → IsOpen placements policy run bytes
    → All (IsRun placements policy) (runs_loop placements policy indices run bytes)
unfolding runs_loop
loop_IsRun placements policy [] run bytes o = elim (Bool-cases (leb 2 (length run))) [
  | inl h ↦
      rw h (record { many = leb→le 2 (length run) h; bounded = o.bounded; light = o.light }, tt)
  | inr h ↦ rw h tt
]
loop_IsRun placements policy (index ∷ indices) run bytes o =
    elim (Bool-cases (is_full policy (length run) bytes (size_at placements index))) [
      | inl h ↦ rw h (
        record {
          many = full_many policy (length run) bytes (size_at placements index) h;
          bounded = o.bounded;
          light = o.light;
        },
        loop_IsRun placements policy indices (index ∷ []) (plus 0 (size_at placements index))
            (IsOpen-begin placements policy index),
      )
      | inr h ↦ rw h (
          loop_IsRun placements policy indices (run ++ (index ∷ []))
            (plus bytes (size_at placements index))
            (IsOpen-grow placements policy run bytes index o h))
    ]

nothing : (placements : List Placement) → 0 ≡ weight placements [] 0
unfolding weight
nothing placements = refl

-- Every run takes at least two segments and at most `max_inputs` (or two, if that is less), and more
-- than two only if together they are no larger than `max_input_bytes`.
pub runs-IsRun :
    (indices : List ℕ) (placements : List Placement) (policy : Policy)
    → All (IsRun placements policy) (runs indices placements policy)
unfolding runs
runs-IsRun indices placements policy =
    loop_IsRun placements policy indices [] 0
      (record { bounded = omega arith; light = inl (omega arith); weighed = nothing placements })

loop_covers :
    (placements : List Placement) (policy : Policy) (indices run : List ℕ) (bytes : ℕ)
    → (dropped : List ℕ) × (concat (runs_loop placements policy indices run bytes) ++ dropped
        ≡ run ++ indices)
      × (length dropped ≤ 1)
unfolding runs_loop concat
loop_covers placements policy [] run bytes = elim (Bool-cases (leb 2 (length run))) [
  | inl h ↦ rw h ([], append-nil (run ++ []), omega arith)
  | inr h ↦ rw h (run, sym (append-nil run), ground arith)
]
loop_covers placements policy (index ∷ indices) run bytes =
    elim (Bool-cases (is_full policy (length run) bytes (size_at placements index))) [
      | inl h ↦ rw h (
          closed (
            loop_covers placements policy indices (index ∷ []) (plus 0 (size_at placements index))))
      | inr h ↦ rw h (
          kept (
            loop_covers placements policy indices (run ++ (index ∷ []))
              (plus bytes (size_at placements index))))
    ]
  where
    closed :
        (rest : (dropped : List ℕ) × (concat (
                runs_loop placements policy indices
                  (index ∷ [])
                  (plus 0 (size_at placements index)))
              ++ dropped
            ≡ (index ∷ []) ++ indices)
          × (length dropped ≤ 1))
        → (dropped : List ℕ) × ((run
                ++ concat (
                    runs_loop placements policy indices
                      (index ∷ [])
                      (plus 0 (size_at placements index))))
              ++ dropped
            ≡ run ++ (index ∷ indices))
          × (length dropped ≤ 1)
    closed (dropped, e, h) = (dropped, append_assoc run _ dropped ∙ ap (λ xs. run ++ xs) e, h)

    kept :
        (rest : (dropped : List ℕ) × (concat (
                runs_loop placements policy indices
                  (run ++ (index ∷ []))
                  (plus bytes (size_at placements index)))
              ++ dropped
            ≡ (run ++ (index ∷ [])) ++ indices)
          × (length dropped ≤ 1))
        → (dropped : List ℕ) × (concat (
                runs_loop placements policy indices
                  (run ++ (index ∷ []))
                  (plus bytes (size_at placements index)))
              ++ dropped
            ≡ run ++ (index ∷ indices))
          × (length dropped ≤ 1)
    kept (dropped, e, h) = (dropped, e ∙ append_assoc run (index ∷ []) indices, h)

-- The runs are the indices in their order, each in one run, but for at most one that is left at the
-- end.
pub runs-covers :
    (indices : List ℕ) (placements : List Placement) (policy : Policy)
    → (dropped : List ℕ) × (concat (runs indices placements policy) ++ dropped ≡ indices)
      × (length dropped ≤ 1)
unfolding runs
runs-covers indices placements policy = loop_covers placements policy indices [] 0
