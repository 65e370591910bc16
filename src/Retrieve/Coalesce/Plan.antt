-- ===== src/Retrieve/Coalesce/Plan.antt =====
-- The plan takes live and small segments, lays them end to end, and stays within the policy.
use enroute.Prelude.{
  ℕ, suc, ◌+◌, ◌≤◌, ◌<◌, ◌≡◌, refl, true, false, ◌||◌, some, Bool-cases, inl, inr, List, [], ◌∷◌,
  get_elem?, ltb, leb, ltb→lt, All, arith,
}
use enroute.Prelude.Sets.{has}
use enroute.Retrieve.Coalesce.{
  CoalescePolicy, Source, u64_max, add64, small_of, comes_before, insert_segment, sort_segments,
  take_run, plan_sources,
}

-- Sources end to end from an offset on, within a policy's limits.
unfoldable pub IsLaid : CoalescePolicy → ℕ → ℕ → List Source → Type 0
IsLaid policy taken shift [] = Unit {0}
IsLaid policy taken shift (s ∷ sources) =
    (s.shift ≡ shift)
    × (taken < policy.max_inputs)
    × (shift + s.bytes ≤ policy.max_output_bytes)
    × IsLaid policy (taken + 1) (shift + s.bytes) sources

-- What is copied: a listed segment that a row still names and that is small.
pub record IsSmall (listed : List (ℕ × ℕ)) (live : List ℕ) (policy : CoalescePolicy) (one : ℕ × ℕ)
    : Type 0 where
  pub at : ℕ
  pub is_listed : get_elem? listed at ≡ some one
  pub is_live : has live one.0 ≡ true
  pub is_small : one.1 < policy.small_bytes

module _ (P : ℕ × ℕ → Type 0) where
  All-insert_segment :
      (one : ℕ × ℕ) (rest : List (ℕ × ℕ)) → P one → All P rest → All P (insert_segment one rest)
  unfolding insert_segment
  All-insert_segment one [] p h = (p, tt)
  All-insert_segment one (first ∷ rest) p h = elim (Bool-cases (comes_before first one)) [
    | inl q ↦ rw q (h.0, All-insert_segment one rest p h.1)
    | inr q ↦ rw q (p, h)
  ]

  All-sort_segments : (small : List (ℕ × ℕ)) → All P small → All P (sort_segments small)
  unfolding sort_segments
  All-sort_segments [] h = tt
  All-sort_segments (one ∷ rest) h =
      All-insert_segment one (sort_segments rest) h.0 (All-sort_segments rest h.1)

  All-take_run :
      (small : List (ℕ × ℕ)) (policy : CoalescePolicy) (taken shift : ℕ)
      → All P small
      → All (λ s. P (s.id, s.bytes)) (take_run policy taken shift small)
  unfolding take_run
  All-take_run [] policy taken shift h = tt
  All-take_run (one ∷ small) policy taken shift h =
      elim (Bool-cases
        (leb policy.max_inputs taken || ltb policy.max_output_bytes (add64 shift one.1))) [
          | inl q ↦ rw q tt
          | inr q ↦ rw q (h.0, All-take_run small policy (taken + 1) (add64 shift one.1) h.1)
        ]

  All-small_of :
      (listed : List (ℕ × ℕ)) (live : List ℕ) (policy : CoalescePolicy)
      → ((i : ℕ) (one : ℕ × ℕ)
          → get_elem? listed i ≡ some one
          → has live one.0 ≡ true
          → one.1 < policy.small_bytes
          → P one)
      → All P (small_of listed live policy)
  unfolding small_of
  All-small_of [] live policy h = tt
  All-small_of (one ∷ listed) live policy h = elim (Bool-cases (has live one.0)) [
    | inr q ↦ rw q (All-small_of listed live policy (λ i. h (suc i)))
    | inl q ↦ elim (Bool-cases (ltb one.1 policy.small_bytes)) [
      | inr r ↦ rw (q, r) (All-small_of listed live policy (λ i. h (suc i)))
      | inl r ↦
          rw (q, r)
            (
              h 0 one refl q (ltb→lt one.1 policy.small_bytes r),
              All-small_of listed live policy (λ i. h (suc i)),
            )
    ]
  ]

-- A source that is taken is within the limits, and none before it has filled a `u64`.
taken_within :
    (policy : CoalescePolicy) (taken shift bytes : ℕ)
    → policy.max_output_bytes < u64_max
    → (leb policy.max_inputs taken || ltb policy.max_output_bytes (add64 shift bytes)) ≡ false
    → (taken < policy.max_inputs)
      × (shift + bytes ≤ policy.max_output_bytes)
      × (add64 shift bytes ≡ shift + bytes)
unfolding add64
taken_within policy taken shift bytes u h = (ground arith, ground arith, ground arith)

take_run-IsLaid :
    (small : List (ℕ × ℕ)) (policy : CoalescePolicy) (taken shift : ℕ)
    → policy.max_output_bytes < u64_max
    → IsLaid policy taken shift (take_run policy taken shift small)
unfolding take_run IsLaid
take_run-IsLaid [] policy taken shift u = tt
take_run-IsLaid (one ∷ small) policy taken shift u =
    elim (Bool-cases
      (leb policy.max_inputs taken || ltb policy.max_output_bytes (add64 shift one.1))) [
        | inl q ↦ rw q tt
        | inr q ↦
            let w = taken_within policy taken shift one.1 u q in
            rw (q, w.2) (refl, w.0, w.1, take_run-IsLaid small policy (taken + 1) (shift + one.1) u)
      ]

-- Under a policy whose largest output is below 2 ^ 64 - 1 bytes, the segments that a plan takes are
-- listed, live and small, lie end to end from 0 on, and are no more and no larger together than the
-- policy allows.
pub plan_sources-IsLaid :
    (listed : List (ℕ × ℕ)) (live : List ℕ) (policy : CoalescePolicy)
    → policy.max_output_bytes < u64_max
    → IsLaid policy 0 0 (plan_sources listed live policy)
      × All (λ s. IsSmall listed live policy (s.id, s.bytes)) (plan_sources listed live policy)
unfolding plan_sources
plan_sources-IsLaid listed live policy u = (
  take_run-IsLaid (sort_segments (small_of listed live policy)) policy 0 0 u,
  All-take_run (IsSmall listed live policy) (sort_segments (small_of listed live policy)) policy 0 0
      (All-sort_segments (IsSmall listed live policy) (small_of listed live policy) (
        All-small_of (IsSmall listed live policy) listed live policy
          (λ i one g l b. record { at = i; is_listed = g; is_live = l; is_small = b }))),
)
