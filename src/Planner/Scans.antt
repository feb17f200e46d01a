-- ===== src/Planner/Scans.antt =====
-- What the three scans of EGAD/gpu_execution_planner.cu count, for the sorted operations.
use native.Mathlib.Decide.{ℕ_discrete}
use egad_code.Prelude.{
  ℕ, zero, suc, ◌+◌, ◌-◌, ◌^◌, ◌≤◌, ◌<◌, ◌≡◌, ◌≢◌, ◌⊎◌, inl, inr, ◌∙◌, refl, ap, Bool, true, false,
  Option, none, some, ◌&&◌, ◌==◌, if◌then◌else◌, arith, Bool-cases,
}
use egad_code.Prelude.Words.{add32}
use egad_code.Planner.{
  Op, Array, Cub, write_op, get_record_id, get_r_w, write_extractor, same_row, sorted_ops,
  write_ops_before, write_ops_after, version_write_extractor, rw_ops_type, tver_write_ops_before,
}

-- An operation writes the record.
abbrev pub writes : Op → ℕ → Bool
writes op r = get_record_id op == r && get_r_w op == write_op

-- The last of the first `i` operations that writes the record.
unfoldable pub last_write : Array Op → ℕ → ℕ → Option ℕ
last_write ops r zero = none
last_write ops r (suc i) = if writes (ops i) r then some i else last_write ops r i

last_write-eq-none :
    (ops : Array Op) (r i : ℕ)
    → ((j : ℕ) → j < i → get_record_id (ops j) ≢ r)
    → last_write ops r i ≡ none
unfolding last_write
last_write-eq-none ops r zero h = refl
last_write-eq-none ops r (suc i) h =
    ground (arith, h i (omega arith), last_write-eq-none ops r i (λ j l. h j (omega arith)))

-- The last write is a write, before `i`.
pub last_write-writes :
    (ops : Array Op) (r i j : ℕ) → last_write ops r i ≡ some j → (j < i) × (writes (ops j) r ≡ true)
unfolding last_write
last_write-writes ops r zero j h = cc
last_write-writes ops r (suc i) j h = ground (arith, last_write-writes ops r i j)

-- No write of the record stands between the last write and `i`.
pub last_write-none_after :
    (ops : Array Op) (r i j k : ℕ)
    → last_write ops r i ≡ some j
    → j < k
    → k < i
    → writes (ops k) r ≡ false
unfolding last_write
last_write-none_after ops r zero j k h p q = absurd (omega arith)
last_write-none_after ops r (suc i) j k h p q = elim (ℕ_discrete k i) [
  | yes e ↦ rw e (ground arith)
  | no ne ↦ ground (arith, last_write-none_after ops r i j k)
]

module _ (cub : Cub) (n : ℕ) (submitted : Array Op) (small : n < 2 ^ 32 - 2) where
  abbrev ops : Array Op
  ops = sorted_ops cub n submitted

  abbrev before : Array ℕ
  before = write_ops_before cub n submitted

  pub ops_sorted : (i j : ℕ) → i ≤ j → j < n → get_record_id (ops i) ≤ get_record_id (ops j)
  unfolding sorted_ops
  ops_sorted = cub.sort_sorted n submitted

  before_zero : 0 < n → before 0 ≡ 0
  unfolding write_ops_before
  before_zero = cub.sum_by_key_zero n ops (λ i. write_extractor (ops i))

  before-suc :
      (i : ℕ)
      → suc i < n
      → before (suc i)
        ≡ (if same_row (ops i) (ops (suc i)) then add32 (before i) (write_extractor (ops i)) else 0)
  unfolding write_ops_before
  before-suc = cub.sum_by_key_suc n ops (λ i. write_extractor (ops i))

  pub before_le : (i : ℕ) → i < n → before i ≤ i
  before_le zero h = omega (arith, before_zero h)
  before_le (suc i) h = ground (arith, before-suc i h, before_le i (omega arith))

  -- The count of writes before an operation tells whether there is a last write before it.
  abbrev Before : ℕ → Type 0
  Before i =
      ((before i ≡ 0) × (last_write ops (get_record_id (ops i)) i ≡ none))
      ⊎ ((0 < before i) × ((j : ℕ) × (last_write ops (get_record_id (ops i)) i ≡ some j)))

  Before-new_row : (i : ℕ) → suc i < n → same_row (ops i) (ops (suc i)) ≡ false → Before (suc i)
  Before-new_row i h e = inl (
    ground (arith, before-suc i h),
    last_write-eq-none ops (get_record_id (ops (suc i))) (suc i) (λ j l.
        ground (
          arith,
          ops_sorted j i (omega arith) (omega arith),
          ops_sorted i (suc i) (omega arith) h,
        )),
  )

  Before-same_row :
      (i : ℕ) → suc i < n → same_row (ops i) (ops (suc i)) ≡ true → Before i → Before (suc i)
  unfolding last_write
  Before-same_row i h e b = elim (Bool-cases (get_r_w (ops i) == write_op)) [
    | inl w ↦ inr (ground (arith, before-suc i h, before_le i (omega arith)), (i, ground arith))
    | inr w ↦ elim b [
      | inl (z, l) ↦ inl (ground (arith, before-suc i h), ground arith)
      | inr (p, (j, l)) ↦
          inr (ground (arith, before-suc i h, before_le i (omega arith)), (j, ground arith))
    ]
  ]

  pub before_lem : (i : ℕ) → i < n → Before i
  unfolding last_write
  before_lem zero h = inl (before_zero h, refl)
  before_lem (suc i) h = elim (Bool-cases (same_row (ops i) (ops (suc i)))) [
    | inl e ↦ Before-same_row i h e (before_lem i (omega arith))
    | inr e ↦ Before-new_row i h e
  ]

  abbrev after : Array ℕ
  after = write_ops_after cub n submitted

  -- The keys of the reversed scan, and its result before the reversal.
  abbrev reversed : Array Op
  reversed k = ops (n - 1 - k)

  abbrev reversed_sum : Array ℕ
  reversed_sum = cub.exclusive_sum_by_key n reversed (λ k. write_extractor (reversed k))

  after_last : (i : ℕ) → suc i ≡ n → after i ≡ 0
  unfolding write_ops_after
  after_last i e =
      ap reversed_sum (omega arith)
      ∙ cub.sum_by_key_zero n reversed (λ k. write_extractor (reversed k)) (omega arith)

  after_step :
      (i : ℕ)
      → suc i < n
      → after i ≡ (
          if same_row (ops (suc i)) (ops i)
          then add32 (after (suc i)) (write_extractor (ops (suc i)))
          else 0)
  unfolding write_ops_after
  after_step i h =
      let k = n - 1 - suc i in
      let next : n - 1 - k ≡ suc i = omega arith in
      let here : n - 1 - suc k ≡ i = omega arith in
      ap reversed_sum {x = n - 1 - i} {y = suc k} (omega arith)
      ∙ cub.sum_by_key_suc n reversed (λ k. write_extractor (reversed k)) k (omega arith)
      ∙ rw (next, here) refl

  after_le : (d i : ℕ) → suc i + d ≡ n → after i ≤ d
  after_le zero i h = omega (arith, after_last i (omega arith))
  after_le (suc d) i h =
      ground (arith, after_step i (omega arith), after_le d (suc i) (omega arith))

  -- The count of writes after an operation tells whether a later write of its record exists.
  abbrev pub After : ℕ → Type 0
  After i =
      ((after i ≡ 0) × ((k : ℕ) → i < k → k < n → writes (ops k) (get_record_id (ops i)) ≡ false))
      ⊎ ((0 < after i)
          × ((k : ℕ) × (i < k) × (k < n) × (writes (ops k) (get_record_id (ops i)) ≡ true)))

  after_new_row : (i : ℕ) → suc i < n → same_row (ops (suc i)) (ops i) ≡ false → After i
  after_new_row i h e = inl (
    ground (arith, after_step i h),
    λ k p q.
        ground (arith, ops_sorted i (suc i) (omega arith) h, ops_sorted (suc i) k (omega arith) q),
  )

  after_same_row :
      (i : ℕ) → suc i < n → same_row (ops (suc i)) (ops i) ≡ true → After (suc i) → After i
  after_same_row i h e a = elim (Bool-cases (get_r_w (ops (suc i)) == write_op)) [
    | inl w ↦ inr (
      ground (arith, after_step i h, after_le (n - 1 - suc i) (suc i) (omega arith)),
      (suc i, omega arith, h, ground arith),
    )
    | inr w ↦ elim a [
      | inl (z, l) ↦ inl (
        ground (arith, after_step i h),
        λ k p q. elim (ℕ_discrete k (suc i)) [
          | yes same ↦ rw same (ground arith)
          | no ne ↦ ground (arith, l k (omega arith) q)
        ],
      )
      | inr (p, (k, l, m, w')) ↦ inr (
        ground (arith, after_step i h, after_le (n - 1 - suc i) (suc i) (omega arith)),
        (k, omega arith, m, ground arith),
      )
    ]
  ]

  pub after_lem : (d i : ℕ) → suc i + d ≡ n → After i
  after_lem zero i h = inl (after_last i (omega arith), λ k p q. absurd (omega arith))
  after_lem (suc d) i h = elim (Bool-cases (same_row (ops (suc i)) (ops i))) [
    | inl e ↦ after_same_row i (omega arith) e (after_lem d (suc i) (omega arith))
    | inr e ↦ after_new_row i (omega arith) e
  ]

  abbrev pub versions_before : Array ℕ
  versions_before = tver_write_ops_before cub n submitted

  abbrev pub version_writes : Array ℕ
  version_writes i = version_write_extractor (rw_ops_type cub n submitted i)

  version_write_le_one : (i : ℕ) → version_writes i ≤ 1
  unfolding version_write_extractor
  version_write_le_one i = ground arith

  versions_zero : 0 < n → versions_before 0 ≡ 0
  unfolding tver_write_ops_before
  versions_zero = cub.sum_zero n version_writes

  pub versions_le : (i : ℕ) → i < n → versions_before i ≤ i
  unfolding tver_write_ops_before
  versions_le zero h = omega (arith, versions_zero h)
  versions_le (suc i) h =
      omega (
        arith,
        cub.sum_suc n version_writes i h,
        version_write_le_one i,
        versions_le i (omega arith),
      )

  -- Each scratch version written counts one.
  pub versions_step :
      (i : ℕ) → suc i < n → versions_before (suc i) ≡ versions_before i + version_writes i
  unfolding tver_write_ops_before
  versions_step i h =
      omega (
        arith,
        cub.sum_suc n version_writes i h,
        version_write_le_one i,
        versions_le i (omega arith),
      )

  pub versions_mono : (i j : ℕ) → i ≤ j → j < n → versions_before i ≤ versions_before j
  versions_mono i zero p h = let e : i ≡ 0 = omega arith in rw e (omega arith)
  versions_mono i (suc j) p h = elim (ℕ_discrete i (suc j)) [
    | yes e ↦ rw e (omega arith)
    | no ne ↦ omega (arith, versions_step j h, versions_mono i j (omega arith) (omega arith))
  ]

  pub versions_const :
      (i j : ℕ)
      → i ≤ j
      → j < n
      → ((k : ℕ) → i ≤ k → k < j → version_writes k ≡ 0)
      → versions_before j ≡ versions_before i
  versions_const i zero p h z = let e : i ≡ 0 = omega arith in rw e
  versions_const i (suc j) p h z = elim (ℕ_discrete i (suc j)) [
    | yes e ↦ rw e
    | no ne ↦ omega (
      arith,
      versions_step j h,
      z j (omega arith) (omega arith),
      versions_const i j (omega arith) (omega arith) (λ k l m. z k l (omega arith)),
    )
  ]
