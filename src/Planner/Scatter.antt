-- ===== src/Planner/Scatter.antt =====
-- The plan that EGAD/gpu_execution_planner.cu leaves for the transactions.
use native.Mathlib.Decide.{ℕ_discrete}
use egad_code.Prelude.{ℕ, zero, suc, ◌<◌, ◌≡◌, ◌≢◌, refl, arith}
use egad_code.Planner.{
  Op, Array, Cub, ExecPlan, get_txn_id, get_offset, scatter_rw_location, sorted_ops, rw_locations,
  initialize_execution_plan,
}

-- Every submitted operation has a place of its own in the plans.
pub record IsDistinct (n : ℕ) (submitted : Array Op) : Type 0 where
  pub distinct :
      (i j : ℕ)
      → i < n
      → j < n
      → get_txn_id (submitted i) ≡ get_txn_id (submitted j)
      → get_offset (submitted i) ≡ get_offset (submitted j)
      → i ≡ j

scatter-keeps :
    (sorted : Array Op) (locations : Array ℕ) (n : ℕ) (plan : ExecPlan) (t o : ℕ)
    → ((j : ℕ) → j < n → get_txn_id (sorted j) ≡ t → get_offset (sorted j) ≢ o)
    → scatter_rw_location sorted locations n plan t o ≡ plan t o
unfolding scatter_rw_location
scatter-keeps sorted locations zero plan t o h = refl
scatter-keeps sorted locations (suc n) plan t o h =
    ground (
      arith,
      h n (omega arith),
      scatter-keeps sorted locations n plan t o (λ j l. h j (omega arith)),
    )

scatter-lookup :
    (sorted : Array Op) (locations : Array ℕ) (n : ℕ) (plan : ExecPlan) (i : ℕ)
    → i < n
    → ((j : ℕ)
        → j < n
        → get_txn_id (sorted j) ≡ get_txn_id (sorted i)
        → get_offset (sorted j) ≡ get_offset (sorted i)
        → j ≡ i)
    → scatter_rw_location sorted locations n plan (get_txn_id (sorted i)) (get_offset (sorted i))
      ≡ locations i
unfolding scatter_rw_location
scatter-lookup sorted locations zero plan i l h = absurd (omega arith)
scatter-lookup sorted locations (suc n) plan i l h = elim (ℕ_discrete i n) [
  | yes e ↦ rw e (ground arith)
  | no ne ↦ ground (
    arith,
    h n (omega arith),
    scatter-lookup sorted locations n plan i (omega arith) (λ j k. h j (omega arith)),
  )
]

module _ (cub : Cub) (n : ℕ) (submitted : Array Op) (d : IsDistinct n submitted) where
  sorted_distinct :
      (i j : ℕ)
      → i < n
      → j < n
      → get_txn_id (sorted_ops cub n submitted i) ≡ get_txn_id (sorted_ops cub n submitted j)
      → get_offset (sorted_ops cub n submitted i) ≡ get_offset (sorted_ops cub n submitted j)
      → i ≡ j
  unfolding sorted_ops
  sorted_distinct i j p q t o =
      let ei = cub.sort-origin n submitted i p in
      let ej = cub.sort-origin n submitted j q in
      cub.origin_injective n submitted i j p q (
        d.distinct (cub.origin n submitted i) (cub.origin n submitted j)
          (cub.origin_lt n submitted i p) (cub.origin_lt n submitted j q) (rw (← ei, ← ej) t)
          (rw (← ei, ← ej) o))

  pub planned_location :
      (plan : ExecPlan) (i : ℕ)
      → i < n
      → initialize_execution_plan cub n submitted plan
          (get_txn_id (sorted_ops cub n submitted i))
          (get_offset (sorted_ops cub n submitted i))
        ≡ rw_locations cub n submitted i
  unfolding initialize_execution_plan
  planned_location plan i h = ground (
    arith,
    scatter-lookup (sorted_ops cub n submitted) (rw_locations cub n submitted) n plan i h
        (λ j l. sorted_distinct j i l h),
  )

  -- Where no two operations have the same transaction and offset: after the planner has run, a
  -- transaction finds at the offset of each of its operations the location that was computed
  -- for that operation; a place that no operation names keeps its content.
  pub initialize_execution_plan-lookup :
      (plan : ExecPlan) (i t o : ℕ)
      → i < n
      → ((j : ℕ)
          → j < n
          → get_txn_id (sorted_ops cub n submitted j) ≡ t
          → get_offset (sorted_ops cub n submitted j) ≢ o)
      → (initialize_execution_plan cub n submitted plan
            (get_txn_id (sorted_ops cub n submitted i))
            (get_offset (sorted_ops cub n submitted i))
          ≡ rw_locations cub n submitted i)
        × (initialize_execution_plan cub n submitted plan t o ≡ plan t o)
  unfolding initialize_execution_plan
  initialize_execution_plan-lookup plan i t o h free = (
    planned_location plan i h,
    ground (
      arith,
      scatter-keeps (sorted_ops cub n submitted) (rw_locations cub n submitted) n plan t o free,
    ),
  )
