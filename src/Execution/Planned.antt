-- ===== src/Execution/Planned.antt =====
-- An epoch that runs by the plan of EGAD/gpu_execution_planner.cu on the tables of
-- EGAD/gpu_storage.cuh.
use native.Mathlib.Decide.{ℕ_discrete, dec_lt}
use egad_code.Prelude.{
  ℕ, suc, ◌-◌, ◌^◌, ◌<◌, ◌≡◌, refl, sym, ◌∙◌, true, false, Option, some, List, ◌==◌, arith, All,
  inl, inr,
}
use egad_code.Storage.{
  Table, loc_record_a, loc_record_b, read_from_table, select_write, target_version, target_value,
}
use egad_code.Planner.{
  Op, Array, Cub, ExecPlan, write_op, get_record_id, get_r_w, get_txn_id, get_offset, sorted_ops,
  rw_locations, initialize_execution_plan,
}
use egad_code.Planner.Scans.{last_write, last_write-writes}
use egad_code.Planner.Locations.{
  read_location, write_b_unique, write_version_unique, write_not_a, last_write-record_b,
}
use egad_code.Planner.Scatter.{IsDistinct, planned_location}
use egad_code.Execution.{Batch, State, read_done, published, Step, Reach, start}
use egad_code.Execution.Serial.{expected, IsSerial, IsPlanned, IsQuiet}
use egad_code.Execution.Invariant.{Inv, cell, start-Inv}
use egad_code.Execution.Steps.{Reach-Inv}
use egad_code.Execution.Progress.{finished, IsOrder, progress_below}

module _ {A : Type 0} (cub : Cub) (n : ℕ) (submitted : Array Op) (plan : ExecPlan) (epoch : ℕ)
    (inputs : ℕ → List ℕ) (compute : ℕ → List A → A) (untouched : ℕ → A) where
  abbrev pub op : Array Op
  op = sorted_ops cub n submitted

  -- The operations in sorted order, each with the location that its transaction finds in the plan.
  abbrev pub planned_batch : Batch A
  planned_batch = record {
    size = n;
    row = λ i. get_record_id (op i);
    is_write = λ i. get_r_w (op i) == write_op;
    loc =
        λ i. initialize_execution_plan cub n submitted plan (get_txn_id (op i)) (get_offset (op i));
    inputs = inputs;
    compute = compute;
    untouched = untouched;
    epoch = epoch;
  }

  -- The last write of the same record before the operation.
  abbrev pub source : ℕ → Option ℕ
  source i = last_write op (get_record_id (op i)) i

  -- The inputs of every write are reads of the batch that were submitted before it.
  pub record IsSubmittedInOrder : Type 0 where
    pub before_use :
        (i : ℕ)
        → i < n
        → planned_batch.is_write i ≡ true
        → All
            (λ k.
              (k < n)
              × (planned_batch.is_write k ≡ false)
              × (cub.origin n submitted k < cub.origin n submitted i))
            (inputs i)

  planned_batch-IsOrder : IsSubmittedInOrder → IsOrder planned_batch source (cub.origin n submitted)
  unfolding sorted_ops
  planned_batch-IsOrder o = record {
    after_source = λ i j l e.
        let w = last_write-writes op (get_record_id (op i)) i j e in
        cub.origin_stable n submitted j i w.0 l (ground arith);
    after_inputs = o.before_use;
  }

  module _ (small : n < 2 ^ 32 - 2) (distinct : IsDistinct n submitted) where
    at : (i : ℕ) → i < n → planned_batch.loc i ≡ rw_locations cub n submitted i
    at = planned_location cub n submitted distinct plan

    writes_apart :
        (i j : ℕ)
        → i < j
        → j < n
        → planned_batch.is_write i ≡ true
        → planned_batch.is_write j ≡ true
        → planned_batch.loc i ≡ planned_batch.loc j
        → (planned_batch.loc i ≡ loc_record_b → planned_batch.row i ≡ planned_batch.row j)
        → ⊥
    writes_apart i j l h wi wj e same =
        elim (ℕ_discrete (rw_locations cub n submitted i) loc_record_b) [
          | yes b ↦
              write_b_unique cub n submitted small i j l h wi wj (same (at i (omega arith) ∙ b)) b
          | no nb ↦
              write_version_unique cub n submitted small i j l h wi wj nb
                (sym (at i (omega arith)) ∙ e ∙ at j h)
        ]

    -- The plan meets the conditions under which every interleaving agrees with the serial order.
    pub planned_batch-IsPlanned : IsPlanned planned_batch source
    planned_batch-IsPlanned = record {
      reads_old = λ i l r a. elim (read_location cub n submitted small i l r) [
        | inl (e, s) ↦ s
        | inr (j, s, e, na) ↦ absurd (na (sym (at i l) ∙ a))
      ];
      reads_new = λ i l r na. elim (read_location cub n submitted small i l r) [
        | inl (e, s) ↦ absurd (na (at i l ∙ e))
        | inr (j, s, e, na') ↦
            let w = last_write-writes op (get_record_id (op i)) i j s in
            (j, s, omega arith, ground arith, ground arith, at j (omega arith) ∙ e ∙ sym (at i l))
      ];
      writes_new = λ i l w a. write_not_a cub n submitted small i l w (sym (at i l) ∙ a);
      apart = λ i j li lj wi wj e same. elim (dec_lt i j) [
        | yes p ↦ absurd (writes_apart i j p lj wi wj e same)
        | no np ↦ elim (dec_lt j i) [
          | yes q ↦ absurd (writes_apart j i q li wj wi (sym e) (λ b. sym (same (e ∙ b))))
          | no nq ↦ omega arith
        ]
      ];
    }

    module _ (t₀ : Table A) (vals : ℕ → A) (quiet : IsQuiet t₀ epoch)
        (serial : IsSerial planned_batch t₀ source vals) {s : State A}
        (run : Reach planned_batch (start planned_batch t₀) s) where
      reached : Inv planned_batch t₀ source vals s
      reached =
          Reach-Inv planned_batch t₀ source vals quiet planned_batch-IsPlanned serial
            (start-Inv planned_batch t₀ source vals quiet) run

      -- In an epoch of fewer than `2 ^ 32 - 2` operations, no two with the same transaction and
      -- offset, run on a table with no version of the epoch: in every interleaving of the plan
      -- of `initialize_execution_plan`, a read that has finished gave the value that it gives
      -- in the serial execution. That is the serial value of the last write of its record
      -- before it in the sorted order, or without one the record's latest value from before the
      -- epoch; and for the record 0xffffffff what the caller's result held.
      pub reads_serial :
          (i : ℕ) (v : A) → s.status i ≡ read_done v → v ≡ expected planned_batch t₀ source vals i
      reads_serial i v e = (reached.done_with i v e).1

      -- In an epoch of fewer than `2 ^ 32 - 2` operations, no two with the same transaction and
      -- offset, run on a table with no version of the epoch: once the last write of a record in
      -- the batch is published, a read of record A in every later epoch gives that write's
      -- serial value.
      pub commits_serial :
          (r j later : ℕ)
          → last_write op r n ≡ some j
          → s.status j ≡ published
          → epoch < later
          → read_from_table s.table r loc_record_a later ≡ some (vals j)
      unfolding read_from_table cell target_version target_value select_write
      commits_serial r j later e p h =
          let (lt, w) = last_write-writes op r n j e in
          let row : planned_batch.row j ≡ r = ground arith in
          let write : planned_batch.is_write j ≡ true = ground arith in
          let place = at j lt ∙ last_write-record_b cub n submitted small r j e in
          let (_, _, version) = reached.published_at j p in
          let value = reached.new_values j lt write (rw p refl) in
          ground (arith, reached.rows r, quiet.rows_before r)

      -- In an epoch of fewer than `2 ^ 32 - 2` operations, no two with the same transaction and
      -- offset, run on a table with no version of the epoch: while an operation has not
      -- finished, some thread can take a step, if the inputs of every write are reads that were
      -- submitted before it.
      pub no_deadlock :
          (i : ℕ)
          → i < n
          → finished (s.status i) ≡ false
          → IsSubmittedInOrder
          → (s' : State A) × Step planned_batch s s'
      no_deadlock i l u ordered =
          progress_below planned_batch t₀ source vals (cub.origin n submitted)
            planned_batch-IsPlanned (planned_batch-IsOrder ordered) (suc (cub.origin n submitted i))
            s i reached (omega arith) l u
