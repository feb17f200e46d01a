-- ===== src/Tests/Epochs.antt =====
-- An epoch of two operations on record 5, a write of 7 and a read: the planner of
-- EGAD/gpu_execution_planner.cu and the execution of EGAD/gpu_storage.cuh on it.
use egad_code.Prelude.{
  ℕ, zero, suc, ◌-◌, ◌^◌, ◌≡◌, ◌≢◌, ◌<◌, ◌⊎◌, refl, List, [], Option, none, some, ◌==◌,
  if◌then◌else◌, arith, true, false,
}
use egad_code.Prelude.Words.{absent}
use egad_code.Storage.{
  write_target, read_target, target_value, select_a, select_b, select_write, poll, update,
  set_value, set_version, target_version, Target, Table, loc_record_a, loc_record_b, in_record,
  second, read_from_table,
}
use egad_code.Planner.{
  scatter_rw_location, rw_location, rw_ops_type, calc_operation_type, write_ops_after,
  write_ops_before, tver_write_ops_before, version_write_extractor, Op, Array, ExecPlan, create_op,
  get_record_id, get_txn_id, get_offset, get_r_w, sorted_ops, rw_locations,
  initialize_execution_plan,
}
use egad_code.Planner.Encoding.{Fits, get-create_op}
use egad_code.Planner.Scans.{last_write}
use egad_code.Planner.Locations.{op, row, loc, read_location, write_version_unique}
use egad_code.Planner.Scatter.{IsDistinct, initialize_execution_plan-lookup}
use egad_code.Execution.{
  collect, Batch, State, spinning, stored, read_done, published, Step, Reach, here, next, start,
  pick, copy, store, publish, idle, enter_read, enter_write, reads, writes, aim, entered, writing,
}
use egad_code.Execution.Serial.{IsSerial, IsQuiet, expected}
use egad_code.Execution.Planned.{
  planned_batch, source, IsSubmittedInOrder, reads_serial, commits_serial, no_deadlock,
}
use egad_code.Tests.Radix.{radix}

abbrev submitted : Array Op
submitted i = if i == 0 then 0x0000000500000800 else 0x0000000500001000

submitted_words : (submitted 0 ≡ create_op 5 0 1 0) × (submitted 1 ≡ create_op 5 1 0 0)
unfolding create_op
submitted_words = (refl, refl)

fits_example : Fits 5 0 1 0
fits_example = record {
  record_fits = omega arith;
  txn_fits = omega arith;
  r_w_fits = omega arith;
  offset_fits = omega arith;
}

get-create_op_example :
    let op = create_op 5 0 1 0 in
    (get_record_id op ≡ 5) × (get_txn_id op ≡ 0) × (get_r_w op ≡ 1) × (get_offset op ≡ 0)
get-create_op_example = get-create_op fits_example

places_apart :
    (i j : ℕ) → i < 2 → j < 2 → get_txn_id (submitted i) ≡ get_txn_id (submitted j) → i ≡ j
unfolding get_txn_id
places_apart zero zero p q e = refl
places_apart zero (suc zero) p q e = absurd (omega arith)
places_apart (suc zero) zero p q e = absurd (omega arith)
places_apart (suc zero) (suc zero) p q e = refl
places_apart (suc (suc i)) j p q e = absurd (omega arith)
places_apart i (suc (suc j)) p q e = absurd (omega arith)

distinct : IsDistinct 2 submitted
distinct = record { distinct = λ i j p q e o. places_apart i j p q e }

abbrev no_plan : ExecPlan
no_plan t o = 0

abbrev table : Table ℕ
table = record {
  records = λ r. record { version1 = 0; version2 = 0; value1 = 3; value2 = 0 };
  versions = λ v. record { version = 0; value = 0 };
}

abbrev no_inputs : ℕ → List ℕ
no_inputs i = []

abbrev seven : ℕ → List ℕ → ℕ
seven i vs = 7

abbrev zeros : ℕ → ℕ
zeros i = 0

abbrev values : ℕ → ℕ
values i = 7

quiet : IsQuiet table 1
quiet = record {
  rows_before = λ r. record { before1 = omega arith; before2 = omega arith };
  versions_before = λ l. omega arith;
}

abbrev batch : Batch ℕ
batch = planned_batch radix 2 submitted no_plan 1 no_inputs seven zeros

abbrev sources : ℕ → Option ℕ
sources = source radix 2 submitted no_plan 1 no_inputs seven zeros

serial : IsSerial batch table sources values
serial = record { computed = λ i l w. refl }

-- The states of a run: the write loads the versions, stores its value and publishes it, then the
-- read loads the versions and copies.
abbrev slot : Target
slot = in_record second

abbrev one_stored : State ℕ
one_stored = record {
  table = set_value table 5 slot 7;
  status = update (update (update (λ i. idle) 0 (entered 0)) 0 (writing slot 7)) 0 (stored slot);
}

abbrev one_published : State ℕ
one_published = record {
  table = set_version one_stored.table 5 slot 1;
  status = update one_stored.status 0 published;
}

abbrev one_spinning : State ℕ
one_spinning = record {
  table = one_published.table;
  status = update (update one_published.status 1 (entered 0)) 1 (spinning slot false);
}

abbrev both_done : State ℕ
both_done = record {
  table = one_published.table;
  status = update one_spinning.status 1 (read_done 7);
}

row_0 : batch.row 0 ≢ absent
unfolding sorted_ops get_record_id
row_0 = ground arith

row_1 : batch.row 1 ≢ absent
unfolding sorted_ops get_record_id
row_1 = ground arith

run : Reach batch (start batch table) both_done
unfolding collect write_target read_target initialize_execution_plan scatter_rw_location get_txn_id
    sorted_ops get_record_id get_offset rw_locations rw_location rw_ops_type calc_operation_type
    get_r_w write_ops_after write_ops_before tver_write_ops_before version_write_extractor
    set_version set_value target_version select_a select_b select_write poll target_value
run =
    next
      (next
        (next
          (next
            (next
              (next (next here (writes (enter_write 0 (omega arith) refl refl row_0)))
                (writes (aim 0 0 [] refl refl refl)))
              (writes (store 0 slot 7 refl)))
            (writes (publish 0 slot refl)))
          (reads (enter_read 1 (omega arith) refl refl row_1)))
        (reads (pick 1 0 refl refl)))
      (reads (copy 1 slot false refl refl))

small : 2 < 2 ^ 32 - 2
small = omega arith

reads_serial_example : 7 ≡ expected batch table sources values 1
reads_serial_example =
    reads_serial radix 2 submitted no_plan 1 no_inputs seven zeros small distinct table values quiet
      serial run 1 7 refl

last_of_record : last_write (op radix 2 submitted small) 5 2 ≡ some 0
unfolding last_write sorted_ops get_record_id get_r_w
last_of_record = refl

commits_serial_example : read_from_table both_done.table 5 loc_record_a 2 ≡ some 7
commits_serial_example =
    commits_serial radix 2 submitted no_plan 1 no_inputs seven zeros small distinct table values
      quiet serial run 5 0 2 last_of_record refl (omega arith)

in_order : IsSubmittedInOrder radix 2 submitted no_plan 1 no_inputs seven zeros
in_order = record { before_use = λ i l w. tt }

no_deadlock_example : (s : State ℕ) × Step batch (start batch table) s
no_deadlock_example =
    no_deadlock radix 2 submitted no_plan 1 no_inputs seven zeros small distinct table values quiet
      serial here 1 (omega arith) refl in_order

second_reads : (get_r_w (op radix 2 submitted small 1) == 1) ≡ false
unfolding sorted_ops get_r_w get_record_id
second_reads = refl

read_location_example :
    ((loc radix 2 submitted small 1 ≡ loc_record_a)
      × (last_write (op radix 2 submitted small) (row radix 2 submitted small 1) 1 ≡ none))
    ⊎ ((j : ℕ) × (last_write (op radix 2 submitted small) (row radix 2 submitted small 1) 1
          ≡ some j)
        × (loc radix 2 submitted small j ≡ loc radix 2 submitted small 1)
        × (loc radix 2 submitted small 1 ≢ loc_record_a))
read_location_example = read_location radix 2 submitted small 1 (omega arith) second_reads

-- Two writes of record 5, the first of which is planned for a scratch version.
abbrev two_writes : Array Op
two_writes i = if i == 0 then 0x0000000500000800 else 0x0000000500001800

both_write :
    ((get_r_w (op radix 2 two_writes small 0) == 1) ≡ true)
    × ((get_r_w (op radix 2 two_writes small 1) == 1) ≡ true)
unfolding sorted_ops get_r_w get_record_id
both_write = (refl, refl)

first_scratch : loc radix 2 two_writes small 0 ≢ loc_record_b
unfolding sorted_ops get_r_w get_record_id rw_locations rw_location rw_ops_type calc_operation_type
    write_ops_before write_ops_after tver_write_ops_before version_write_extractor
first_scratch = ground arith

write_version_unique_example : loc radix 2 two_writes small 0 ≢ loc radix 2 two_writes small 1
write_version_unique_example =
    write_version_unique radix 2 two_writes small 0 1 (omega arith) (omega arith) both_write.0
      both_write.1 first_scratch

free_place :
    (j : ℕ)
    → j < 2
    → get_txn_id (sorted_ops radix 2 submitted j) ≡ 8
    → get_offset (sorted_ops radix 2 submitted j) ≢ 0
unfolding sorted_ops get_txn_id get_record_id
free_place zero l e o = absurd (omega arith)
free_place (suc zero) l e o = absurd (omega arith)
free_place (suc (suc j)) l e o = absurd (omega arith)

initialize_execution_plan-lookup_example :
    (initialize_execution_plan radix 2 submitted no_plan
        (get_txn_id (sorted_ops radix 2 submitted 1))
        (get_offset (sorted_ops radix 2 submitted 1))
      ≡ rw_locations radix 2 submitted 1)
    × (initialize_execution_plan radix 2 submitted no_plan 8 0 ≡ no_plan 8 0)
initialize_execution_plan-lookup_example =
    initialize_execution_plan-lookup radix 2 submitted distinct no_plan 1 8 0 (omega arith)
      free_place
