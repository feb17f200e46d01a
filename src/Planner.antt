-- ===== src/Planner.antt =====
-- EGAD/execution_planner.h and EGAD/gpu_execution_planner.cu: where each operation of an epoch
-- reads or writes.
--
-- An operation is a 64-bit word with its record, transaction, kind and plan offset as fields.
-- `InitializeExecutionPlan` sorts the submitted words by record, counts the writes before and after
-- each operation on its record, classifies the operation by the counts, numbers the scratch
-- versions, and stores a location for each operation. The sort and the scans are calls of the CUB
-- library: they are the fields of `Cub`, with the behaviour that its documentation states.
pub mod Encoding
pub mod Scans
pub mod Locations
pub mod Scatter
use Prim.Native.Nat.{bit_and, bit_or}
use egad_code.Prelude.{
  ℕ, zero, suc, ◌+◌, ◌-◌, ◌*◌, ◌/◌, ◌%◌, ◌^◌, ◌≤◌, ◌<◌, ◌≡◌, Bool, ◌==◌, if◌then◌else◌,
}
use egad_code.Prelude.Words.{add32, shl64}
use egad_code.Storage.{loc_record_a, loc_record_b}

abbrev pub Op : Type 0
Op = ℕ

abbrev pub read_op : ℕ
read_op = 0

abbrev pub write_op : ℕ
write_op = 1

-- `CREATE_OP`
unfoldable pub create_op : ℕ → ℕ → ℕ → ℕ → Op
create_op record_id txn_id r_w offset =
    bit_or (bit_or (bit_or (shl64 record_id 32) (shl64 txn_id 12)) (shl64 r_w 11)) (shl64 offset 0)

-- `GET_RECORD_ID`, `GET_TXN_ID`, `GET_R_W` and `GET_OFFSET`
unfoldable pub get_record_id : Op → ℕ
get_record_id op = bit_and op 0xffffffff00000000 / 2 ^ 32

unfoldable pub get_txn_id : Op → ℕ
get_txn_id op = bit_and op 0x00000000fffff000 / 2 ^ 12

unfoldable pub get_r_w : Op → ℕ
get_r_w op = bit_and op 0x0000000000000800 / 2 ^ 11

unfoldable pub get_offset : Op → ℕ
get_offset op = bit_and op 0x00000000000007ff / 2 ^ 0

pub data OperationT : Type 0 where
  version_read version_write record_a_read record_b_read record_a_write record_b_write : OperationT

-- `SameRow`
abbrev pub same_row : Op → Op → Bool
same_row a b = get_record_id a == get_record_id b

-- `WriteExtractor`
abbrev pub write_extractor : Op → ℕ
write_extractor op = if get_r_w op == write_op then 1 else 0

-- `VersionWriteExtractor`
unfoldable pub version_write_extractor : OperationT → ℕ
version_write_extractor version_write = 1
version_write_extractor _ = 0

-- What `calcOperationType` does for one operation.
unfoldable pub calc_operation_type : Op → ℕ → ℕ → OperationT
calc_operation_type op w_before w_after =
    if get_r_w op == write_op
    then (if w_after == 0 then record_b_write else version_write)
    else if w_before == 0
    then record_a_read
    else if w_after == 0
    then record_b_read
    else version_read

-- The location that `scatterRWLocation` picks; `uint32_t` subtraction wraps.
unfoldable pub rw_location : OperationT → ℕ → ℕ
rw_location record_a_read ver_writes_before = loc_record_a
rw_location record_a_write ver_writes_before = loc_record_a
rw_location record_b_read ver_writes_before = loc_record_b
rw_location record_b_write ver_writes_before = loc_record_b
rw_location version_read ver_writes_before = (ver_writes_before + 2 ^ 32 - 1) % 2 ^ 32
rw_location version_write ver_writes_before = ver_writes_before

-- A device array; the number of its items goes with it.
abbrev pub Array {ℓ} : Type ℓ → Type ℓ
Array A = ℕ → A

-- The calls of CUB. `sort n a` is a radix sort on the bits 32 to 63, which is stable: its `i`-th
-- item is item `origin n a i` of `a`. The sums are of `uint32_t`.
pub record Cub : Type 0 where
  pub sort : ℕ → Array Op → Array Op
  pub origin : ℕ → Array Op → ℕ → ℕ
  pub exclusive_sum_by_key : ℕ → Array Op → Array ℕ → Array ℕ
  pub exclusive_sum : ℕ → Array ℕ → Array ℕ
  pub sort_sorted :
      (n : ℕ) (a : Array Op) (i j : ℕ)
      → i ≤ j
      → j < n
      → get_record_id (sort n a i) ≤ get_record_id (sort n a j)
  pub sort-origin : (n : ℕ) (a : Array Op) (i : ℕ) → i < n → sort n a i ≡ a (origin n a i)
  pub origin_lt : (n : ℕ) (a : Array Op) (i : ℕ) → i < n → origin n a i < n
  pub origin_injective :
      (n : ℕ) (a : Array Op) (i j : ℕ) → i < n → j < n → origin n a i ≡ origin n a j → i ≡ j
  pub origin_stable :
      (n : ℕ) (a : Array Op) (i j : ℕ)
      → i < j
      → j < n
      → get_record_id (sort n a i) ≡ get_record_id (sort n a j)
      → origin n a i < origin n a j
  pub sum_by_key_zero :
      (n : ℕ) (keys : Array Op) (vals : Array ℕ) → 0 < n → exclusive_sum_by_key n keys vals 0 ≡ 0
  pub sum_by_key_suc :
      (n : ℕ) (keys : Array Op) (vals : Array ℕ) (i : ℕ)
      → suc i < n
      → exclusive_sum_by_key n keys vals (suc i) ≡ (
          if same_row (keys i) (keys (suc i))
          then add32 (exclusive_sum_by_key n keys vals i) (vals i)
          else 0)
  pub sum_zero : (n : ℕ) (vals : Array ℕ) → 0 < n → exclusive_sum n vals 0 ≡ 0
  pub sum_suc :
      (n : ℕ) (vals : Array ℕ) (i : ℕ)
      → suc i < n
      → exclusive_sum n vals (suc i) ≡ add32 (exclusive_sum n vals i) (vals i)

-- The plan of each transaction: a location for each offset.
abbrev pub ExecPlan : Type 0
ExecPlan = ℕ → ℕ → ℕ

abbrev pub store_location : ExecPlan → ℕ → ℕ → ℕ → ExecPlan
store_location plan txn_id offset location t o =
    if t == txn_id then (if o == offset then location else plan t o) else plan t o

-- `scatterRWLocation`: the first `n` threads of the kernel.
unfoldable pub scatter_rw_location : Array Op → Array ℕ → ℕ → ExecPlan → ExecPlan
scatter_rw_location sorted locations zero plan = plan
scatter_rw_location sorted locations (suc n) plan =
    store_location (scatter_rw_location sorted locations n plan) (get_txn_id (sorted n))
      (get_offset (sorted n)) (locations n)

module _ (cub : Cub) (n : ℕ) (submitted : Array Op) where
  -- The arrays that `InitializeExecutionPlan` fills, in order.
  unfoldable pub sorted_ops : Array Op
  sorted_ops = cub.sort n submitted

  unfoldable pub write_ops_before : Array ℕ
  write_ops_before = cub.exclusive_sum_by_key n sorted_ops (λ i. write_extractor (sorted_ops i))

  -- The scan over the reversed iterators; its item `k` is stored at `n - 1 - k`.
  unfoldable pub write_ops_after : Array ℕ
  write_ops_after i =
      cub.exclusive_sum_by_key n (λ k. sorted_ops (n - 1 - k))
        (λ k. write_extractor (sorted_ops (n - 1 - k))) (n - 1 - i)

  unfoldable pub rw_ops_type : Array OperationT
  rw_ops_type i = calc_operation_type (sorted_ops i) (write_ops_before i) (write_ops_after i)

  unfoldable pub tver_write_ops_before : Array ℕ
  tver_write_ops_before = cub.exclusive_sum n (λ i. version_write_extractor (rw_ops_type i))

  unfoldable pub rw_locations : Array ℕ
  rw_locations i = rw_location (rw_ops_type i) (tver_write_ops_before i)

  -- `InitializeExecutionPlan`, which returns at once when there is no operation.
  unfoldable pub initialize_execution_plan : ExecPlan → ExecPlan
  initialize_execution_plan plan =
      if n == 0 then plan else scatter_rw_location sorted_ops rw_locations n plan
