-- ===== src/Gacco.antt =====
-- The comparison system gacco: the plan of EGAD/gacco/gpu_execution_planner.cu and the locks of
-- EGAD/gacco/benchmarks/tpcc_gpu_executor.cu.
--
-- Each record has a lock, which names the transaction that may use the record next. The planner
-- sorts an epoch's operations by record and gives each record the run of its operations: `access`
-- has their transactions, `offset` the place of the one that holds the lock. A release moves the
-- place on by one. The sort, the run-length encoding and the sum are calls of the CUB library.
pub mod Runs
pub mod Turns
use Prim.Native.Nat.{bit_and, bit_or}
use egad_code.Prelude.{ℕ, ◌+◌, ◌-◌, ◌*◌, ◌/◌, ◌%◌, ◌^◌, Bool, ◌==◌, if◌then◌else◌, List, [], ◌∷◌}
use egad_code.Prelude.Words.{add32, shl64}
use egad_code.Prelude.Loops.{grid_guard}
use egad_code.Storage.{update}
use egad_code.Planner.{Op, Array, Cub}

-- `GACCO_CREATE_OP`, `GACCO_GET_RECORD_ID` and `GACCO_GET_TXN_ID`
unfoldable pub gacco_create_op : ℕ → ℕ → Op
gacco_create_op record_id txn_id = bit_or (shl64 record_id 32) (shl64 txn_id 0)

unfoldable pub gacco_get_record_id : Op → ℕ
gacco_get_record_id op = bit_and op 0xffffffff00000000 / 2 ^ 32

unfoldable pub gacco_get_txn_id : Op → ℕ
gacco_get_txn_id op = bit_and op 0x00000000ffffffff / 2 ^ 0

-- `GaccoTableLock`
pub record TableLock : Type 0 where
  pub access : Array ℕ
  pub offset : Array ℕ
  pub lock : Array ℕ

-- What `DeviceRunLengthEncode::Encode` fills.
pub record Encoded : Type 0 where
  pub unique_rows : Array ℕ
  pub unique_access : Array ℕ
  pub num_unique_rows : ℕ

-- The grids of the two kernels: blocks of 256 threads, for a 32-bit count.
abbrev pub threads_for : ℕ → ℕ
threads_for n = (n + 256 + 2 ^ 32 - 1) % 2 ^ 32 / 256 * 256

abbrev pub copy_access_thread : Array Op → ℕ → TableLock → TableLock
copy_access_thread sorted_ops tid t = record t {
  access = update t.access tid (gacco_get_txn_id (sorted_ops tid));
}

unfoldable pub copy_access_tid_kernel : Array Op → ℕ → TableLock → TableLock
copy_access_tid_kernel sorted_ops num_ops t =
    grid_guard (threads_for num_ops) num_ops (copy_access_thread sorted_ops) t

abbrev pub build_aux_array_thread : Array ℕ → Array ℕ → ℕ → TableLock → TableLock
build_aux_array_thread unique_offset unique_rows tid t =
    let row_id = unique_rows tid in
    let my_offset = unique_offset tid in
    record t {
      offset = update t.offset row_id my_offset;
      lock = update t.lock row_id (t.access my_offset);
    }

unfoldable pub build_aux_array_kernel : Array ℕ → Array ℕ → ℕ → TableLock → TableLock
build_aux_array_kernel unique_offset unique_rows num_unique_rows t =
    grid_guard (threads_for num_unique_rows) num_unique_rows
      (build_aux_array_thread unique_offset unique_rows) t

module _ (cub : Cub) (encode : ℕ → Array ℕ → Encoded) (curr_num_ops : ℕ)
    (submitted : Array Op) where
  abbrev pub gacco_sorted_ops : Array Op
  gacco_sorted_ops = cub.sort curr_num_ops submitted

  abbrev pub row_ids : Array ℕ
  row_ids i = gacco_get_record_id (gacco_sorted_ops i)

  abbrev pub encoded : Encoded
  encoded = encode curr_num_ops row_ids

  -- `InitializeExecutionPlan`, which returns at once when there is no operation.
  unfoldable pub gacco_initialize_execution_plan : TableLock → TableLock
  gacco_initialize_execution_plan t =
      if curr_num_ops == 0
      then t
      else build_aux_array_kernel (cub.exclusive_sum encoded.num_unique_rows encoded.unique_access)
          encoded.unique_rows encoded.num_unique_rows
          (copy_access_tid_kernel gacco_sorted_ops curr_num_ops t)

-- One round of the spin of `acquireLock`: whether it ends.
unfoldable pub acquire_lock : TableLock → ℕ → ℕ → Bool
acquire_lock t record_id txn_id = t.lock record_id == txn_id

-- `releaseLock`
unfoldable pub release_lock : ℕ → TableLock → TableLock
release_lock record_id t =
    let new_lock_offset = add32 (t.offset record_id) 1 in
    record t {
      offset = update t.offset record_id new_lock_offset;
      lock = update t.lock record_id (t.access new_lock_offset);
    }

-- Releases of the locks of some records, one after the other.
unfoldable pub release_locks : List ℕ → TableLock → TableLock
release_locks [] t = t
release_locks (r ∷ rs) t = release_locks rs (release_lock r t)
