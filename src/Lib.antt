-- ===== src/Lib.antt =====
-- EGAD: deterministic transactions in epochs on a GPU, with a primary store on the host and
--   recovery from durable logs.
--
-- An epoch's transactions are resolved to records by an index. The planner gives each operation
-- of a transaction a place: one of the two versions of its record, or a scratch version. The
-- execution kernels then run all transactions at once on the record store, and wait for nothing
-- but the versions that the plan makes them read. The host keeps a copy of the index's map with
-- durable logs of the inserts and deletes, and a marker that says which epoch a crash
-- interrupted; a recovering process rebuilds the map from the logs at the end of an earlier
-- epoch.
--
-- Files and sources:
-- Storage: EGAD/storage.h, `Record`, `Version`, `readFromTable` and `writeToTable`. Storage.Gpu:
--   EGAD/gpu_storage.cuh, `gpuReadFromTableCoop`, `gpuReadFromTableThread`, `gpuWriteToTableCoop`
--   and `gpuWriteToTableThread`. Storage.Slots, Storage.Cells, Storage.Warp and
--   Storage.WarpReads hold what is proved of them.
-- Planner: EGAD/execution_planner.h and EGAD/gpu_execution_planner.cu, the operation words, the
--   functors, `calcOperationType`, `scatterRWLocation` and `InitializeExecutionPlan`, its calls
--   in their order. Planner.Encoding, Planner.Scans, Planner.Locations and Planner.Scatter.
-- Execution: the steps that the threads of EGAD/gpu_storage.cuh take in an epoch, in any
--   interleaving: return at the record 0xffffffff; load the two versions one by one, pick a slot,
--   spin and copy; store a value, publish its version. A value is copied in one step. The
--   transactions' own computation is a parameter. Execution.Serial says what the serial order
--   gives, Execution.Invariant, Execution.Loads, Execution.Reads, Execution.Writes and
--   Execution.Steps carry the invariant, Execution.Progress the waiting, and Execution.Planned
--   puts planner and execution together.
-- RecoveryMeta: EGAD/benchmarks/recovery_meta.h, `read`, `prepare` and `publishPrepared`.
--   RecoveryMeta.Words is about the publish word, RecoveryMeta.Crash about a crash.
-- Shadow: EGAD/benchmarks/ycsb_cpu_shadow_index.{h,cpp}, the 12 shards and the durable logs.
--   Shadow.Shards relates the loops of the 12 threads to plain loops, Shadow.Logs is about
--   replaying a log.
-- Oracle: EGAD/benchmarks/ycsb_timeline_oracle.{h,cpp} and the operations of
--   EGAD/benchmarks/ycsb_txn.h, `reset` and `replayEpoch`. Oracle.Log gives the log entries of
--   each operation, Oracle.Agreement relates the live map to the logs, Oracle.Mirror and
--   Oracle.Recovery add the mirroring of EGAD/benchmarks/ycsb_gpu_index.cu and the recovery of
--   EGAD/benchmarks/ycsb.cpp.
-- Timeline: EGAD/benchmarks/epoch_timeline.cuh, the packed events, `TimelineView::resolve` and
--   `k_walk`. Timeline.Search is about the binary search, Timeline.Serial about the events in
--   serial order, Timeline.Marks about the flags of `k_walk`.
-- Ring: EGAD/util_device_ring.cuh and EGAD/device_ring_types.h, the pop of the device ring.
--   Ring.Queue relates it to a queue.
-- ScatterGather: EGAD/scatter_gather.cu and EGAD/scatter_gather.h, records between host and device:
--   the host's gather and scatter. ScatterGather.Kernels: the kernels and their launches.
--   ScatterGather.Transfer: `transfer_versions`. ScatterGather.Writeback: `writeback_versions` and
--   the flush in phases. ScatterGather.Buffers: `init`, `reset` and the growth of the buffers.
--   ScatterGather.Copies, ScatterGather.Chunks and ScatterGather.Admission are about the way to
--   the device, ScatterGather.Pipeline and ScatterGather.Drained about the way back,
--   ScatterGather.RoundTrip about both with the store between them, ScatterGather.Capacity about
--   the buffers' sizes.
-- Index: EGAD/hashtable_index.h, EGAD/std_unordered_map_index.h and EGAD/std_map_index.h, the rows
--   that an index gives to keys. Index.Rows is about rows and the free list in general,
--   Index.Hashtable and Index.Plain about the operations.
-- Txns: EGAD/txn.h, EGAD/txn_bridge.h and EGAD/txn_bridge.cpp, arrays of transactions and the bridge
--   between host and device, on the calls of EGAD/gpu_txn.cu and EGAD/util_gpu_transfer.cu.
--   Txns.Packed: packed arrays and their bridge. Txns.Layout, Txns.Bridge and Txns.PackedMoves are
--   about the places of transactions and about what the bridges move.
-- Gacco: the comparison system, EGAD/gacco/execution_planner.h,
--   EGAD/gacco/gpu_execution_planner.cu and the locks of
--   EGAD/gacco/benchmarks/tpcc_gpu_executor.cu. A spin of `acquireLock` is one test; transactions
--   interleave as a sequence of releases. Gacco.Runs is about runs of equal keys, Gacco.Turns about
--   whose turn a lock is.
-- Prelude: shared tests, lists, loops, words, and the interfaces of the vendored maps and sets
--   (`ankerl::unordered_dense`). Tests: the theorems at concrete data.
--
-- Parameters. CUB's radix sort and scans are the record `Cub`, with the behaviour that their
-- documentation states: a stable sort on the bits from 32 up, exclusive sums of `uint32_t`, and
-- for the `encode` of Gacco a run-length encoding, `IsRunLength` in Gacco.Runs. Maps and sets are
-- `MapApi` and `SetApi`, those of the standard library `KeyedMap`. Tests.Radix, Tests.Locks,
-- Tests.MapInstances and Tests.Indexes give an instance of each.
--
-- Bounds and fuel. Numbers of 32 and 64 bits wrap by `% 2 ^ w`; shifts and masks are those of
-- Prelude.Words. A batch has fewer than `2 ^ 32 - 2` operations, so that no scratch version has
-- the number of record A or B. The loop of a thread of `loadInitialData` runs on fuel, the number
-- of keys, which is enough since each round advances by 12. Both loops of `TimelineView::resolve`
-- run on the number of events: the search halves its range and the walk advances by one. The loops
-- over chunks run on the number of records, of which each chunk takes at least one; strided loops of
-- a grid on the number of indices. The spin
-- of a read is one poll at a time: a step of the execution that can be taken only when the
-- version is there. Memory is sequentially consistent, as the fences and atomics of the source
-- ask for.
--
-- Not modelled: accesses to a part of a value in an epoch's interleaving,
-- `gpuReadMultipleFromTableCoop`, the index kernels of the GPU and the other passes
-- that build an epoch's timeline, the stagers that choose the records to admit, the submitters
-- and executors of the workloads, TPC-C, the executors of gacco but for their locks, the iterators of
-- the ordered index and the index over masstree, allocation, logging and the drivers.
-- The log entries of an epoch are those of the serial replay, which the GPU index is checked
-- against at run time.
pub mod Prelude
pub mod Storage
pub mod Planner
pub mod Execution
pub mod RecoveryMeta
pub mod Shadow
pub mod Oracle
pub mod Timeline
pub mod Ring
pub mod ScatterGather
pub mod Index
pub mod Txns
pub mod Gacco
pub mod Tests
