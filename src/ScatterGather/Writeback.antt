-- ===== src/ScatterGather/Writeback.antt =====
-- EGAD/scatter_gather.cu: `writeback_versions` and the flush in phases (`wb_async_queue_d2d`,
-- `wb_async_queue_pack`, `wb_chunked_d2h_scatter`), device to host.
--
-- `pinned` says whether `pthread_setaffinity_np` succeeds; `none` is the exception that is thrown
-- when it does not. The waits on events order a scatter after the copy of its chunk, and a copy
-- into a buffer after the scatter of the chunk that it held, so the steps run in their order.
use Prim.Native.Nat.{max}
use mathlib.Core.Option
use egad_code.Prelude.{
  ℕ, zero, suc, ◌+◌, ◌-◌, ◌*◌, ◌/◌, ◌%◌, ◌^◌, Bool, true, false, Option, none, some, min, ltb, ◌==◌,
  if◌then◌else◌,
}
use egad_code.Prelude.Words.{add64, sub64}
use egad_code.Storage.{update}
use egad_code.ScatterGather.{
  Commit, Records, memcpy_array, packed_writeback_bytes, scatter_host_versions_range_from_packed,
}
use egad_code.ScatterGather.Kernels.{k_pack_versions_by_grids, launch_pack}
use egad_code.ScatterGather.Transfer.{other_buf}

-- The buffers of the non-chunk path, or of one half of the double buffer.
pub record Half : Type 0 where
  pub h_grids : ℕ → ℕ
  pub h_curr_slots : ℕ → ℕ
  pub d_grids : ℕ → ℕ
  pub d_curr_slots : ℕ → ℕ
  pub d_packed_vers : ℕ → Commit
  pub h_packed_vers : ℕ → Commit

-- The double buffer, the chunk that each half holds, and the host's records.
pub record Pipe : Type 0 where
  pub halves : ℕ → Half
  pub buf_base : ℕ → ℕ
  pub buf_len : ℕ → ℕ
  pub cpu : Records

-- The loop state of `wb_chunked_d2h_scatter`.
pub record Drain : Type 0 where
  pub h_wb_d2h_buf : ℕ → ℕ → Commit
  pub first_chunk : Bool
  pub prev_abs_base : ℕ
  pub prev_m : ℕ
  pub prev_buf : ℕ
  pub cpu : Records

-- The device's buffers of the flush in phases.
pub record Flush : Type 0 where
  pub d_grids_persistent : ℕ → ℕ
  pub d_curr_slots : ℕ → ℕ
  pub d_packed_vers : ℕ → Commit

unfoldable pub wb_async_queue_d2d : (ℕ → ℕ) → (ℕ → ℕ) → ℕ → Flush → Flush
wb_async_queue_d2d d_grids d_curr_slots n fl = record fl {
  d_grids_persistent = memcpy_array n d_grids 0 fl.d_grids_persistent;
  d_curr_slots = memcpy_array n d_curr_slots 0 fl.d_curr_slots;
}

-- `wb_chunked_d2h_scatter`'s chunk size: chunks of about 6 MiB, 1 to 64 of them.
unfoldable pub wb_chunk_elems : ℕ → ℕ → ℕ
wb_chunk_elems val_words num_records =
    let total_bytes = num_records * packed_writeback_bytes val_words in
    let chunks = (total_bytes + 6291456 - 1) / 6291456 in
    let at_least = if ltb chunks 1 then 1 else chunks in
    let effective_chunks_per_half = if ltb 64 at_least then 64 else at_least in
    max 1 ((num_records + effective_chunks_per_half - 1) / effective_chunks_per_half)

module _ (val_words : ℕ) where
  unfoldable pub wb_async_queue_pack : ℕ → Records → Flush → Flush
  wb_async_queue_pack n gpu fl = record fl {
    d_packed_vers =
        launch_pack val_words gpu fl.d_grids_persistent fl.d_curr_slots fl.d_packed_vers n;
  }

  module _ (pinned : Bool) (h_crids h_curr_slots : ℕ → ℕ) where
    unfoldable pub scatter_host_versions_range_from_packed_async :
        Records → ℕ → ℕ → (ℕ → Commit) → Option Records
    scatter_host_versions_range_from_packed_async cpu base n packed_vers =
        if n == 0
        then some cpu
        else if pinned
        then some (
            scatter_host_versions_range_from_packed val_words cpu h_crids h_curr_slots base n
              packed_vers)
        else none

    -- One of the two scatters, by `async_writeback_`.
    unfoldable pub scatter_chosen : Bool → Records → ℕ → ℕ → (ℕ → Commit) → Option Records
    scatter_chosen async_writeback cpu base n packed_vers =
        if async_writeback
        then scatter_host_versions_range_from_packed_async cpu base n packed_vers
        else some (
            scatter_host_versions_range_from_packed val_words cpu h_crids h_curr_slots base n
              packed_vers)

    module _ (async_writeback : Bool) (h_grids : ℕ → ℕ) (gpu : Records) where
      -- What the copies and the pack kernel leave in a half: the chunk of `m` from `base` on.
      unfoldable pub pack_half : ℕ → ℕ → Half → Half
      pack_half base m half =
          let grids = memcpy_array m h_grids base half.h_grids in
          let slots = memcpy_array m h_curr_slots base half.h_curr_slots in
          let on_device_grids = memcpy_array m grids 0 half.d_grids in
          let on_device_slots = memcpy_array m slots 0 half.d_curr_slots in
          let packed =
            k_pack_versions_by_grids val_words ((m + 256 - 1) / 256 * 256) gpu on_device_grids
              on_device_slots half.d_packed_vers (m % 2 ^ 32) in
          record {
            h_grids = grids;
            h_curr_slots = slots;
            d_grids = on_device_grids;
            d_curr_slots = on_device_slots;
            d_packed_vers = packed;
            h_packed_vers = memcpy_array m packed 0 half.h_packed_vers;
          }

      -- `if (buf_len[b] != 0)`: scatter the half's chunk.
      unfoldable pub scatter_half : ℕ → Pipe → Option Pipe
      scatter_half b pipe =
          let scatter =
            scatter_chosen async_writeback pipe.cpu (pipe.buf_base b) (pipe.buf_len b)
              (pipe.halves b).h_packed_vers in
          if pipe.buf_len b == 0
          then some pipe
          else Option.map (λ cpu. record pipe { buf_len = update pipe.buf_len b 0; cpu = cpu })
              scatter

      -- One round of the loop over chunks.
      unfoldable pub writeback_round : ℕ → ℕ → ℕ → Pipe → Option Pipe
      writeback_round base m buf pipe = scatter_half (other_buf buf) (record pipe {
        halves = update pipe.halves buf (pack_half base m (pipe.halves buf));
        buf_base = update pipe.buf_base buf base;
        buf_len = update pipe.buf_len buf m;
      })

      unfoldable pub writeback_chunks : ℕ → ℕ → ℕ → ℕ → ℕ → Pipe → Option Pipe
      writeback_chunks zero chunk_elems n base buf pipe = some pipe
      writeback_chunks (suc fuel) chunk_elems n base buf pipe =
          let m = min chunk_elems (n - base) in
          elim (ltb base n) [
            | true ↦ elim (writeback_round base m buf pipe) [
              | none ↦ none
              | some pipe' ↦ writeback_chunks fuel chunk_elems n (base + m) (other_buf buf) pipe'
            ]
            | false ↦ some pipe
          ]

      -- The loop, and then the two halves in their order.
      unfoldable pub writeback_by_chunks : ℕ → ℕ → (ℕ → Half) → Records → Option Pipe
      writeback_by_chunks chunk_elems n halves cpu =
          elim (writeback_chunks n chunk_elems n 0 0
            (record { halves = halves; buf_base = λ _. 0; buf_len = λ _. 0; cpu = cpu })) [
              | none ↦ none
              | some pipe ↦ elim (scatter_half 0 pipe) [
                | none ↦ none
                | some pipe' ↦ scatter_half 1 pipe'
              ]
            ]

      unfoldable pub writeback_whole : ℕ → Half → Records → Option Records
      writeback_whole n half cpu =
          let grids = memcpy_array n h_grids 0 half.d_grids in
          let slots = memcpy_array n h_curr_slots 0 half.d_curr_slots in
          let packed =
            k_pack_versions_by_grids val_words ((n + 256 - 1) / 256 * 256) gpu grids slots
              half.d_packed_vers (n % 2 ^ 32) in
          scatter_chosen async_writeback cpu 0 n (memcpy_array n packed 0 half.h_packed_vers)

      -- The host's records after `writeback_versions`, and the counter.
      unfoldable pub writeback_versions :
          Bool → ℕ → ℕ → Half → (ℕ → Half) → ℕ → Records → Option (ℕ × Records)
      writeback_versions chunk_mode chunk_bytes n whole halves total cpu =
          let counted = add64 total (n * packed_writeback_bytes val_words) in
          let chunk_elems = max 1 (chunk_bytes / packed_writeback_bytes val_words) in
          if n == 0
          then some (total, cpu)
          else if chunk_mode
          then Option.map (λ pipe. (counted, pipe.cpu))
              (writeback_by_chunks chunk_elems n halves cpu)
          else Option.map (λ cpu'. (counted, cpu')) (writeback_whole n whole cpu)

    module _ (d_packed_vers : ℕ → Commit) where
      -- One round: the chunk's copy, then the scatter of the chunk before it.
      unfoldable pub drain_round : ℕ → ℕ → ℕ → Drain → Option Drain
      drain_round abs_base m buf dr =
          let bufs =
            update dr.h_wb_d2h_buf buf
              (memcpy_array m d_packed_vers abs_base (dr.h_wb_d2h_buf buf)) in
          let next : Records → Drain = λ cpu. record {
            h_wb_d2h_buf = bufs;
            first_chunk = false;
            prev_abs_base = abs_base;
            prev_m = m;
            prev_buf = buf;
            cpu = cpu;
          } in
          if dr.first_chunk
          then some (next dr.cpu)
          else Option.map next (
              scatter_host_versions_range_from_packed_async dr.cpu dr.prev_abs_base dr.prev_m
                (bufs dr.prev_buf))

      -- `while (offset < num_records)`.
      unfoldable pub drain_rounds : ℕ → ℕ → ℕ → ℕ → ℕ → ℕ → Drain → Option Drain
      drain_rounds zero chunk_elems start_record num_records offset buf dr = some dr
      drain_rounds (suc fuel) chunk_elems start_record num_records offset buf dr =
          let m = min chunk_elems (num_records - offset) in
          elim (ltb offset num_records) [
            | true ↦ elim (drain_round (start_record + offset) m buf dr) [
              | none ↦ none
              | some dr' ↦
                  drain_rounds fuel chunk_elems start_record num_records (offset + m)
                    (other_buf buf) dr'
            ]
            | false ↦ some dr
          ]

      -- The rounds, and the scatter of the last chunk.
      unfoldable pub drain_all : ℕ → ℕ → (ℕ → ℕ → Commit) → Records → Option Records
      drain_all start_record num_records bufs cpu =
          elim (drain_rounds num_records (wb_chunk_elems val_words num_records) start_record
            num_records 0 0
            (record {
              h_wb_d2h_buf = bufs;
              first_chunk = true;
              prev_abs_base = 0;
              prev_m = 0;
              prev_buf = 0;
              cpu = cpu;
            })) [
              | none ↦ none
              | some dr ↦
                  scatter_host_versions_range_from_packed_async dr.cpu dr.prev_abs_base dr.prev_m
                    (dr.h_wb_d2h_buf dr.prev_buf)
            ]

      -- The host's records after the call. `num_records = 0` asks for all from `start_record` on.
      unfoldable pub wb_chunked_d2h_scatter :
          ℕ → ℕ → ℕ → (ℕ → ℕ → Commit) → ℕ → Records → Option (ℕ × Records)
      wb_chunked_d2h_scatter n start_record num_records bufs total cpu =
          let num = if num_records == 0 then sub64 n start_record else num_records in
          if num == 0
          then some (total, cpu)
          else Option.map (λ cpu'. (add64 total (num * packed_writeback_bytes val_words), cpu'))
              (drain_all start_record num bufs cpu)
