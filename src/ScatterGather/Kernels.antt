-- ===== src/ScatterGather/Kernels.antt =====
-- EGAD/scatter_gather.cu: the kernels that scatter and pack, by a thread or by a warp per record,
-- and their launches. `n` is cast to 32 bits.
use egad_code.Prelude.{ℕ, ◌+◌, ◌-◌, ◌*◌, ◌/◌, ◌%◌, ◌^◌, leb, ◌==◌, if◌then◌else◌}
use egad_code.Prelude.Loops.{for_upto, stride_loop, grid_stride, grid_guard}
use egad_code.Storage.{Record, Slot, update, slot_version, slot_value, with_value}
use egad_code.Storage.Gpu.{Words}
use egad_code.ScatterGather.{Packed, Commit, Records, slot_at}

abbrev pub with_versions : Record Words → Packed → Record Words
with_versions r p = record r { version1 = p.ver1; version2 = p.ver2 }

module _ (val_words : ℕ) where
  -- `for (w = 0; w < kValWords; ++w) d_val[w] = s_val[w];`
  unfoldable pub copy_words : Words → Words → Words
  unfolding for_upto
  copy_words src dst = for_upto val_words (λ w d. update d w (src w)) dst

  -- `for (w = lane; w < kValWords; w += 32u)`.
  unfoldable pub copy_words_lane : Words → ℕ → Words → Words
  unfolding stride_loop
  copy_words_lane src lane dst =
      stride_loop val_words lane 32 val_words (λ w d. update d w (src w)) dst

  -- One thread of `k_scatter_versions`, on the record it writes.
  unfoldable pub scatter_thread : Packed → Slot → Record Words → Record Words
  unfolding copy_words
  scatter_thread p slot r =
      let r' = with_versions r p in with_value r' slot (copy_words p.value (slot_value r' slot))

  -- One lane of `k_scatter_versions_warp`.
  unfoldable pub scatter_lane : Packed → Slot → ℕ → Record Words → Record Words
  unfolding copy_words_lane
  scatter_lane p slot lane r =
      let r' = if lane == 0 then with_versions r p else r in
      with_value r' slot (copy_words_lane p.value lane (slot_value r' slot))

  unfoldable pub scatter_warp : Packed → Slot → Record Words → Record Words
  unfolding scatter_lane for_upto
  scatter_warp p slot r = for_upto 32 (scatter_lane p slot) r

  -- The kernels, on a grid of `threads` threads and of `warps` warps.
  unfoldable pub k_scatter_versions : ℕ → (ℕ → Packed) → (ℕ → ℕ) → (ℕ → ℕ) → Records → ℕ → Records
  unfolding grid_guard scatter_thread
  k_scatter_versions threads packed_vers grids prev_slots dst_slots n =
      grid_guard threads n
        (λ i dst.
          update dst (grids i)
            (scatter_thread (packed_vers i) (slot_at (prev_slots i)) (dst (grids i))))
        dst_slots

  unfoldable pub k_scatter_versions_warp :
      ℕ → (ℕ → Packed) → (ℕ → ℕ) → (ℕ → ℕ) → Records → ℕ → Records
  unfolding grid_stride scatter_warp
  k_scatter_versions_warp warps packed_vers grids prev_slots dst_slots n =
      grid_stride warps n
        (λ i dst.
          update dst (grids i)
            (scatter_warp (packed_vers i) (slot_at (prev_slots i)) (dst (grids i))))
        dst_slots

  -- The launch of one of them with blocks of 256 threads.
  unfoldable pub launch_scatter : (ℕ → Packed) → (ℕ → ℕ) → (ℕ → ℕ) → Records → ℕ → Records
  unfolding k_scatter_versions k_scatter_versions_warp
  launch_scatter packed_vers grids prev_slots gpu n =
      if leb 32 (4 * val_words)
      then k_scatter_versions_warp ((n + 8 - 1) / 8 * 8) packed_vers grids prev_slots gpu
          (n % 2 ^ 32)
      else k_scatter_versions ((n + 256 - 1) / 256 * 256) packed_vers grids prev_slots gpu
          (n % 2 ^ 32)

  -- One round of `k_pack_versions_by_grids`, on the entry it writes.
  unfoldable pub pack_thread : Record Words → Slot → Commit → Commit
  unfolding copy_words
  pack_thread r slot entry = record {
    version = slot_version r slot;
    value = copy_words (slot_value r slot) entry.value;
  }

  -- One lane of `k_pack_versions_by_grids_warp`.
  unfoldable pub pack_lane : Record Words → Slot → ℕ → Commit → Commit
  unfolding copy_words_lane
  pack_lane r slot lane entry = record {
    version = if lane == 0 then slot_version r slot else entry.version;
    value = copy_words_lane (slot_value r slot) lane entry.value;
  }

  unfoldable pub pack_warp : Record Words → Slot → Commit → Commit
  unfolding pack_lane for_upto
  pack_warp r slot entry = for_upto 32 (pack_lane r slot) entry

  unfoldable pub k_pack_versions_by_grids :
      ℕ → Records → (ℕ → ℕ) → (ℕ → ℕ) → (ℕ → Commit) → ℕ → ℕ → Commit
  unfolding grid_stride pack_thread
  k_pack_versions_by_grids threads src_slots grids curr_slots packed_vers n =
      grid_stride threads n
        (λ i out. update out i (pack_thread (src_slots (grids i)) (slot_at (curr_slots i)) (out i)))
        packed_vers

  unfoldable pub k_pack_versions_by_grids_warp :
      ℕ → Records → (ℕ → ℕ) → (ℕ → ℕ) → (ℕ → Commit) → ℕ → ℕ → Commit
  unfolding grid_stride pack_warp
  k_pack_versions_by_grids_warp warps src_slots grids curr_slots packed_vers n =
      grid_stride warps n
        (λ i out. update out i (pack_warp (src_slots (grids i)) (slot_at (curr_slots i)) (out i)))
        packed_vers

  -- The launch of `wb_async_queue_pack`.
  unfoldable pub launch_pack : Records → (ℕ → ℕ) → (ℕ → ℕ) → (ℕ → Commit) → ℕ → ℕ → Commit
  unfolding k_pack_versions_by_grids k_pack_versions_by_grids_warp
  launch_pack gpu grids curr_slots packed_vers n =
      if leb 32 (4 * val_words)
      then k_pack_versions_by_grids_warp ((n + 8 - 1) / 8 * 8) gpu grids curr_slots packed_vers
          (n % 2 ^ 32)
      else k_pack_versions_by_grids ((n + 256 - 1) / 256 * 256) gpu grids curr_slots packed_vers
          (n % 2 ^ 32)
