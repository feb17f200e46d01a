-- ===== src/ScatterGather/Transfer.antt =====
-- EGAD/scatter_gather.cu: `scatter_device_versions_` and `transfer_versions`, host to device.
--
-- The waits on events order a copy after the gather before it, a kernel after its copies, and the
-- reuse of a buffer after the kernel that read it; so the steps of a call run in the order of
-- their calls. What the buffers held before a call is part of the state.
use Prim.Native.Nat.{max}
use egad_code.Prelude.{ℕ, zero, suc, ◌+◌, ◌-◌, ◌*◌, ◌/◌, Bool, min, ltb, ◌==◌, if◌then◌else◌}
use egad_code.Prelude.Words.{add64}
use egad_code.Storage.{update}
use egad_code.ScatterGather.{
  Packed, Records, packed_versions_bytes, memcpy_array, gather_host_versions,
  gather_host_versions_range,
}
use egad_code.ScatterGather.Kernels.{launch_scatter}

-- The host's and the device's buffers of the non-chunk path, or of one half of the double buffer.
pub record Stage : Type 0 where
  pub h_packed_vers : ℕ → Packed
  pub h_prev_slots : ℕ → ℕ
  pub h_grids : ℕ → ℕ
  pub d_packed_vers : ℕ → Packed
  pub d_prev_slots : ℕ → ℕ
  pub d_grids : ℕ → ℕ

pub record Transferred : Type 0 where
  pub whole : Stage
  pub halves : ℕ → Stage
  pub admit_h2d_payload_bytes_total : ℕ
  pub gpu : Records

-- `buf ^= 1` on 0 and 1.
abbrev pub other_buf : ℕ → ℕ
other_buf buf = if buf == 0 then 1 else 0

module _ (val_words : ℕ) where
  -- `scatter_device_versions_`: the grids and the slots are copied to the device first.
  unfoldable pub scatter_device_versions : Stage → Records → (ℕ → ℕ) → ℕ → Stage × Records
  unfolding launch_scatter
  scatter_device_versions st gpu h_grids n =
      let st' = record st {
        d_grids = memcpy_array n h_grids 0 st.d_grids;
        d_prev_slots = memcpy_array n st.h_prev_slots 0 st.d_prev_slots;
      } in
      (st', launch_scatter val_words st'.d_packed_vers st'.d_grids st'.d_prev_slots gpu n)

  -- The chunk's size in entries: the payload's, between 4 MiB or `chunk_bytes` and 32 MiB.
  unfoldable pub transfer_chunk_elems : ℕ → ℕ → ℕ
  transfer_chunk_elems chunk_bytes n =
      let total_payload_bytes = n * packed_versions_bytes val_words in
      let adaptive_chunk_bytes = min 33554432 (max 4194304 total_payload_bytes) in
      let effective_chunk_bytes = min 33554432 (max chunk_bytes adaptive_chunk_bytes) in
      max 1 (effective_chunk_bytes / packed_versions_bytes val_words)

  module _ (cpu : Records) (h_crids h_grids : ℕ → ℕ) (epoch : ℕ) where
    -- The path without chunks.
    unfoldable pub transfer_whole : ℕ → Stage → Records → Stage × Records
    unfolding gather_host_versions scatter_device_versions
    transfer_whole n st gpu =
        let g =
          gather_host_versions val_words cpu h_crids n epoch
            (record { packed = st.h_packed_vers; prev_slots = st.h_prev_slots }) in
        let st' = record st {
          h_packed_vers = g.packed;
          h_prev_slots = g.prev_slots;
          d_packed_vers = memcpy_array n g.packed 0 st.d_packed_vers;
        } in
        scatter_device_versions st' gpu h_grids n

    -- One round of the loop over chunks, in the half that it uses.
    unfoldable pub transfer_chunk : ℕ → ℕ → Stage → Records → Stage × Records
    unfolding gather_host_versions_range launch_scatter
    transfer_chunk base m st gpu =
        let g =
          gather_host_versions_range val_words cpu h_crids base m epoch
            (record { packed = st.h_packed_vers; prev_slots = st.h_prev_slots }) in
        let grids = memcpy_array m h_grids base st.h_grids in
        let st' : Stage = record {
          h_packed_vers = g.packed;
          h_prev_slots = g.prev_slots;
          h_grids = grids;
          d_packed_vers = memcpy_array m g.packed 0 st.d_packed_vers;
          d_prev_slots = memcpy_array m g.prev_slots 0 st.d_prev_slots;
          d_grids = memcpy_array m grids 0 st.d_grids;
        } in
        (st', launch_scatter val_words st'.d_packed_vers st'.d_grids st'.d_prev_slots gpu m)

    -- `while (base < n)`.
    unfoldable pub transfer_chunks :
        ℕ → ℕ → ℕ → ℕ → ℕ → (ℕ → Stage) → Records → (ℕ → Stage) × Records
    unfolding transfer_chunk
    transfer_chunks zero chunk_elems n base buf_idx halves gpu = (halves, gpu)
    transfer_chunks (suc fuel) chunk_elems n base buf_idx halves gpu =
        let m = min chunk_elems (n - base) in
        let (st, gpu') = transfer_chunk base m (halves buf_idx) gpu in
        let rest =
          transfer_chunks fuel chunk_elems n (base + m) (other_buf buf_idx)
            (update halves buf_idx st) gpu' in
        if ltb base n then rest else (halves, gpu)

    unfoldable pub transfer_versions : Bool → ℕ → ℕ → Transferred → Transferred
    unfolding transfer_whole transfer_chunks transfer_chunk_elems
    transfer_versions chunk_mode chunk_bytes n sg =
        let admitted =
          add64 sg.admit_h2d_payload_bytes_total (n * packed_versions_bytes val_words) in
        let (st, by_whole) = transfer_whole n sg.whole sg.gpu in
        let (halves, by_chunks) =
          transfer_chunks n (transfer_chunk_elems chunk_bytes n) n 0 0 sg.halves sg.gpu in
        if n == 0
        then sg
        else if chunk_mode
        then record sg {
          halves = halves;
          admit_h2d_payload_bytes_total = admitted;
          gpu = by_chunks;
        }
        else record sg { whole = st; admit_h2d_payload_bytes_total = admitted; gpu = by_whole }
