-- ===== src/ScatterGather.antt =====
-- EGAD/scatter_gather.h and EGAD/scatter_gather.cu: records packed on the host, copied in bulk and
-- scattered to the device, and written versions packed on the device and scattered to the host.
--
-- A value is `val_words` words of 32 bits (`kValBytes / 4`, as the static assertions ask). A buffer
-- of packed entries is a function of the entry's number: entry `i` stands for the bytes from
-- `i * kPackedVersionsBytes_` on (`Packed`), or from `i * kPackedWritebackBytes_` on (`Commit`).
-- The threads and lanes of a kernel run in the order of their numbers; no two of them write the
-- same word unless a number of a record occurs twice. A function that returns at once for `n = 0`
-- is its loop of no rounds.
pub mod Kernels
pub mod Copies
pub mod Transfer
pub mod Chunks
pub mod Admission
pub mod Writeback
pub mod Pipeline
pub mod Drained
pub mod RoundTrip
pub mod Buffers
pub mod Capacity
use Prim.Native.Nat.{max}
use egad_code.Prelude.{ℕ, zero, suc, ◌+◌, ◌-◌, ◌*◌, ◌/◌, min, ltb, ◌==◌, if◌then◌else◌}
use egad_code.Prelude.Words.{absent}
use egad_code.Prelude.Loops.{for_upto, for_range}
use egad_code.Storage.{
  Record, Slot, first, second, update, slot_version, slot_value, with_value, with_version,
}
use egad_code.Storage.Gpu.{Words}

-- `[ver1 | ver2 | value]`.
pub record Packed : Type 0 where
  pub ver1 : ℕ
  pub ver2 : ℕ
  pub value : Words

-- `[version | value]`.
pub record Commit : Type 0 where
  pub version : ℕ
  pub value : Words

abbrev pub Records : Type 0
Records = ℕ → Record Words

-- `kPackedVersionsBytes_` and `kPackedWritebackBytes_`.
abbrev pub packed_versions_bytes : ℕ → ℕ
packed_versions_bytes val_words = 8 + 4 * val_words

abbrev pub packed_writeback_bytes : ℕ → ℕ
packed_writeback_bytes val_words = 4 + 4 * val_words

unfoldable pub classify_prev_slot_host : ℕ → ℕ → ℕ → ℕ
classify_prev_slot_host v1 v2 epoch =
    if v1 == epoch then 1 else if v2 == epoch then 0 else if ltb v1 v2 then 1 else 0

-- `(slot == 0) ? ... : ...`.
abbrev pub slot_at : ℕ → Slot
slot_at slot = if slot == 0 then first else second

-- `memcpy` of the first `n` words.
abbrev pub memcpy_words : ℕ → Words → Words → Words
memcpy_words n src dst j = if ltb j n then src j else dst j

-- `memcpy` or `cudaMemcpyAsync` of `n` elements from `src + base`.
abbrev pub memcpy_array : {A : Type 0} → ℕ → (ℕ → A) → ℕ → (ℕ → A) → ℕ → A
memcpy_array n src base dst i = if ltb i n then src (base + i) else dst i

-- The packed versions and the slots of their values, on the host.
pub record Gathered : Type 0 where
  pub packed : ℕ → Packed
  pub prev_slots : ℕ → ℕ

module _ (val_words : ℕ) where
  -- The entry for one CRID, over what the buffer held; zeros for the sentinel.
  unfoldable pub gather_entry : Records → ℕ → ℕ → Packed → Packed × ℕ
  unfolding classify_prev_slot_host
  gather_entry cpu crid epoch old =
      let r = cpu crid in
      let slot = classify_prev_slot_host r.version1 r.version2 epoch in
      if crid == absent
      then (record { ver1 = 0; ver2 = 0; value = memcpy_words val_words (λ _. 0) old.value }, 0)
      else (
        record {
          ver1 = r.version1;
          ver2 = r.version2;
          value = memcpy_words val_words (slot_value r (slot_at slot)) old.value;
        },
        slot,
      )

  -- The body of the loops: CRID `idx` to entry `i`.
  unfoldable pub gather_step : Records → (ℕ → ℕ) → ℕ → ℕ → ℕ → Gathered → Gathered
  unfolding gather_entry
  gather_step cpu h_crids epoch idx i g =
      let (entry, slot) = gather_entry cpu (h_crids idx) epoch (g.packed i) in
      record { packed = update g.packed i entry; prev_slots = update g.prev_slots i slot }

  unfoldable pub gather_host_versions_range : Records → (ℕ → ℕ) → ℕ → ℕ → ℕ → Gathered → Gathered
  unfolding gather_step for_upto
  gather_host_versions_range cpu h_crids base n epoch out =
      for_upto n (λ i. gather_step cpu h_crids epoch (base + i) i) out

  -- `for (base = 0; base < n; base += chunk_elems)`, each block up to `min(n, base + chunk_elems)`.
  unfoldable pub gather_blocks : ℕ → ℕ → Records → (ℕ → ℕ) → ℕ → ℕ → ℕ → Gathered → Gathered
  unfolding gather_step for_upto
  gather_blocks zero chunk_elems cpu h_crids n epoch base out = out
  gather_blocks (suc fuel) chunk_elems cpu h_crids n epoch base out =
      let end = min n (base + chunk_elems) in
      let out' = for_range base (end - base) (λ i. gather_step cpu h_crids epoch i i) out in
      let rest = gather_blocks fuel chunk_elems cpu h_crids n epoch (base + chunk_elems) out' in
      if ltb base n then rest else out

  unfoldable pub gather_host_versions : Records → (ℕ → ℕ) → ℕ → ℕ → Gathered → Gathered
  unfolding gather_blocks
  gather_host_versions cpu h_crids n epoch out =
      gather_blocks n (max 1 (2097152 / packed_versions_bytes val_words)) cpu h_crids n epoch 0 out

  -- The body of the loops of the host scatter: the value, then the version, of the record
  -- with CRID `idx`, from entry `i`; the sentinel is skipped.
  unfoldable pub scatter_host_step : (ℕ → ℕ) → (ℕ → ℕ) → (ℕ → Commit) → ℕ → ℕ → Records → Records
  scatter_host_step h_crids h_curr_slots src idx i cpu =
      let crid = h_crids idx in
      let slot = slot_at (h_curr_slots idx) in
      let r = cpu crid in
      let stored = with_value r slot (memcpy_words val_words (src i).value (slot_value r slot)) in
      if crid == absent then cpu else update cpu crid (with_version stored slot (src i).version)

  unfoldable pub scatter_host_versions_range_from_packed :
      Records → (ℕ → ℕ) → (ℕ → ℕ) → ℕ → ℕ → (ℕ → Commit) → Records
  unfolding scatter_host_step for_upto
  scatter_host_versions_range_from_packed cpu h_crids h_curr_slots base n packed_vers =
      for_upto n (λ i. scatter_host_step h_crids h_curr_slots packed_vers (base + i) i) cpu
