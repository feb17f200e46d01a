-- ===== src/Tests/Staging.antt =====
-- The staging of EGAD/scatter_gather.cu on small data.
use egad_code.Prelude.{
  ℕ, ◌+◌, ◌-◌, ◌*◌, ◌/◌, ◌≤◌, ◌<◌, ◌≡◌, ◌⊎◌, refl, some, none, true, false, arith, min,
}
use egad_code.Prelude.Words.{add64}
use egad_code.Prelude.Loops.{for_upto}
use egad_code.Storage.{
  Version, select_write, loc_record_a, loc_record_b, read_from_table, write_to_table,
}
use egad_code.Storage.Gpu.{Words}
use egad_code.ScatterGather.{
  Packed, Commit, Records, slot_at, packed_versions_bytes, packed_writeback_bytes,
  scatter_host_versions_range_from_packed,
}
use egad_code.ScatterGather.Transfer.{Stage, Transferred, transfer_versions, transfer_chunk_elems}
use egad_code.ScatterGather.Writeback.{Half, writeback_versions, wb_chunked_d2h_scatter}
use egad_code.ScatterGather.Admission.{admit, transfer_versions-eq-admit}
use egad_code.ScatterGather.Pipeline.{commit, writeback_versions-eq-commit}
use egad_code.ScatterGather.Drained.{wb_chunked_d2h_scatter-eq-scatter}
use egad_code.ScatterGather.RoundTrip.{Agree, transfer_versions-read_a, transfer-write-writeback}
use egad_code.ScatterGather.Buffers.{
  Buffers, both, initial, ensure_versions_capacity, ensure_versions_chunk_buffers,
  ensure_chunk_buffers, wb_async_ensure,
}
use egad_code.ScatterGather.Capacity.{
  size, AtLeast, FitsWhole, FitsChunks, wb_async_ensure-FitsWhole,
  ensure_versions_capacity-slots_short, chunks_fit, transfer_chunk_elems_lem,
}

-- Values of three words; two records, from CRIDs 4 and 5 to GRIDs 1 and 2.
abbrev host : Records
host r = record { version1 = 2; version2 = 1; value1 = λ i. 10 * r + i; value2 = λ i. 5 }

abbrev device : Records
device g = record { version1 = 0; version2 = 0; value1 = λ i. 0; value2 = λ i. 0 }

abbrev crids : ℕ → ℕ
crids i = i + 4

abbrev grids : ℕ → ℕ
grids i = i + 1

abbrev second_slots : ℕ → ℕ
second_slots i = 1

abbrev entry : Packed
entry = record { ver1 = 9; ver2 = 9; value = λ i. 9 }

abbrev stage : Stage
stage = record {
  h_packed_vers = λ i. entry;
  h_prev_slots = λ i. 0;
  h_grids = λ i. 0;
  d_packed_vers = λ i. entry;
  d_prev_slots = λ i. 0;
  d_grids = λ i. 0;
}

abbrev before : Transferred
before = record {
  whole = stage;
  halves = λ b. stage;
  admit_h2d_payload_bytes_total = 100;
  gpu = device;
}

abbrev commit_entry : Commit
commit_entry = record { version = 3; value = λ i. 9 }

abbrev half : Half
half = record {
  h_grids = λ i. 0;
  h_curr_slots = λ i. 0;
  d_grids = λ i. 0;
  d_curr_slots = λ i. 0;
  d_packed_vers = λ i. commit_entry;
  h_packed_vers = λ i. commit_entry;
}

abbrev scratch : ℕ → Version Words
scratch v = record { version = 0; value = λ i. 0 }

transfer_versions-eq-admit_example :
    let after = transfer_versions 3 host crids grids 3 true 4194304 2 before in
    (after.gpu ≡ for_upto 2 (admit 3 host crids grids 3) device)
    × (after.admit_h2d_payload_bytes_total ≡ add64 100 (2 * packed_versions_bytes 3))
transfer_versions-eq-admit_example =
    transfer_versions-eq-admit 3 host crids grids 3 (omega arith) true 4194304 2 before
      (omega arith) (omega arith)

abbrev on_device : Records
on_device = (transfer_versions 3 host crids grids 3 true 4194304 2 before).gpu

transfer_versions-read_a_example :
    (v v' : Words) × (read_from_table
        (record { records = on_device; versions = scratch })
        2
        loc_record_a
        3
      ≡ some v)
    × (read_from_table (record { records = host; versions = scratch }) 5 loc_record_a 3 ≡ some v')
    × ((i : ℕ) → i < 3 → v i ≡ v' i)
transfer_versions-read_a_example =
    transfer_versions-read_a 3 host crids grids 3 2 (omega arith) (omega arith)
      (λ i j l m e. omega arith) true 4194304 before (omega arith) 1 scratch (omega arith)
      (λ e. omega arith)

-- The device writes `value` to record B of every record.
abbrev value : Words
value i = 70 + i

abbrev wrote : Records
wrote g =
    (write_to_table (record { records = on_device; versions = scratch }) g loc_record_b 3
        value).records
      g

second_written : (i : ℕ) → i < 2 → slot_at (second_slots i) ≡ select_write (host (crids i))
unfolding select_write
second_written i l = refl

transfer-write-writeback_example :
    (cpu' : Records) × (writeback_versions 3 true crids second_slots true grids wrote true 4194304 2
        half
        (λ b. half)
        0
        host
      ≡ some (add64 0 (2 * packed_writeback_bytes 3), cpu'))
    × ((j : ℕ)
        → j < 2
        → Agree 3 (cpu' (crids j)) (
            (write_to_table
                (record { records = host; versions = scratch })
                (crids j)
                loc_record_b
                3
                value).records
              (crids j)))
transfer-write-writeback_example =
    transfer-write-writeback 3 host crids grids 3 2 (omega arith) (omega arith)
      (λ i j l m e. omega arith) true 4194304 before (omega arith) (λ i j l m e. omega arith)
      (λ i l e. omega arith) (λ i. value) wrote scratch (λ i l. refl) second_slots second_written
      true true refl true 4194304 0 half (λ b. half) (omega arith)

writeback_versions-eq-commit_example :
    writeback_versions 3 false crids second_slots false grids device false 4194304 2 half
      (λ b. half)
      0
      host
    ≡ some (
      add64 0 (2 * packed_writeback_bytes 3),
      for_upto 2 (commit 3 device grids crids second_slots) host,
    )
writeback_versions-eq-commit_example =
    writeback_versions-eq-commit 3 grids crids second_slots device false false (omega arith) refl
      host false 4194304 2 0 half (λ b. half) (omega arith) (omega arith)

wb_chunked_d2h_scatter-eq-scatter_example :
    wb_chunked_d2h_scatter 3 true crids second_slots
      (λ i. commit_entry)
      5
      2
      0
      (λ b i. commit_entry)
      0
      host
    ≡ some (
      add64 0 (3 * packed_writeback_bytes 3),
      scatter_host_versions_range_from_packed 3 host crids second_slots 2 3 (λ i. commit_entry),
    )
wb_chunked_d2h_scatter-eq-scatter_example =
    wb_chunked_d2h_scatter-eq-scatter 3 crids second_slots (λ i. commit_entry) 5 2 0 0
      (λ b i. commit_entry) host (omega arith) (omega arith) (omega arith)

initial-FitsWhole : FitsWhole 3 initial
initial-FitsWhole = record {
  grids = omega arith;
  packed_host = omega arith;
  packed_device = omega arith;
  slots_host = omega arith;
  slots = omega arith;
  current = omega arith;
}

wb_async_ensure-FitsWhole_example :
    let b = wb_async_ensure 3 8 initial in
    FitsWhole 3 b
    × (8 * packed_versions_bytes 3 ≤ size b.h_packed_vers)
    × (8 * packed_versions_bytes 3 ≤ size b.d_packed_vers)
    × (8 * 4 ≤ size b.d_grids_persistent)
    × (8 ≤ size b.d_curr_slots_buf.at0)
wb_async_ensure-FitsWhole_example = wb_async_ensure-FitsWhole 3 8 initial initial-FitsWhole

ensure_versions_capacity-slots_short_example :
    let b =
      ensure_versions_capacity 3 13
        (ensure_versions_capacity 3 11 (ensure_versions_capacity 3 10 initial)) in
    (size b.h_prev_slots ≡ 11) × (size b.h_prev_slots < 13) × (13 ≤ b.cap_vers_elems)
ensure_versions_capacity-slots_short_example =
    ensure_versions_capacity-slots_short 3 10 13 (omega arith) (omega arith) (omega arith)

abbrev nothing : AtLeast 0 (both none)
nothing = (omega arith, omega arith)

initial-FitsChunks : FitsChunks 3 initial
initial-FitsChunks = record {
  d_grids = nothing;
  h_grids = nothing;
  h_packed = nothing;
  d_packed = nothing;
  h_prev = nothing;
  d_prev = nothing;
  h_curr = nothing;
  d_curr = nothing;
}

chunks_fit_example :
    let b = ensure_chunk_buffers 100 (ensure_versions_chunk_buffers 3 100 initial) in
    let m = min 100 (130 - 100) in
    FitsChunks 3 b
    × AtLeast (m * packed_versions_bytes 3) b.h_packed_vers_buf
    × AtLeast (m * packed_versions_bytes 3) b.d_packed_vers_buf
    × AtLeast (m * packed_writeback_bytes 3) b.h_packed_vers_buf
    × AtLeast m b.d_prev_slots_buf
    × AtLeast m b.d_curr_slots_buf
    × AtLeast (m * 4) b.h_grids_buf
    × AtLeast (m * 4) b.d_grids_buf
chunks_fit_example = chunks_fit 3 100 100 130 initial initial-FitsChunks

-- An object in chunk mode that has grown its double buffers.
abbrev used : Buffers
used = ensure_versions_chunk_buffers 3 100 (record initial { chunk_mode = true })

transfer_chunk_elems_lem_example :
    (1 ≤ transfer_chunk_elems 3 4194304 2)
    × ((packed_versions_bytes 3 * transfer_chunk_elems 3 4194304 2 ≤ 33554432)
        ⊎ (transfer_chunk_elems 3 4194304 2 ≡ 1))
    × (min 2 (33554432 / packed_versions_bytes 3) ≤ transfer_chunk_elems 3 4194304 2)
transfer_chunk_elems_lem_example = transfer_chunk_elems_lem 3 4194304 2
