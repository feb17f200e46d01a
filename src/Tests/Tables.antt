-- ===== src/Tests/Tables.antt =====
-- The tables of EGAD/storage.h and EGAD/gpu_storage.cuh on small data.
use egad_code.Prelude.{◌<◌, ℕ, ◌≡◌, refl, none, some, arith, inl, ◌+◌}
use egad_code.Storage.{Table, loc_record_a, loc_record_b, read_from_table, write_to_table}
use egad_code.Storage.Slots.{
  IsBefore, latest, write_record_b_visible, write_elsewhere, write_version_loses_value,
}
use egad_code.Storage.Gpu.{Device, gpu_write_to_table_coop, gpu_write_to_table_thread}
use egad_code.Storage.Gpu.{lane_sum, gpu_read_from_table_coop, gpu_read_from_table_thread}
use egad_code.Storage.WarpReads.{total, gpu_read_coop-eq-thread}
use egad_code.Storage.Warp.{gpu_write_coop-eq-thread}

abbrev table : Table ℕ
table = record {
  records = λ r. record { version1 = 2; version2 = 1; value1 = 30 + r; value2 = 20 + r };
  versions = λ v. record { version = 0; value = 9 };
}

five-IsBefore : IsBefore (table.records 5) 3
five-IsBefore = record { before1 = omega arith; before2 = omega arith }

write_record_b_visible_example :
    let t' = write_to_table table 5 loc_record_b 3 77 in
    (read_from_table table 5 loc_record_a 3 ≡ some (latest (table.records 5)))
    × (read_from_table table 5 loc_record_b 3 ≡ none)
    × (read_from_table t' 5 loc_record_a 3 ≡ some (latest (table.records 5)))
    × (read_from_table t' 5 loc_record_b 3 ≡ some 77)
    × (read_from_table t' 5 loc_record_a 4 ≡ some 77)
write_record_b_visible_example = write_record_b_visible table 5 3 77 4 five-IsBefore (omega arith)

write_elsewhere_example :
    read_from_table (write_to_table table 5 loc_record_b 3 77) 6 loc_record_a 3
    ≡ read_from_table table 6 loc_record_a 3
write_elsewhere_example =
    write_elsewhere table 5 3 77 6 loc_record_a loc_record_b 3 (λ e. omega arith) (inl refl)

write_version_loses_value_example : read_from_table (write_to_table table 5 0 3 77) 5 0 3 ≡ some 9
write_version_loses_value_example =
    write_version_loses_value table 5 3 77 0 (λ e. omega arith) (λ e. omega arith)

abbrev device : Device
device = record {
  table = record {
    records = λ r. record { version1 = 2; version2 = 1; value1 = λ i. 1; value2 = λ i. 2 };
    versions = λ v. record { version = 0; value = λ i. 0 };
  };
  dirty_v1 = none;
  dirty_v2 = some (λ i. 0);
}

gpu_write_coop-eq-thread_example :
    gpu_write_to_table_coop device 5 loc_record_b 3 (λ _. 77) 4 50
    ≡ gpu_write_to_table_thread device 5 loc_record_b 3 77 4 50
gpu_write_coop-eq-thread_example = gpu_write_coop-eq-thread device 5 loc_record_b 3 77 4 50

-- A read of 40 words that are all 1: a lane reads two or one of them.
abbrev ones : ℕ → ℕ
ones lane = lane_sum (λ i. 1) 0 40 lane 2 0 0

lanes_read :
    (lane : ℕ)
    → lane < 32
    → gpu_read_from_table_coop device.table 5 loc_record_a 3 0 lane 0 40 ≡ some (ones lane)
unfolding gpu_read_from_table_coop
lanes_read lane l = refl

gpu_read_coop-eq-thread_example :
    gpu_read_from_table_thread device.table 5 loc_record_a 3 0 0 40 ≡ some (total ones 32)
gpu_read_coop-eq-thread_example =
    gpu_read_coop-eq-thread device.table 5 loc_record_a 3 0 40 ones (λ e. omega arith) lanes_read

-- Together they read 40 ones.
total_test : total ones 32 ≡ 40
unfolding total lane_sum
total_test = refl
