-- ===== src/Storage/Gpu.antt =====
-- EGAD/gpu_storage.cuh: the executor's reads and writes of a table, by a warp or by one thread.
--
-- A value is an array of 32-bit words. In a cooperative call lane 0 of the warp picks the slot and
-- broadcasts its address; each of the 32 lanes then handles the words `offset + lane`,
-- `offset + lane + 32`, and so on. The lanes write disjoint words: `warp_store` runs them in order.
-- The dirty arrays are the pointers `dirty_v1` and `dirty_v2`, `none` for a null pointer.
use egad_code.Prelude.{
  ℕ, zero, suc, ◌+◌, ◌/◌, Option, none, some, not, ◌&&◌, ◌==◌, ltb, if◌then◌else◌,
}
use egad_code.Prelude.Words.{add32, absent}
use egad_code.Storage.{
  Table, Target, first, second, in_record, in_version, update, read_target, write_target,
  target_value, poll, set_value, set_version,
}

abbrev pub Words : Type 0
Words = ℕ → ℕ

-- The loop over `base` of one lane of a cooperative read, for `rounds` more rounds.
unfoldable pub lane_sum : Words → ℕ → ℕ → ℕ → ℕ → ℕ → ℕ → ℕ
lane_sum words offset length lane zero base result = result
lane_sum words offset length lane (suc rounds) base result =
    lane_sum words offset length lane rounds (base + 32)
      (if ltb (lane + base) length then add32 result (words (offset + base + lane)) else result)

-- The loop over `i` of a read by one thread.
unfoldable pub thread_sum : Words → ℕ → ℕ → ℕ → ℕ → ℕ
thread_sum words offset zero i result = result
thread_sum words offset (suc left) i result =
    thread_sum words offset left (i + 1) (add32 result (words (offset + i)))

-- The rounds of `for (base = 0; base < length; base += 32)`.
abbrev pub warp_rounds : ℕ → ℕ
warp_rounds length = (length + 31) / 32

-- The loop over `base` of one lane of a cooperative write.
unfoldable pub lane_store : ℕ → ℕ → ℕ → ℕ → ℕ → ℕ → Words → Words
lane_store offset length lane word zero base words = words
lane_store offset length lane word (suc rounds) base words =
    lane_store offset length lane word rounds (base + 32)
      (if ltb (lane + base) length then update words (offset + base + lane) word else words)

-- The first `lanes` lanes of the warp, each with its own word.
unfoldable pub warp_store : ℕ → ℕ → Words → ℕ → Words → Words
unfolding lane_store
warp_store offset length word zero words = words
warp_store offset length word (suc lanes) words =
    lane_store offset length lanes (word lanes) (warp_rounds length) 0
      (warp_store offset length word lanes words)

-- The loop over `i` of a write by one thread.
unfoldable pub thread_store : ℕ → ℕ → ℕ → ℕ → Words → Words
thread_store offset word zero i words = words
thread_store offset word (suc left) i words =
    thread_store offset word left (i + 1) (update words (offset + i) word)

-- `gpuReadFromTableCoop` for one lane; `none` while the leader spins.
unfoldable pub gpu_read_from_table_coop : Table Words → ℕ → ℕ → ℕ → ℕ → ℕ → ℕ → ℕ → Option ℕ
unfolding read_target poll target_value lane_sum
gpu_read_from_table_coop t record_id read_loc epoch result lane offset length =
    if record_id == absent
    then some result
    else let (target, waits) = read_target t record_id read_loc epoch in
      if waits && not (poll t record_id target epoch)
      then none
      else some
          (lane_sum (target_value t record_id target) offset length lane (warp_rounds length) 0 0)

-- `gpuReadFromTableThread`; it adds to the result that it is given.
unfoldable pub gpu_read_from_table_thread : Table Words → ℕ → ℕ → ℕ → ℕ → ℕ → ℕ → Option ℕ
unfolding read_target poll target_value thread_sum
gpu_read_from_table_thread t record_id read_loc epoch result offset length =
    if record_id == absent
    then some result
    else let (target, waits) = read_target t record_id read_loc epoch in
      if waits && not (poll t record_id target epoch)
      then none
      else some (thread_sum (target_value t record_id target) offset length 0 result)

pub record Device : Type 0 where
  pub table : Table Words
  pub dirty_v1 : Option (ℕ → ℕ)
  pub dirty_v2 : Option (ℕ → ℕ)

-- `if (dirty != nullptr) dirty[record_id] = 1;`
abbrev pub set_dirty : Option (ℕ → ℕ) → ℕ → Option (ℕ → ℕ)
set_dirty none record_id = none
set_dirty (some flags) record_id = some (update flags record_id 1)

unfoldable pub mark_dirty : Device → ℕ → Target → Device
mark_dirty d record_id (in_record first) = record d { dirty_v1 = set_dirty d.dirty_v1 record_id }
mark_dirty d record_id (in_record second) = record d { dirty_v2 = set_dirty d.dirty_v2 record_id }
mark_dirty d record_id (in_version i) = d

-- `gpuWriteToTableCoop` for a whole warp, lane `l` holding the word `word l`.
unfoldable pub gpu_write_to_table_coop : Device → ℕ → ℕ → ℕ → Words → ℕ → ℕ → Device
unfolding write_target mark_dirty warp_store set_value set_version target_value
gpu_write_to_table_coop d record_id write_loc epoch word offset length =
    if record_id == absent
    then d
    else let target = write_target d.table record_id write_loc in
      let d' = mark_dirty d record_id target in
      let value = warp_store offset length word 32 (target_value d'.table record_id target) in
      record d' {
        table = set_version (set_value d'.table record_id target value) record_id target epoch;
      }

-- `gpuWriteToTableThread`.
unfoldable pub gpu_write_to_table_thread : Device → ℕ → ℕ → ℕ → ℕ → ℕ → ℕ → Device
unfolding write_target mark_dirty thread_store set_value set_version target_value
gpu_write_to_table_thread d record_id write_loc epoch word offset length =
    if record_id == absent
    then d
    else let target = write_target d.table record_id write_loc in
      let d' = mark_dirty d record_id target in
      let value = thread_store offset word length 0 (target_value d'.table record_id target) in
      record d' {
        table = set_version (set_value d'.table record_id target value) record_id target epoch;
      }
