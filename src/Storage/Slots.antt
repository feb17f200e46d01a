-- ===== src/Storage/Slots.antt =====
-- The two slots of a record across an epoch: EGAD/storage.h, through the CPU's reads and writes.
use egad_code.Prelude.{ℕ, ◌<◌, ◌≡◌, ◌≢◌, ◌⊎◌, none, some, ltb, if◌then◌else◌, arith}
use egad_code.Storage.{Record, Table, loc_record_a, loc_record_b, read_from_table, write_to_table}

-- The value that the record has between epochs: the one with the greater version, the first on a
-- tie.
abbrev pub latest : {A : Type 0} → Record A → A
latest r = if ltb r.version1 r.version2 then r.value2 else r.value1

-- No slot was written in the epoch or after it.
pub record IsBefore {A : Type 0} (r : Record A) (epoch : ℕ) : Type 0 where
  pub before1 : r.version1 < epoch
  pub before2 : r.version2 < epoch

module _ {A : Type 0} (t : Table A) (record_id epoch : ℕ) (v : A) where
  -- While no slot of the record has a version of the epoch: a read of record A gives the latest
  -- value, and a read of record B spins. After the epoch's write of record B: a read of record A
  -- still gives the value from before, a read of record B gives the written value, and in every
  -- later epoch the written value is what a read of record A gives.
  pub write_record_b_visible :
      (later : ℕ)
      → IsBefore (t.records record_id) epoch
      → epoch < later
      → let t' = write_to_table t record_id loc_record_b epoch v in
        (read_from_table t record_id loc_record_a epoch ≡ some (latest (t.records record_id)))
        × (read_from_table t record_id loc_record_b epoch ≡ none)
        × (read_from_table t' record_id loc_record_a epoch ≡ some (latest (t.records record_id)))
        × (read_from_table t' record_id loc_record_b epoch ≡ some v)
        × (read_from_table t' record_id loc_record_a later ≡ some v)
  unfolding read_from_table write_to_table
  write_record_b_visible later b h =
      (ground arith, ground arith, ground arith, ground arith, ground arith)

  -- A write changes what no other record's reads of record A and record B give.
  pub write_elsewhere :
      (other loc write_loc epoch' : ℕ)
      → other ≢ record_id
      → (loc ≡ loc_record_a) ⊎ (loc ≡ loc_record_b)
      → read_from_table (write_to_table t record_id write_loc epoch v) other loc epoch'
        ≡ read_from_table t other loc epoch'
  unfolding read_from_table write_to_table
  write_elsewhere other loc write_loc epoch' ne at = ground arith

  -- The CPU's write of a scratch version publishes the version and not the value: a read of the
  -- same location in the same epoch gives what the scratch version held before, whatever was
  -- written.
  pub write_version_loses_value :
      (loc : ℕ)
      → loc ≢ loc_record_a
      → loc ≢ loc_record_b
      → read_from_table (write_to_table t record_id loc epoch v) record_id loc epoch
        ≡ some (t.versions loc).value
  unfolding read_from_table write_to_table
  write_version_loses_value loc a b = ground arith
