-- ===== src/Storage.antt =====
-- EGAD/storage.h: records with two versions, scratch versions, and the CPU's reads and writes.
--
-- A table is its array of records and its array of scratch versions, each a function of the index.
-- A read or write first picks the slot that it goes to (`read_target`, `write_target`). A read that
-- has to wait spins on the version of that slot: `poll` is one round of the spin, and `none` is the
-- outcome of a round that does not find the epoch. The value and the version of a slot are stored
-- by two writes to memory, `set_value` and then `set_version`.
-- The CPU functions load both versions as one word, so they are those of the original layout
-- (HYBRID_RECORD_LAYOUT undefined).
pub mod Gpu
pub mod Slots
pub mod Cells
pub mod Warp
pub mod WarpReads
use egad_code.Prelude.{
  ℕ, Bool, true, false, Option, none, some, not, ◌&&◌, ◌==◌, ltb, if◌then◌else◌,
}

pub record Record (A : Type 0) : Type 0 where
  pub version1 : ℕ
  pub version2 : ℕ
  pub value1 : A
  pub value2 : A

pub record Version (A : Type 0) : Type 0 where
  pub version : ℕ
  pub value : A

pub record Table (A : Type 0) : Type 0 where
  pub records : ℕ → Record A
  pub versions : ℕ → Version A

-- `std::numeric_limits<uint32_t>::max()` and one less.
abbrev pub loc_record_a : ℕ
loc_record_a = 0xffffffff

abbrev pub loc_record_b : ℕ
loc_record_b = 0xfffffffe

-- One of the two slots of a record.
pub data Slot : Type 0 where
  first second : Slot

-- What `value_to_read` and `value_to_write` point at: a slot of the record, or a scratch version.
pub data Target : Type 0 where
  in_record : Slot → Target
  in_version : ℕ → Target

abbrev pub update {ℓ} : {A : Type ℓ} → (ℕ → A) → ℕ → A → ℕ → A
update f i v j = if j == i then v else f j

abbrev pub slot_version : {A : Type 0} → Record A → Slot → ℕ
slot_version r first = r.version1
slot_version r second = r.version2

abbrev pub slot_value : {A : Type 0} → Record A → Slot → A
slot_value r first = r.value1
slot_value r second = r.value2

abbrev pub with_value : {A : Type 0} → Record A → Slot → A → Record A
with_value r first v = record r { value1 = v }
with_value r second v = record r { value2 = v }

abbrev pub with_version : {A : Type 0} → Record A → Slot → ℕ → Record A
with_version r first e = record r { version1 = e }
with_version r second e = record r { version2 = e }

module _ {A : Type 0} where
  -- The slot that holds the value from before the epoch.
  unfoldable pub select_a : Record A → ℕ → Slot
  select_a r epoch =
      if r.version1 == epoch
      then second
      else if r.version2 == epoch
      then first
      else if ltb r.version1 r.version2
      then second
      else first

  -- The slot that is, or will be, written in the epoch, and whether the reader must wait for it.
  unfoldable pub select_b : Record A → ℕ → Slot × Bool
  select_b r epoch =
      if r.version1 == epoch
      then (first, false)
      else if r.version2 == epoch
      then (second, false)
      else if ltb r.version1 r.version2
      then (first, true)
      else (second, true)

  -- The slot that a write to record B replaces: the older one.
  unfoldable pub select_write : Record A → Slot
  select_write r = if ltb r.version1 r.version2 then first else second

  unfoldable pub read_target : Table A → ℕ → ℕ → ℕ → Target × Bool
  unfolding select_a select_b
  read_target t record_id read_loc epoch =
      let r = t.records record_id in
      if read_loc == loc_record_a
      then (in_record (select_a r epoch), false)
      else if read_loc == loc_record_b
      then (in_record (select_b r epoch).0, (select_b r epoch).1)
      else (in_version read_loc, true)

  unfoldable pub write_target : Table A → ℕ → ℕ → Target
  unfolding select_write
  write_target t record_id write_loc =
      if write_loc == loc_record_b
      then in_record (select_write (t.records record_id))
      else in_version write_loc

  unfoldable pub target_version : Table A → ℕ → Target → ℕ
  target_version t record_id (in_record s) = slot_version (t.records record_id) s
  target_version t record_id (in_version i) = (t.versions i).version

  unfoldable pub target_value : Table A → ℕ → Target → A
  target_value t record_id (in_record s) = slot_value (t.records record_id) s
  target_value t record_id (in_version i) = (t.versions i).value

  -- `memcpy` into the slot.
  unfoldable pub set_value : Table A → ℕ → Target → A → Table A
  set_value t record_id (in_record s) v = record t {
    records = update t.records record_id (with_value (t.records record_id) s v);
  }
  set_value t record_id (in_version i) v = record t {
    versions = update t.versions i (record (t.versions i) { value = v });
  }

  -- `__atomic_store_n` of the slot's version.
  unfoldable pub set_version : Table A → ℕ → Target → ℕ → Table A
  set_version t record_id (in_record s) e = record t {
    records = update t.records record_id (with_version (t.records record_id) s e);
  }
  set_version t record_id (in_version i) e = record t {
    versions = update t.versions i (record (t.versions i) { version = e });
  }

  -- One round of the spin on the target's version.
  unfoldable pub poll : Table A → ℕ → Target → ℕ → Bool
  unfolding target_version
  poll t record_id target epoch = target_version t record_id target == epoch

  -- `readFromTable`; `none` while it spins.
  unfoldable pub read_from_table : Table A → ℕ → ℕ → ℕ → Option A
  unfolding read_target poll target_value
  read_from_table t record_id read_loc epoch =
      let (target, waits) = read_target t record_id read_loc epoch in
      if waits && not (poll t record_id target epoch)
      then none
      else some (target_value t record_id target)

  -- `writeToTable`. The `memcpy` of a scratch version's value is commented out in the source.
  unfoldable pub write_to_table : Table A → ℕ → ℕ → ℕ → A → Table A
  unfolding write_target set_value set_version
  write_to_table t record_id write_loc epoch source =
      let target = write_target t record_id write_loc in
      if write_loc == loc_record_b
      then set_version (set_value t record_id target source) record_id target epoch
      else set_version t record_id target epoch
