-- ===== src/Execution/Serial.antt =====
-- The serial execution of a batch, and what a plan must say for the interleaved one to agree.
use egad_code.Prelude.{ℕ, ◌<◌, ◌≡◌, ◌≢◌, true, false, Option, none, some, map, ◌==◌, if◌then◌else◌}
use egad_code.Prelude.Words.{absent}
use egad_code.Storage.{Table, loc_record_a, loc_record_b}
use egad_code.Storage.Slots.{IsBefore, latest}
use egad_code.Execution.{Batch}

module _ {A : Type 0} (b : Batch A) (t₀ : Table A) (source : ℕ → Option ℕ) (vals : ℕ → A) where
  -- What a read gives in the serial execution, where the writes have the values `vals` and
  -- `source i` is the last write of the record before position `i`. A read of the record 0xffffffff
  -- leaves the caller's result.
  abbrev pub stored_value : ℕ → A
  stored_value i = elim (source i) [ none ↦ latest (t₀.records (b.row i)) | some j ↦ vals j ]

  abbrev pub expected : ℕ → A
  expected i = if b.row i == absent then b.untouched i else stored_value i

  -- `vals` are the values that the writes have when each is computed from serial reads.
  pub record IsSerial : Type 0 where
    pub computed :
        (i : ℕ)
        → i < b.size
        → b.is_write i ≡ true
        → vals i ≡ b.compute i (map expected (b.inputs i))

-- The conditions on the locations.
pub record IsPlanned {A : Type 0} (b : Batch A) (source : ℕ → Option ℕ) : Type 0 where
  pub reads_old :
      (i : ℕ) → i < b.size → b.is_write i ≡ false → b.loc i ≡ loc_record_a → source i ≡ none
  pub reads_new :
      (i : ℕ)
      → i < b.size
      → b.is_write i ≡ false
      → b.loc i ≢ loc_record_a
      → (j : ℕ) × (source i ≡ some j)
        × (j < b.size)
        × (b.is_write j ≡ true)
        × (b.row j ≡ b.row i)
        × (b.loc j ≡ b.loc i)
  pub writes_new : (i : ℕ) → i < b.size → b.is_write i ≡ true → b.loc i ≢ loc_record_a
  pub apart :
      (i j : ℕ)
      → i < b.size
      → j < b.size
      → b.is_write i ≡ true
      → b.is_write j ≡ true
      → b.loc i ≡ b.loc j
      → (b.loc i ≡ loc_record_b → b.row i ≡ b.row j)
      → i ≡ j

-- No version of the table is the epoch's yet.
pub record IsQuiet {A : Type 0} (t : Table A) (epoch : ℕ) : Type 0 where
  pub rows_before : (r : ℕ) → IsBefore (t.records r) epoch
  pub versions_before : (l : ℕ) → (t.versions l).version < epoch
