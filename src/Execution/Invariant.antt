-- ===== src/Execution/Invariant.antt =====
-- The invariant of the interleaved execution of a batch.
use egad_code.Prelude.{
  ℕ, ◌<◌, ◌≡◌, ◌≢◌, ◌⊎◌, inl, refl, Bool, true, false, Option, ◌==◌, if◌then◌else◌, arith,
}
use egad_code.Prelude.Words.{absent}
use egad_code.Storage.{
  Table, Target, Slot, first, in_record, in_version, loc_record_a, loc_record_b, select_write,
  target_value, target_version,
}
use egad_code.Storage.Slots.{latest}
use egad_code.Storage.Cells.{other, same_cell, During, latest-eq-other}
use egad_code.Execution.{
  Batch, State, Status, entered, spinning, read_done, writing, stored, published, skipped, start,
}
use egad_code.Execution.Serial.{expected, IsPlanned, IsQuiet}

abbrev pub has_stored : {A : Type 0} → Status A → Bool
has_stored (stored t) = true
has_stored published = true
has_stored _ = false

module _ {A : Type 0} (b : Batch A) (t₀ : Table A) (source : ℕ → Option ℕ) (vals : ℕ → A) where
  -- The slot of the record that the epoch writes.
  abbrev pub slot_of : ℕ → Slot
  slot_of r = select_write (t₀.records r)

  -- The place that a write goes to.
  unfoldable pub cell : ℕ → Target
  cell i = if b.loc i == loc_record_b then in_record (slot_of (b.row i)) else in_version (b.loc i)

  -- The place that a read looks at.
  unfoldable pub read_cell : ℕ → Target
  read_cell i =
      if b.loc i == loc_record_a
      then in_record (other (slot_of (b.row i)))
      else if b.loc i == loc_record_b
      then in_record (slot_of (b.row i))
      else in_version (b.loc i)

  pub record Inv (s : State A) : Type 0 where
    pub rows : (r : ℕ) → During (t₀.records r) s.table r b.epoch
    pub old_values :
        (r : ℕ) → target_value s.table r (in_record (other (slot_of r))) ≡ latest (t₀.records r)
    pub new_values :
        (i : ℕ)
        → i < b.size
        → b.is_write i ≡ true
        → has_stored (s.status i) ≡ true
        → target_value s.table (b.row i) (cell i) ≡ vals i
    pub new_versions :
        (i : ℕ)
        → i < b.size
        → b.is_write i ≡ true
        → target_version s.table (b.row i) (cell i) ≡ b.epoch
        → s.status i ≡ published
    pub entered_at :
        (i v1 : ℕ)
        → s.status i ≡ entered v1
        → (i < b.size)
          × (b.row i ≢ absent)
          × ((v1 ≡ (t₀.records (b.row i)).version1)
              ⊎ ((slot_of (b.row i) ≡ first)
                  × (v1 ≡ b.epoch)
                  × (target_version s.table (b.row i) (in_record first) ≡ b.epoch)))
    pub writing_at :
        (i : ℕ) (t : Target) (v : A)
        → s.status i ≡ writing t v
        → (i < b.size) × (b.is_write i ≡ true) × (t ≡ cell i) × (v ≡ vals i)
    pub skipped_at : (i : ℕ) → s.status i ≡ skipped → (b.is_write i ≡ true) × (b.row i ≡ absent)
    pub stored_at :
        (i : ℕ) (t : Target)
        → s.status i ≡ stored t
        → (i < b.size) × (b.is_write i ≡ true) × (t ≡ cell i)
    pub spinning_at :
        (i : ℕ) (t : Target) (waits : Bool)
        → s.status i ≡ spinning t waits
        → (i < b.size)
          × (b.is_write i ≡ false)
          × (b.row i ≢ absent)
          × (t ≡ read_cell i)
          × (((b.loc i ≡ loc_record_a) × (waits ≡ false))
              ⊎ ((b.loc i ≢ loc_record_a)
                  × ((waits ≡ true) ⊎ (target_version s.table (b.row i) t ≡ b.epoch))))
    pub done_with :
        (i : ℕ) (v : A)
        → s.status i ≡ read_done v
        → (b.is_write i ≡ false) × (v ≡ expected b t₀ source vals i)
    pub published_at :
        (i : ℕ)
        → s.status i ≡ published
        → (i < b.size)
          × (b.is_write i ≡ true)
          × (target_version s.table (b.row i) (cell i) ≡ b.epoch)

  -- A read that looks at the location of a write of its record looks at that write's place.
  pub read_cell-eq-cell :
      (i j : ℕ)
      → b.loc i ≢ loc_record_a
      → b.row j ≡ b.row i
      → b.loc j ≡ b.loc i
      → read_cell i ≡ cell j
  unfolding read_cell cell
  read_cell-eq-cell i j na r e = ground arith

  -- No two writes have one place.
  pub cells_apart :
      IsPlanned b source
      → (i j : ℕ) → i < b.size
      → j < b.size
      → b.is_write i ≡ true
      → b.is_write j ≡ true
      → i ≢ j
      → same_cell (b.row i) (cell i) (b.row j) (cell j) ≡ false
  unfolding cell same_cell
  cells_apart p i j hi hj wi wj ne = ground (arith, p.apart i j hi hj wi wj, λ (e : i ≡ j). ne e)

  -- No write goes to the slot that holds a record's old value.
  pub cell_not_old :
      (i r : ℕ) → same_cell (b.row i) (cell i) r (in_record (other (slot_of r))) ≡ false
  unfolding cell same_cell select_write
  cell_not_old i r = ground arith

  start_versions : IsQuiet t₀ b.epoch → (i : ℕ) → target_version t₀ (b.row i) (cell i) < b.epoch
  unfolding cell target_version select_write
  start_versions q i = ground (arith, q.rows_before (b.row i), q.versions_before (b.loc i))

  pub start-Inv : IsQuiet t₀ b.epoch → Inv (start b t₀)
  unfolding target_version target_value
  start-Inv q = record {
    rows = λ r. record { kept = refl; replaced = inl refl };
    old_values = λ r. latest-eq-other (t₀.records r) t₀ r b.epoch;
    new_values = λ i _ _ h. cc;
    new_versions = λ i _ _ h. absurd (omega (arith, start_versions q i));
    entered_at = λ i v1 h. absurd (cc);
    writing_at = λ i t v h. absurd (cc);
    skipped_at = λ i h. absurd (cc);
    stored_at = λ i t h. absurd (cc);
    spinning_at = λ i t w h. absurd (cc);
    done_with = λ i v h. absurd (cc);
    published_at = λ i h. absurd (cc);
  }
