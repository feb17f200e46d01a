-- ===== src/Storage/Cells.antt =====
-- Reading a slot after a write to a slot: EGAD/storage.h and EGAD/gpu_storage.cuh.
use egad_code.Prelude.{
  ℕ, Bool, true, false, ◌≡◌, refl, ◌&&◌, not, ◌==◌, ◌≢◌, ◌⊎◌, if◌then◌else◌, arith,
}
use egad_code.Storage.{
  Record, Table, Target, Slot, first, second, in_record, in_version, loc_record_a, loc_record_b,
  slot_version, slot_value, select_write, read_target, write_target, target_version, target_value,
  set_value, set_version,
}
use egad_code.Storage.Slots.{IsBefore, latest}

abbrev pub same_slot : Slot → Slot → Bool
same_slot first first = true
same_slot second second = true
same_slot _ _ = false

-- Two targets, each of its record, are one place in memory.
unfoldable pub same_cell : ℕ → Target → ℕ → Target → Bool
same_cell r (in_record s) r' (in_record s') = r == r' && same_slot s s'
same_cell r (in_version i) r' (in_version i') = i == i'
same_cell r _ r' _ = false

abbrev pub other : Slot → Slot
other first = second
other second = first

module _ {A : Type 0} (t : Table A) (r : ℕ) where
  pub value-set_value :
      (a : Target) (v : A) (r' : ℕ) (b : Target)
      → target_value (set_value t r a v) r' b
        ≡ (if same_cell r a r' b then v else target_value t r' b)
  unfolding target_value set_value same_cell
  value-set_value (in_record first) v r' (in_record first) = ground arith
  value-set_value (in_record first) v r' (in_record second) = ground arith
  value-set_value (in_record second) v r' (in_record first) = ground arith
  value-set_value (in_record second) v r' (in_record second) = ground arith
  value-set_value (in_record s) v r' (in_version i') = refl
  value-set_value (in_version i) v r' (in_record s') = refl
  value-set_value (in_version i) v r' (in_version i') = ground arith

  pub version-set_value :
      (a : Target) (v : A) (r' : ℕ) (b : Target)
      → target_version (set_value t r a v) r' b ≡ target_version t r' b
  unfolding target_version set_value
  version-set_value (in_record first) v r' (in_record first) = ground arith
  version-set_value (in_record first) v r' (in_record second) = ground arith
  version-set_value (in_record second) v r' (in_record first) = ground arith
  version-set_value (in_record second) v r' (in_record second) = ground arith
  version-set_value (in_record s) v r' (in_version i') = refl
  version-set_value (in_version i) v r' (in_record s') = refl
  version-set_value (in_version i) v r' (in_version i') = ground arith

  pub version-set_version :
      (a : Target) (e r' : ℕ) (b : Target)
      → target_version (set_version t r a e) r' b
        ≡ (if same_cell r a r' b then e else target_version t r' b)
  unfolding target_version set_version same_cell
  version-set_version (in_record first) e r' (in_record first) = ground arith
  version-set_version (in_record first) e r' (in_record second) = ground arith
  version-set_version (in_record second) e r' (in_record first) = ground arith
  version-set_version (in_record second) e r' (in_record second) = ground arith
  version-set_version (in_record s) e r' (in_version i') = refl
  version-set_version (in_version i) e r' (in_record s') = refl
  version-set_version (in_version i) e r' (in_version i') = ground arith

  pub value-set_version :
      (a : Target) (e r' : ℕ) (b : Target)
      → target_value (set_version t r a e) r' b ≡ target_value t r' b
  unfolding target_value set_version
  value-set_version (in_record first) e r' (in_record first) = ground arith
  value-set_version (in_record first) e r' (in_record second) = ground arith
  value-set_version (in_record second) e r' (in_record first) = ground arith
  value-set_version (in_record second) e r' (in_record second) = ground arith
  value-set_version (in_record s) e r' (in_version i') = refl
  value-set_version (in_version i) e r' (in_record s') = refl
  value-set_version (in_version i) e r' (in_version i') = ground arith

-- A record during an epoch, against the record before it: the slot that a write replaces has its
-- old version or the epoch's, the other slot has its old version.
module _ {A : Type 0} (old : Record A) (t : Table A) (r epoch : ℕ) where
  abbrev pub slot : Slot
  slot = select_write old

  pub record During : Type 0 where
    pub kept : target_version t r (in_record (other slot)) ≡ slot_version old (other slot)
    pub replaced :
        (target_version t r (in_record slot) ≡ slot_version old slot)
        ⊎ (target_version t r (in_record slot) ≡ epoch)

  pub read_target_a :
      IsBefore old epoch
      → During
      → read_target t r loc_record_a epoch ≡ (in_record (other slot), false)
  unfolding read_target target_version select_write
  read_target_a b d = ground arith

  pub read_target_b :
      IsBefore old epoch
      → During
      → read_target t r loc_record_b epoch
        ≡ (in_record slot, not (target_version t r (in_record slot) == epoch))
  unfolding read_target target_version select_write
  read_target_b b d = ground arith

  pub latest-eq-other : slot_value old (other slot) ≡ latest old
  unfolding select_write
  latest-eq-other = ground arith

  -- Before the epoch's version is stored, a write goes to the slot that it would go to in `old`.
  pub write_target_b :
      During
      → target_version t r (in_record slot) ≡ slot_version old slot
      → write_target t r loc_record_b ≡ in_record slot
  unfolding write_target target_version select_write
  write_target_b d same = ground arith

module _ {A : Type 0} (t : Table A) (r loc : ℕ) where
  pub read_target_version :
      (epoch : ℕ)
      → loc ≢ loc_record_a
      → loc ≢ loc_record_b
      → read_target t r loc epoch ≡ (in_version loc, true)
  unfolding read_target
  read_target_version epoch a b = ground arith

  pub write_target_version : loc ≢ loc_record_b → write_target t r loc ≡ in_version loc
  unfolding write_target
  write_target_version b = ground arith

pub same_cell_self : (r : ℕ) (a : Target) → same_cell r a r a ≡ true
unfolding same_cell
same_cell_self r (in_record first) = ground arith
same_cell_self r (in_record second) = ground arith
same_cell_self r (in_version i) = ground arith
