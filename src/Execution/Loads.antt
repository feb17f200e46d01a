-- ===== src/Execution/Loads.antt =====
-- The first steps of an operation keep the invariant of the interleaved execution: the return at the
-- record 0xffffffff and the loads of the two versions.
use egad_code.Prelude.{ℕ, ◌<◌, ◌≡◌, ◌≢◌, ◌⊎◌, refl, true, false, Option, arith}
use egad_code.Prelude.Words.{absent}
use egad_code.Storage.{Table, Slot, first, second, in_record, set_version, target_version}
use egad_code.Storage.Cells.{During}
use egad_code.Execution.{Batch, State, idle, entered, skipped, seen, read_done, with_status}
use egad_code.Execution.Serial.{IsPlanned, IsQuiet}
use egad_code.Execution.Invariant.{Inv, slot_of}

module _ {A : Type 0} (b : Batch A) (t₀ : Table A) (source : ℕ → Option ℕ) (vals : ℕ → A)
    (quiet : IsQuiet t₀ b.epoch) (planned : IsPlanned b source) where
  abbrev pub Holds : State A → Type 0
  Holds = Inv b t₀ source vals

  pub skip_read-Inv :
      (s : State A) (i : ℕ)
      → Holds s
      → b.is_write i ≡ false
      → s.status i ≡ idle
      → b.row i ≡ absent
      → Holds (with_status b s i (read_done (b.untouched i)))
  skip_read-Inv s i h r e a = record {
    rows = h.rows;
    old_values = h.old_values;
    new_values = λ j l w q. ground (arith, h.new_values j l w);
    new_versions = λ j l w q. ground (arith, h.new_versions j l w q);
    entered_at = λ j v q. ground (arith, h.entered_at j v);
    writing_at = λ j t v q. ground (arith, h.writing_at j t v);
    skipped_at = λ j q. ground (arith, h.skipped_at j);
    stored_at = λ j t q. ground (arith, h.stored_at j t);
    spinning_at = λ j t w q. ground (arith, h.spinning_at j t w);
    done_with = λ j v q. ground (arith, h.done_with j v);
    published_at = λ j q. ground (arith, h.published_at j);
  }

  pub skip_write-Inv :
      (s : State A) (i : ℕ)
      → Holds s
      → b.is_write i ≡ true
      → s.status i ≡ idle
      → b.row i ≡ absent
      → Holds (with_status b s i skipped)
  skip_write-Inv s i h w' e a = record {
    rows = h.rows;
    old_values = h.old_values;
    new_values = λ j l w q. ground (arith, h.new_values j l w);
    new_versions = λ j l w q. ground (arith, h.new_versions j l w q);
    entered_at = λ j v q. ground (arith, h.entered_at j v);
    writing_at = λ j t v q. ground (arith, h.writing_at j t v);
    skipped_at = λ j q. ground (arith, h.skipped_at j);
    stored_at = λ j t q. ground (arith, h.stored_at j t);
    spinning_at = λ j t w q. ground (arith, h.spinning_at j t w);
    done_with = λ j v q. ground (arith, h.done_with j v);
    published_at = λ j q. ground (arith, h.published_at j);
  }

  -- The first version as it is, against the record before the epoch.
  loaded :
      (s : State A) (r : ℕ)
      → Holds s
      → (target_version s.table r (in_record first) ≡ (t₀.records r).version1)
        ⊎ ((slot_of b t₀ source vals r ≡ first)
            × (target_version s.table r (in_record first) ≡ b.epoch)
            × (target_version s.table r (in_record first) ≡ b.epoch))
  loaded s r h = by_slot (slot_of b t₀ source vals r) refl
    where
      by_slot :
          (x : Slot)
          → slot_of b t₀ source vals r ≡ x
          → (target_version s.table r (in_record first) ≡ (t₀.records r).version1)
            ⊎ ((slot_of b t₀ source vals r ≡ first)
                × (target_version s.table r (in_record first) ≡ b.epoch)
                × (target_version s.table r (in_record first) ≡ b.epoch))
      by_slot first e = ground (arith, (h.rows r).replaced)
      by_slot second e = ground (arith, (h.rows r).kept)

  pub enter-Inv :
      (s : State A) (i : ℕ)
      → Holds s
      → i < b.size
      → s.status i ≡ idle
      → b.row i ≢ absent
      → Holds (with_status b s i (entered (target_version s.table (b.row i) (in_record first))))
  enter-Inv s i h l e a = record {
    rows = h.rows;
    old_values = h.old_values;
    new_values = λ j l w q. ground (arith, h.new_values j l w);
    new_versions = λ j l w q. ground (arith, h.new_versions j l w q);
    entered_at = λ j v q. ground (arith, loaded s (b.row i) h, h.entered_at j v);
    writing_at = λ j t v q. ground (arith, h.writing_at j t v);
    skipped_at = λ j q. ground (arith, h.skipped_at j);
    stored_at = λ j t q. ground (arith, h.stored_at j t);
    spinning_at = λ j t w q. ground (arith, h.spinning_at j t w);
    done_with = λ j v q. ground (arith, h.done_with j v);
    published_at = λ j q. ground (arith, h.published_at j);
  }

  -- What a thread sees that has loaded version 1 earlier is the record at some time of the epoch.
  pub seen-During :
      (s : State A) (i v1 : ℕ)
      → Holds s
      → s.status i ≡ entered v1
      → During (t₀.records (b.row i)) (seen b s i v1) (b.row i) b.epoch
  unfolding target_version set_version
  seen-During s i v1 h e = by_slot (slot_of b t₀ source vals (b.row i)) refl
    where
      by_slot :
          (x : Slot)
          → slot_of b t₀ source vals (b.row i) ≡ x
          → During (t₀.records (b.row i)) (seen b s i v1) (b.row i) b.epoch
      by_slot first e' = record {
        kept = ground (arith, (h.rows (b.row i)).kept);
        replaced = ground (arith, h.entered_at i v1 e);
      }
      by_slot second e' = record {
        kept = ground (arith, h.entered_at i v1 e);
        replaced = ground (arith, (h.rows (b.row i)).replaced);
      }

  -- A version that a thread sees to be the epoch's is the epoch's.
  pub seen-epoch :
      (s : State A) (i v1 : ℕ)
      → Holds s
      → s.status i ≡ entered v1
      → target_version (seen b s i v1) (b.row i) (in_record (slot_of b t₀ source vals (b.row i)))
        ≡ b.epoch
      → target_version s.table (b.row i) (in_record (slot_of b t₀ source vals (b.row i))) ≡ b.epoch
  unfolding target_version set_version
  seen-epoch s i v1 h e p = by_slot (slot_of b t₀ source vals (b.row i)) refl
    where
      by_slot :
          (x : Slot)
          → slot_of b t₀ source vals (b.row i) ≡ x
          → target_version s.table (b.row i) (in_record (slot_of b t₀ source vals (b.row i)))
            ≡ b.epoch
      by_slot first e' = ground (arith, p, h.entered_at i v1 e, quiet.rows_before (b.row i))
      by_slot second e' = ground (arith, p)
