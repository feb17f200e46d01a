-- ===== src/Execution/Writes.antt =====
-- The steps of a write keep the invariant of the interleaved execution.
use native.Mathlib.Decide.{ℕ_discrete}
use egad_code.Prelude.{ℕ, ◌≡◌, ◌⊎◌, inl, inr, ◌∙◌, sym, true, Option, some, List, arith}
use egad_code.Storage.{
  Table, Target, first, in_record, loc_record_b, target_version, write_target, set_value,
  set_version, update,
}
use egad_code.Storage.Cells.{
  During, other, write_target_b, write_target_version, same_cell_self, value-set_value,
  version-set_value, version-set_version, value-set_version,
}
use egad_code.Execution.{
  Batch, State, entered, writing, with_status, seen, stored, published, collect,
}
use egad_code.Execution.Serial.{IsSerial, IsPlanned, IsQuiet}
use egad_code.Execution.Invariant.{Inv, cell, slot_of, cells_apart, cell_not_old}
use egad_code.Execution.Reads.{collect-expected}
use egad_code.Execution.Loads.{seen-During, seen-epoch}

module _ {A : Type 0} (b : Batch A) (t₀ : Table A) (source : ℕ → Option ℕ) (vals : ℕ → A)
    (quiet : IsQuiet t₀ b.epoch) (planned : IsPlanned b source) where
  abbrev pub Holds : State A → Type 0
  Holds = Inv b t₀ source vals

  -- Where a write goes when it picks its slot.
  write_at :
      (s : State A) (i v1 : ℕ)
      → Holds s
      → b.is_write i ≡ true
      → s.status i ≡ entered v1
      → write_target (seen b s i v1) (b.row i) (b.loc i) ≡ cell b t₀ source vals i
  unfolding cell
  write_at s i v1 h w en = elim (ℕ_discrete (b.loc i) loc_record_b) [
    | yes e ↦ rw e (
        write_target_b (t₀.records (b.row i)) (seen b s i v1) (b.row i) b.epoch during
          (not_yet during.replaced (at_slot e)))
    | no nb ↦ write_target_version (seen b s i v1) (b.row i) (b.loc i) nb ∙ ground arith
  ]
    where
      during : During (t₀.records (b.row i)) (seen b s i v1) (b.row i) b.epoch
      during = seen-During b t₀ source vals quiet planned s i v1 h en

      at_slot :
          b.loc i ≡ loc_record_b
          → cell b t₀ source vals i ≡ in_record (slot_of b t₀ source vals (b.row i))
      at_slot e = ground arith

      not_yet :
          {o : ℕ}
          → (target_version
                (seen b s i v1)
                (b.row i)
                (in_record (slot_of b t₀ source vals (b.row i)))
              ≡ o)
            ⊎ (target_version
                  (seen b s i v1)
                  (b.row i)
                  (in_record (slot_of b t₀ source vals (b.row i)))
                ≡ b.epoch)
          → cell b t₀ source vals i ≡ in_record (slot_of b t₀ source vals (b.row i))
          → target_version
              (seen b s i v1)
              (b.row i)
              (in_record (slot_of b t₀ source vals (b.row i)))
            ≡ o
      not_yet (inl e) same = e
      not_yet (inr e) same =
          let now = seen-epoch b t₀ source vals quiet planned s i v1 h en e in
          let (lt, row, v) = h.entered_at i v1 en in
          absurd (ground (arith, h.new_versions i lt w, now, same))

  pub aim-Inv :
      (s : State A) (i v1 : ℕ) (vs : List A)
      → IsSerial b t₀ source vals
      → Holds s
      → b.is_write i ≡ true
      → s.status i ≡ entered v1
      → collect s.status (b.inputs i) ≡ some vs
      → Holds (
          with_status b s i
            (writing (write_target (seen b s i v1) (b.row i) (b.loc i)) (b.compute i vs)))
  aim-Inv s i v1 vs ser h w e c =
      let (lt, row, v) = h.entered_at i v1 e in
      let value : b.compute i vs ≡ vals i = ground (
        arith,
        ser.computed i lt w,
        collect-expected b t₀ source vals quiet planned s (b.inputs i) vs h c,
      ) in
      record {
        rows = h.rows;
        old_values = h.old_values;
        new_values = λ j l w' q. ground (arith, h.new_values j l w');
        new_versions = λ j l w' q. ground (arith, h.new_versions j l w' q);
        entered_at = λ j v q. ground (arith, h.entered_at j v);
        writing_at = λ j t x q. ground (arith, write_at s i v1 h w e, h.writing_at j t x);
        skipped_at = λ j q. ground (arith, h.skipped_at j);
        stored_at = λ j t q. ground (arith, h.stored_at j t);
        spinning_at = λ j t w' q. ground (arith, h.spinning_at j t w');
        done_with = λ j x q. ground (arith, h.done_with j x);
        published_at = λ j q. ground (arith, h.published_at j);
      }

  pub store-Inv :
      (s : State A) (i : ℕ) (t : Target) (v : A)
      → Holds s
      → s.status i ≡ writing t v
      → Holds (record {
        table = set_value s.table (b.row i) t v;
        status = update s.status i (stored t);
      })
  store-Inv s i t v h e =
      let (lt, w, at, value) = h.writing_at i t v e in
      let a = cell b t₀ source vals i in
      rw at (record {
        rows = λ r. record {
          kept =
              version-set_value s.table (b.row i) a v r
                (in_record (other (slot_of b t₀ source vals r)))
              ∙ (h.rows r).kept;
          replaced =
              rw
                (version-set_value s.table (b.row i) a v r (in_record (slot_of b t₀ source vals r)))
                (h.rows r).replaced;
        };
        old_values = λ r. ground (
          arith,
          value-set_value s.table (b.row i) a v r (in_record (other (slot_of b t₀ source vals r))),
          cell_not_old b t₀ source vals i r,
          h.old_values r,
        );
        new_values = λ j l wj q. elim (ℕ_discrete j i) [
          | yes same ↦ rw same (
              ground (
                arith,
                value-set_value s.table (b.row i) a v (b.row i) a,
                same_cell_self (b.row i) a,
                value,
              ))
          | no ne ↦ ground (
            arith,
            value-set_value s.table (b.row i) a v (b.row j) (cell b t₀ source vals j),
            cells_apart b t₀ source vals planned i j lt l w wj (λ x. ne (sym x)),
            h.new_values j l wj,
          )
        ];
        new_versions = λ j l wj q. ground (
          arith,
          version-set_value s.table (b.row i) a v (b.row j) (cell b t₀ source vals j),
          h.new_versions j l wj,
        );
        entered_at = λ j v' q. ground (
          arith,
          version-set_value s.table (b.row i) a v (b.row j) (in_record first),
          h.entered_at j v',
        );
        writing_at = λ j t' x q. ground (arith, h.writing_at j t' x);
        skipped_at = λ j q. ground (arith, h.skipped_at j);
        stored_at = λ j t' q. ground (arith, h.stored_at j t');
        spinning_at = λ j t w' q.
            ground
              (arith, version-set_value s.table (b.row i) a v (b.row j) t, h.spinning_at j t w');
        done_with = λ j x q. ground (arith, h.done_with j x);
        published_at = λ j q. ground (
          arith,
          version-set_value s.table (b.row i) a v (b.row j) (cell b t₀ source vals j),
          h.published_at j,
        );
      })

  pub publish-Inv :
      (s : State A) (i : ℕ) (t : Target)
      → Holds s
      → s.status i ≡ stored t
      → Holds (record {
        table = set_version s.table (b.row i) t b.epoch;
        status = update s.status i published;
      })
  publish-Inv s i t h e =
      let (lt, w, at) = h.stored_at i t e in
      let a = cell b t₀ source vals i in
      rw at (record {
        rows = λ r. record {
          kept = ground (
            arith,
            version-set_version s.table (b.row i) a b.epoch r
                (in_record (other (slot_of b t₀ source vals r))),
            cell_not_old b t₀ source vals i r,
            (h.rows r).kept,
          );
          replaced = ground (
            arith,
            version-set_version s.table (b.row i) a b.epoch r
                (in_record (slot_of b t₀ source vals r)),
            (h.rows r).replaced,
          );
        };
        old_values = λ r.
            value-set_version s.table (b.row i) a b.epoch r
              (in_record (other (slot_of b t₀ source vals r)))
            ∙ h.old_values r;
        new_values = λ j l wj q. ground (
          arith,
          value-set_version s.table (b.row i) a b.epoch (b.row j) (cell b t₀ source vals j),
          h.new_values j l wj,
        );
        new_versions = λ j l wj q. elim (ℕ_discrete j i) [
          | yes same ↦ ground arith
          | no ne ↦ ground (
            arith,
            version-set_version s.table (b.row i) a b.epoch (b.row j) (cell b t₀ source vals j),
            cells_apart b t₀ source vals planned i j lt l w wj (λ x. ne (sym x)),
            h.new_versions j l wj,
          )
        ];
        entered_at = λ j v q. ground (
          arith,
          version-set_version s.table (b.row i) a b.epoch (b.row j) (in_record first),
          h.entered_at j v,
        );
        writing_at = λ j t' x q. ground (arith, h.writing_at j t' x);
        skipped_at = λ j q. ground (arith, h.skipped_at j);
        stored_at = λ j t' q. ground (arith, h.stored_at j t');
        spinning_at = λ j t' w' q. ground (
          arith,
          version-set_version s.table (b.row i) a b.epoch (b.row j) t',
          h.spinning_at j t' w',
        );
        done_with = λ j x q. ground (arith, h.done_with j x);
        published_at = λ j q. ground (
          arith,
          version-set_version s.table (b.row i) a b.epoch (b.row j) (cell b t₀ source vals j),
          same_cell_self (b.row i) a,
          h.published_at j,
        );
      })
