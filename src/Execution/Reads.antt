-- ===== src/Execution/Reads.antt =====
-- The steps of a read keep the invariant of the interleaved execution.
use native.Mathlib.Decide.{ℕ_discrete}
use egad_code.Prelude.{
  ℕ, ◌<◌, ◌≡◌, ◌≢◌, ◌⊎◌, inl, inr, refl, Bool, true, false, Option, some, List, [], ◌∷◌, map, not,
  ◌&&◌, arith, Option-cases,
}
use egad_code.Storage.{
  Table, Target, loc_record_a, loc_record_b, target_value, target_version, read_target, poll,
}
use egad_code.Storage.Cells.{read_target_a, read_target_b, read_target_version}
use egad_code.Execution.{
  Batch, State, Status, idle, entered, writing, skipped, seen, spinning, read_done, stored,
  published, with_status, result, collect,
}
use egad_code.Execution.Serial.{expected, stored_value, IsPlanned, IsQuiet}
use egad_code.Execution.Invariant.{Inv, read_cell, read_cell-eq-cell}
use egad_code.Execution.Loads.{seen-During, seen-epoch}

result-eq-some : {A : Type 0} (x : Status A) (v : A) → result x ≡ some v → x ≡ read_done v
result-eq-some idle v e = absurd (cc)
result-eq-some (spinning t w) v e = absurd (cc)
result-eq-some (read_done w) v e = cc
result-eq-some (entered w) v e = absurd (cc)
result-eq-some (writing t w) v e = absurd (cc)
result-eq-some skipped v e = absurd (cc)
result-eq-some (stored t) v e = absurd (cc)
result-eq-some published v e = absurd (cc)

collect-cons :
    {A : Type 0} (status : ℕ → Status A) (j : ℕ) (js : List ℕ) (vs : List A)
    → collect status (j ∷ js) ≡ some vs
    → (v : A) × (ws : List A) × (status j ≡ read_done v)
      × (collect status js ≡ some ws)
      × (vs ≡ v ∷ ws)
unfolding collect
collect-cons status j js vs e = elim (Option-cases (result (status j))) [
  | inl n ↦ absurd (ground arith)
  | inr (v, r) ↦ elim (Option-cases (collect status js)) [
    | inl n ↦ absurd (ground arith)
    | inr (ws, c) ↦ (v, ws, result-eq-some (status j) v r, c, ground arith)
  ]
]

module _ {A : Type 0} (b : Batch A) (t₀ : Table A) (source : ℕ → Option ℕ) (vals : ℕ → A)
    (quiet : IsQuiet t₀ b.epoch) (planned : IsPlanned b source) where
  abbrev pub Holds : State A → Type 0
  Holds = Inv b t₀ source vals

  -- Where a read looks when it picks its slot, and whether it waits.
  abbrev Picked : State A → ℕ → Target × Bool → Type 0
  Picked s i p =
      (p.0 ≡ read_cell b t₀ source vals i)
      × (((b.loc i ≡ loc_record_a) × (p.1 ≡ false))
          ⊎ ((b.loc i ≢ loc_record_a)
              × ((p.1 ≡ true) ⊎ (target_version s.table (b.row i) p.0 ≡ b.epoch))))

  picked :
      (s : State A) (i v1 : ℕ)
      → Holds s
      → s.status i ≡ entered v1
      → Picked s i (read_target (seen b s i v1) (b.row i) (b.loc i) b.epoch)
  unfolding read_cell
  picked s i v1 h en =
      let old = t₀.records (b.row i) in
      let t = seen b s i v1 in
      let d = seen-During b t₀ source vals quiet planned s i v1 h en in
      elim (ℕ_discrete (b.loc i) loc_record_a) [
        | yes e ↦
            rw (e, read_target_a old t (b.row i) b.epoch (quiet.rows_before (b.row i)) d)
              (refl, inl (refl, refl))
        | no na ↦ elim (ℕ_discrete (b.loc i) loc_record_b) [
          | yes e ↦
              rw (e, read_target_b old t (b.row i) b.epoch (quiet.rows_before (b.row i)) d)
                (
                  refl,
                  inr (
                    omega arith,
                    ground (arith, seen-epoch b t₀ source vals quiet planned s i v1 h en),
                  ),
                )
          | no nb ↦
              rw (read_target_version t (b.row i) (b.loc i) b.epoch na nb)
                (ground arith, inr (na, inl refl))
        ]
      ]

  pub pick-Inv :
      (s : State A) (i v1 : ℕ)
      → Holds s
      → b.is_write i ≡ false
      → s.status i ≡ entered v1
      → Holds (
          with_status b s i (
            spinning
              (read_target (seen b s i v1) (b.row i) (b.loc i) b.epoch).0
              (read_target (seen b s i v1) (b.row i) (b.loc i) b.epoch).1))
  pick-Inv s i v1 h r e = record {
    rows = h.rows;
    old_values = h.old_values;
    new_values = λ j l w q. ground (arith, h.new_values j);
    new_versions = λ j l w q. ground (arith, h.new_versions j l w q);
    entered_at = λ j v q. ground (arith, h.entered_at j v);
    writing_at = λ j t v q. ground (arith, h.writing_at j t v);
    skipped_at = λ j q. ground (arith, h.skipped_at j);
    stored_at = λ j t q. ground (arith, h.stored_at j t);
    spinning_at =
        λ j t w q. ground (arith, picked s i v1 h e, h.entered_at i v1 e, h.spinning_at j t w);
    done_with = λ j v q. ground (arith, h.done_with j v);
    published_at = λ j q. ground (arith, h.published_at j);
  }

  -- The place that a read looks at holds its serial value, once it holds the epoch's version.
  ready_value :
      (s : State A) (i : ℕ)
      → Holds s
      → i < b.size
      → b.is_write i ≡ false
      → b.loc i ≢ loc_record_a
      → target_version s.table (b.row i) (read_cell b t₀ source vals i) ≡ b.epoch
      → target_value s.table (b.row i) (read_cell b t₀ source vals i)
        ≡ stored_value b t₀ source vals i
  ready_value s i h lt r na v =
      let (j, sj, lj, wj, rj, ej) = planned.reads_new i lt r na in
      let same = read_cell-eq-cell b t₀ source vals i j na rj ej in
      ground (arith, h.new_versions j lj wj, h.new_values j lj wj, same)

  old_value :
      (s : State A) (i : ℕ)
      → Holds s
      → i < b.size
      → b.is_write i ≡ false
      → b.loc i ≡ loc_record_a
      → target_value s.table (b.row i) (read_cell b t₀ source vals i)
        ≡ stored_value b t₀ source vals i
  unfolding read_cell
  old_value s i h lt r a = ground (arith, h.old_values (b.row i), planned.reads_old i lt r a)

  copied :
      (s : State A) (i : ℕ) (t : Target) (w : Bool)
      → Holds s
      → s.status i ≡ spinning t w
      → (w && not (poll s.table (b.row i) t b.epoch)) ≡ false
      → target_value s.table (b.row i) t ≡ expected b t₀ source vals i
  unfolding poll
  copied s i t w h e p =
      let (lt, r, row, same, ready) = h.spinning_at i t w e in
      elim (ℕ_discrete (b.loc i) loc_record_a) [
        | yes a ↦ rw same (ground (arith, row, old_value s i h lt r a))
        | no na ↦
            let v : target_version s.table (b.row i) t ≡ b.epoch = ground arith in
            rw same (ground (arith, row, ready_value s i h lt r na (rw (← same) v)))
      ]

  pub copy-Inv :
      (s : State A) (i : ℕ) (t : Target) (w : Bool)
      → Holds s
      → s.status i ≡ spinning t w
      → (w && not (poll s.table (b.row i) t b.epoch)) ≡ false
      → Holds (with_status b s i (read_done (target_value s.table (b.row i) t)))
  copy-Inv s i t w h e p = record {
    rows = h.rows;
    old_values = h.old_values;
    new_values = λ j l w q. ground (arith, h.new_values j l w);
    new_versions = λ j l w' q. ground (arith, h.new_versions j l w' q, h.spinning_at i t w e);
    entered_at = λ j v q. ground (arith, h.entered_at j v);
    writing_at = λ j t' v q. ground (arith, h.writing_at j t' v);
    skipped_at = λ j q. ground (arith, h.skipped_at j);
    stored_at = λ j t' q. ground (arith, h.stored_at j t');
    spinning_at = λ j t' w' q. ground (arith, h.spinning_at j t' w');
    done_with =
        λ j v q. ground (arith, h.done_with j v, h.spinning_at i t w e, copied s i t w h e p);
    published_at = λ j q. ground (arith, h.published_at j);
  }

  pub collect-expected :
      (s : State A) (js : List ℕ) (vs : List A)
      → Holds s
      → collect s.status js ≡ some vs
      → vs ≡ map (expected b t₀ source vals) js
  unfolding collect
  collect-expected s [] vs h e = ground arith
  collect-expected s (j ∷ js) vs h e =
      let (v, ws, d, c, same) = collect-cons s.status j js vs e in
      ground (arith, h.done_with j v d, collect-expected s js ws h c)
