-- ===== src/Execution/Progress.antt =====
-- No reader of the interleaved execution waits for ever: EGAD/gpu_storage.cuh's spins.
use egad_code.Prelude.{
  ℕ, zero, suc, ◌<◌, ◌≡◌, ◌≢◌, ◌⊎◌, inl, inr, refl, Bool, true, false, Option, none, some, List, [],
  ◌∷◌, not, ◌&&◌, arith, Bool-cases, Option-cases, All,
}
use native.Mathlib.Decide.{ℕ_discrete}
use egad_code.Prelude.Words.{absent}
use egad_code.Storage.{Table, Target, loc_record_a, poll}
use egad_code.Execution.{
  Batch, State, Status, idle, spinning, read_done, stored, published, collect, result, Step, pick,
  copy, store, publish, skip_read, skip_write, enter_read, enter_write, reads, writes, aim, entered,
  writing, skipped,
}
use egad_code.Execution.Serial.{IsPlanned}
use egad_code.Execution.Invariant.{Inv, read_cell-eq-cell}

-- The operation has run to its end.
abbrev pub finished : {A : Type 0} → Status A → Bool
finished (read_done v) = true
finished published = true
finished skipped = true
finished _ = false

-- A serial order: a read stands after the write that it reads from, and a write after the reads
-- that its value is computed from.
pub record IsOrder {A : Type 0} (b : Batch A) (source : ℕ → Option ℕ) (rank : ℕ → ℕ) : Type 0 where
  pub after_source : (i j : ℕ) → i < b.size → source i ≡ some j → rank j < rank i
  pub after_inputs :
      (i : ℕ)
      → i < b.size
      → b.is_write i ≡ true
      → All (λ k. (k < b.size) × (b.is_write k ≡ false) × (rank k < rank i)) (b.inputs i)

-- Some input is not read yet, or all results are there.
collect_cases :
    {A : Type 0} (P : ℕ → Type 0) (status : ℕ → Status A) (js : List ℕ)
    → All P js
    → ((vs : List A) × (collect status js ≡ some vs)) ⊎ ((k : ℕ) × P k × (result (status k) ≡ none))
unfolding collect
collect_cases P status [] h = inl ([], refl)
collect_cases P status (j ∷ js) h = elim (Option-cases (result (status j))) [
  | inl n ↦ inr (j, h.0, n)
  | inr (v, r) ↦ elim (collect_cases P status js h.1) [
    | inl (vs, c) ↦ inl (v ∷ vs, ground arith)
    | inr k ↦ inr k
  ]
]

abbrev pub Moves : {A : Type 0} → Batch A → State A → Type 0
Moves {A} b s = (s' : State A) × Step b s s'

module _ {A : Type 0} (b : Batch A) (t₀ : Table A) (source : ℕ → Option ℕ) (vals : ℕ → A)
    (rank : ℕ → ℕ) (planned : IsPlanned b source) (order : IsOrder b source rank) where
  not_finished :
      (s : State A) (j : ℕ)
      → Inv b t₀ source vals s
      → b.is_write j ≡ true
      → b.row j ≢ absent
      → s.status j ≢ published
      → finished (s.status j) ≡ false
  not_finished s j h w row np = by_status (s.status j) refl
    where
      by_status : (x : Status A) → s.status j ≡ x → finished (s.status j) ≡ false
      by_status idle e = rw e
      by_status (spinning t w) e = rw e
      by_status (read_done v) e = ground (arith, h.done_with j v)
      by_status (entered v) e = rw e
      by_status (writing t v) e = rw e
      by_status (stored t) e = rw e
      by_status skipped e = absurd (row (h.skipped_at j e).1)
      by_status published e = absurd (np e)

  read_not_finished :
      (s : State A) (j : ℕ)
      → Inv b t₀ source vals s
      → b.is_write j ≡ false
      → result (s.status j) ≡ none
      → finished (s.status j) ≡ false
  read_not_finished s j h r n = by_status (s.status j) refl
    where
      by_status : (x : Status A) → s.status j ≡ x → finished (s.status j) ≡ false
      by_status idle e = rw e
      by_status (spinning t w) e = rw e
      by_status (read_done v) e = absurd (ground arith)
      by_status (entered v) e = rw e
      by_status (writing t v) e = ground (arith, h.writing_at j t v)
      by_status (stored t) e = rw e
      by_status published e = ground (arith, h.published_at j)
      by_status skipped e = absurd (ground (arith, h.skipped_at j e))

  -- A spinning read finds its version, or the write that it waits for has not finished.
  spin_cases :
      (s : State A) (i : ℕ) (t : Target) (w : Bool)
      → Inv b t₀ source vals s
      → s.status i ≡ spinning t w
      → ((w && not (poll s.table (b.row i) t b.epoch)) ≡ false)
        ⊎ ((j : ℕ) × (j < b.size) × (finished (s.status j) ≡ false) × (rank j < rank i))
  unfolding poll
  spin_cases s i t w h e =
      let (lt, r, row, same, ready) = h.spinning_at i t w e in
      elim (Bool-cases (w && not (poll s.table (b.row i) t b.epoch))) [
        | inr go ↦ inl go
        | inl stay ↦
            let na : b.loc i ≢ loc_record_a = ground arith in
            let (j, sj, lj, wj, rj, ej) = planned.reads_new i lt r na in
            let cell_eq = read_cell-eq-cell b t₀ source vals i j na rj ej in
            inr (
              j,
              lj,
              not_finished s j h wj (rw rj row) (ground (arith, h.published_at j)),
              order.after_source i j lt sj,
            )
      ]

  idle-Moves :
      (s : State A) (i : ℕ) → Inv b t₀ source vals s → i < b.size → s.status i ≡ idle → Moves b s
  idle-Moves s i h lt e = elim (ℕ_discrete (b.row i) absent) [
    | no here ↦ elim (Bool-cases (b.is_write i)) [
      | inr r ↦ (_, reads (enter_read i lt r e here))
      | inl w ↦ (_, writes (enter_write i lt w e here))
    ]
    | yes sentinel ↦ elim (Bool-cases (b.is_write i)) [
      | inr r ↦ (_, reads (skip_read i lt r e sentinel))
      | inl w ↦ (_, writes (skip_write i lt w e sentinel))
    ]
  ]

  entered_cases :
      (s : State A) (i v1 : ℕ)
      → Inv b t₀ source vals s
      → i < b.size
      → s.status i ≡ entered v1
      → Moves b s ⊎ ((j : ℕ) × (j < b.size) × (finished (s.status j) ≡ false) × (rank j < rank i))
  entered_cases s i v1 h lt e = elim (Bool-cases (b.is_write i)) [
    | inr r ↦ inl (_, reads (pick i v1 r e))
    | inl w ↦ elim (collect_cases _ s.status (b.inputs i) (order.after_inputs i lt w)) [
      | inl (vs, c) ↦ inl (_, writes (aim i v1 vs w e c))
      | inr (k, (lk, rk, below), n) ↦ inr (k, lk, read_not_finished s k h rk n, below)
    ]
  ]

  pub progress_below :
      (k : ℕ) (s : State A) (i : ℕ)
      → Inv b t₀ source vals s
      → rank i < k
      → i < b.size
      → finished (s.status i) ≡ false
      → Moves b s
  progress_below zero s i h r l u = absurd (omega arith)
  progress_below (suc k) s i h r l u =
      by_status (λ j lj uj below. progress_below k s j h (omega arith) lj uj) (s.status i) refl
    where
      by_status :
          ((j : ℕ) → j < b.size → finished (s.status j) ≡ false → rank j < rank i → Moves b s)
          → (x : Status A) → s.status i ≡ x
          → Moves b s
      by_status earlier idle e = idle-Moves s i h l e
      by_status earlier (entered v1) e = elim (entered_cases s i v1 h l e) [
        | inl m ↦ m
        | inr (j, lj, uj, below) ↦ earlier j lj uj below
      ]
      by_status earlier (spinning t w) e = elim (spin_cases s i t w h e) [
        | inl go ↦ (_, reads (copy i t w e go))
        | inr (j, lj, uj, below) ↦ earlier j lj uj below
      ]
      by_status earlier (read_done v) e = absurd (cc)
      by_status earlier (writing t v) e = (_, writes (store i t v e))
      by_status earlier (stored t) e = (_, writes (publish i t e))
      by_status earlier skipped e = absurd (cc)
      by_status earlier published e = absurd (cc)
