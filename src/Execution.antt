-- ===== src/Execution.antt =====
-- The execution of one epoch: the threads and warps of EGAD/gpu_storage.cuh run the planned
-- operations in any interleaving.
--
-- An operation has a position. The functions of a thread, `gpuReadFromTableThread` and
-- `gpuWriteToTableThread`, and the cooperative ones return at once for the record 0xffffffff: a read
-- leaves the caller's result, a write leaves the table. Else each of these is a step: the load of
-- version 1; the load of version 2, with the choice of the slot; a poll of the slot's version that
-- ends the spin, with the copy of the value; the copy of a write's value; the store of its
-- version. With both versions in one word the two loads are one, which is a run in which they follow
-- each other. For a scratch version there is nothing to load, and the first of the two is idle.
-- A value is taken as a whole: ranges of its words and the dirty flags are in Storage.Gpu.
-- A write's value is computed from the results of reads, by the transaction's own code, a parameter.
-- The positions stand in an order in which a serial execution would run them.
pub mod Serial
pub mod Invariant
pub mod Loads
pub mod Reads
pub mod Writes
pub mod Steps
pub mod Progress
pub mod Planned
use egad_code.Prelude.{
  ℕ, ◌<◌, ◌≡◌, ◌≢◌, ◌⊎◌, Bool, true, false, Option, none, some, List, [], ◌∷◌, not, ◌&&◌, ◌==◌,
  if◌then◌else◌,
}
use egad_code.Prelude.Words.{absent}
use egad_code.Storage.{
  Table, Target, update, read_target, write_target, target_value, poll, set_value, set_version,
  target_version, in_record, first,
}

-- Where a thread is in its operation.
pub data Status (A : Type 0) : Type 0 where
  idle : Status A
  entered : ℕ → Status A
  spinning : Target → Bool → Status A
  read_done : A → Status A
  writing : Target → A → Status A
  stored : Target → Status A
  published : Status A
  skipped : Status A

pub record State (A : Type 0) : Type 0 where
  pub table : Table A
  pub status : ℕ → Status A

-- The operations of an epoch by position: the record, the kind and the planned location of each,
-- the reads whose results a write is computed from, and that computation; `untouched` is what the
-- caller's result has before a read.
pub record Batch (A : Type 0) : Type 0 where
  pub size : ℕ
  pub row : ℕ → ℕ
  pub is_write : ℕ → Bool
  pub loc : ℕ → ℕ
  pub inputs : ℕ → List ℕ
  pub compute : ℕ → List A → A
  pub untouched : ℕ → A
  pub epoch : ℕ

abbrev pub result : {A : Type 0} → Status A → Option A
result (read_done v) = some v
result _ = none

-- The results of the reads, once all are done.
unfoldable pub collect : {A : Type 0} → (ℕ → Status A) → List ℕ → Option (List A)
collect status [] = some []
collect status (j ∷ js) = elim (result (status j)) [
  | none ↦ none
  | some v ↦ elim (collect status js) [ none ↦ none | some vs ↦ some (v ∷ vs) ]
]

module _ {A : Type 0} (b : Batch A) where
  abbrev pub with_status : State A → ℕ → Status A → State A
  with_status s i x = record s { status = update s.status i x }

  -- The table as a thread sees it that has loaded `v1` as version 1 of the record.
  abbrev pub seen : State A → ℕ → ℕ → Table A
  seen s i v1 = set_version s.table (b.row i) (in_record first) v1

  -- A step of `gpuReadFromTableThread`.
  pub data ReadStep (s : State A) : State A → Type 0 where
    skip_read :
        (i : ℕ)
        → i < b.size
        → b.is_write i ≡ false
        → s.status i ≡ idle
        → b.row i ≡ absent
        → ReadStep s (with_status s i (read_done (b.untouched i)))
    enter_read :
        (i : ℕ)
        → i < b.size
        → b.is_write i ≡ false
        → s.status i ≡ idle
        → b.row i ≢ absent
        → ReadStep s
            (with_status s i (entered (target_version s.table (b.row i) (in_record first))))
    pick :
        (i v1 : ℕ)
        → b.is_write i ≡ false
        → s.status i ≡ entered v1
        → ReadStep s (
            with_status s i (
              spinning
                (read_target (seen s i v1) (b.row i) (b.loc i) b.epoch).0
                (read_target (seen s i v1) (b.row i) (b.loc i) b.epoch).1))
    copy :
        (i : ℕ) (target : Target) (waits : Bool)
        → s.status i ≡ spinning target waits
        → (waits && not (poll s.table (b.row i) target b.epoch)) ≡ false
        → ReadStep s (with_status s i (read_done (target_value s.table (b.row i) target)))

  -- A step of `gpuWriteToTableThread`.
  pub data WriteStep (s : State A) : State A → Type 0 where
    skip_write :
        (i : ℕ)
        → i < b.size
        → b.is_write i ≡ true
        → s.status i ≡ idle
        → b.row i ≡ absent
        → WriteStep s (with_status s i skipped)
    enter_write :
        (i : ℕ)
        → i < b.size
        → b.is_write i ≡ true
        → s.status i ≡ idle
        → b.row i ≢ absent
        → WriteStep s
            (with_status s i (entered (target_version s.table (b.row i) (in_record first))))
    aim :
        (i v1 : ℕ) (vs : List A)
        → b.is_write i ≡ true
        → s.status i ≡ entered v1
        → collect s.status (b.inputs i) ≡ some vs
        → WriteStep s (
            with_status s i
              (writing (write_target (seen s i v1) (b.row i) (b.loc i)) (b.compute i vs)))
    store :
        (i : ℕ) (target : Target) (v : A)
        → s.status i ≡ writing target v
        → WriteStep s (record {
          table = set_value s.table (b.row i) target v;
          status = update s.status i (stored target);
        })
    publish :
        (i : ℕ) (target : Target)
        → s.status i ≡ stored target
        → WriteStep s (record {
          table = set_version s.table (b.row i) target b.epoch;
          status = update s.status i published;
        })

  pub data Step (s : State A) : State A → Type 0 where
    reads : {t : State A} → ReadStep s t → Step s t
    writes : {t : State A} → WriteStep s t → Step s t

  pub data Reach (s : State A) : State A → Type 0 where
    here : Reach s s
    next : {t u : State A} → Reach s t → Step t u → Reach s u

  abbrev pub start : Table A → State A
  start t = record { table = t; status = λ _. idle }
