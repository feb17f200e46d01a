-- ===== src/Gacco/Turns.antt =====
-- The turns of the transactions at the locks that EGAD/gacco/gpu_execution_planner.cu prepares and
-- EGAD/gacco/benchmarks/tpcc_gpu_executor.cu passes on.
use native.Mathlib.Decide.{ℕ_discrete}
use egad_code.Prelude.{
  ℕ, zero, suc, ◌+◌, ◌-◌, ◌^◌, ◌≤◌, ◌<◌, ◌≡◌, refl, sym, ap, ◌∙◌, ◌==◌, if◌then◌else◌, List, [],
  ◌∷◌, arith, Bool-cases, ==→eq, true, false, inl, inr,
}
use egad_code.Prelude.Words.{add32}
use egad_code.Prelude.Loops.{for_upto, grid_guard_lem}
use egad_code.Planner.{Op, Array, Cub, get_record_id}
use egad_code.Gacco.{
  TableLock, Encoded, gacco_get_record_id, gacco_get_txn_id, copy_access_thread,
  copy_access_tid_kernel, build_aux_array_thread, build_aux_array_kernel, gacco_sorted_ops, row_ids,
  encoded, gacco_initialize_execution_plan, acquire_lock, release_lock, release_locks, threads_for,
}
use egad_code.Gacco.Runs.{
  IsRunLength, Run, start, earlier, ascend, earlier-run, find-Run, run_key_at, runs_le, sum-start,
}

-- How often a record's lock is released.
unfoldable pub releases : ℕ → List ℕ → ℕ
releases row [] = 0
releases row (r ∷ rs) = let rest = releases row rs in if row == r then suc rest else rest

-- The record's lock is with the transaction at place `o` of the accesses.
record Holds (a : Array ℕ) (row o : ℕ) (t : TableLock) : Type 0 where
  access_eq : (i : ℕ) → t.access i ≡ a i
  offset_eq : t.offset row ≡ o
  lock_eq : t.lock row ≡ a o

moved_to :
    {a : Array ℕ} {row o o' : ℕ} {t : TableLock} → o ≡ o' → Holds a row o t → Holds a row o' t
moved_to {a = a} e h = record {
  access_eq = h.access_eq;
  offset_eq = h.offset_eq ∙ e;
  lock_eq = h.lock_eq ∙ ap a e;
}

-- A release of the record's lock passes it on to the next place.
release-own :
    (a : Array ℕ) (row o r : ℕ) (t : TableLock)
    → suc o < 2 ^ 32
    → row ≡ r
    → Holds a row o t
    → Holds a row (suc o) (release_lock r t)
unfolding release_lock
release-own a row o r t small same h =
    let e : (row == r) ≡ true = ground arith in
    let next : add32 (t.offset r) 1 ≡ suc o = omega (arith, ap t.offset same, h.offset_eq) in
    record {
      access_eq = h.access_eq;
      offset_eq = rw e next;
      lock_eq = rw e (h.access_eq (add32 (t.offset r) 1) ∙ ap a next);
    }

-- A release of another record's lock leaves it.
release-other :
    (a : Array ℕ) (row o r : ℕ) (t : TableLock)
    → (row == r) ≡ false
    → Holds a row o t
    → Holds a row o (release_lock r t)
unfolding release_lock
release-other a row o r t e h = record {
  access_eq = h.access_eq;
  offset_eq = rw e h.offset_eq;
  lock_eq = rw e h.lock_eq;
}

releases-Holds :
    (a : Array ℕ) (row o k : ℕ) (rs : List ℕ) (t : TableLock)
    → k ≡ o + releases row rs
    → k < 2 ^ 32
    → Holds a row o t
    → Holds a row k (release_locks rs t)
unfolding releases release_locks
releases-Holds a row o k [] t q small h = moved_to (omega arith) h
releases-Holds a row o k (r ∷ rs) t q small h = elim (Bool-cases (row == r)) [
  | inl same ↦
      releases-Holds a row (suc o) k rs (release_lock r t) (ground arith) small
        (release-own a row o r t (ground arith) (==→eq row r same) h)
  | inr other ↦
      releases-Holds a row o k rs (release_lock r t) (ground arith) small
        (release-other a row o r t other h)
]

copied :
    (sorted : Array Op) (n i : ℕ) (t : TableLock)
    → i < n
    → (for_upto n (copy_access_thread sorted) t).access i ≡ gacco_get_txn_id (sorted i)
unfolding for_upto
copied sorted zero i t l = absurd (omega arith)
copied sorted (suc n) i t l = elim (ℕ_discrete i n) [
  | yes same ↦ ground arith
  | no other ↦ ground (arith, copied sorted n i t (omega arith))
]

built_access :
    (offsets rows : Array ℕ) (m i : ℕ) (t : TableLock)
    → (for_upto m (build_aux_array_thread offsets rows) t).access i ≡ t.access i
unfolding for_upto
built_access offsets rows zero i t = refl
built_access offsets rows (suc m) i t = built_access offsets rows m i t

built-Holds :
    (offsets rows : Array ℕ) (m j : ℕ) (t : TableLock)
    → j < m
    → ((i : ℕ) → j < i → i < m → rows j < rows i)
    → Holds t.access (rows j) (offsets j) (for_upto m (build_aux_array_thread offsets rows) t)
unfolding for_upto
built-Holds offsets rows zero j t l up = absurd (omega arith)
built-Holds offsets rows (suc m) j t l up = elim (ℕ_discrete j m) [
  | yes last ↦
      let same : (rows j == rows m) ≡ true = ground (arith, ap rows last) in
      let place : offsets m ≡ offsets j = ap offsets (sym last) in
      record {
        access_eq = λ i. built_access offsets rows m i t;
        offset_eq = rw same place;
        lock_eq = rw same (built_access offsets rows m (offsets m) t ∙ ap t.access place);
      }
  | no other ↦
      let later : (rows j == rows m) ≡ false = ground (arith, up m (omega arith) (omega arith)) in
      let h = built-Holds offsets rows m j t (omega arith) (λ i p q. up i p (omega arith)) in
      record {
        access_eq = h.access_eq;
        offset_eq = rw later h.offset_eq;
        lock_eq = rw later h.lock_eq;
      }
]

threads_enough : (n : ℕ) → n < 2 ^ 32 - 256 → n ≤ threads_for n
threads_enough n small = omega arith

module _ (cub : Cub) (encode : ℕ → Array ℕ → Encoded) (n : ℕ) (submitted : Array Op)
    (small : n < 2 ^ 32 - 256)
    (runs : IsRunLength n (row_ids cub encode n submitted) (encoded cub encode n submitted)) where
  abbrev row : ℕ → ℕ
  row = row_ids cub encode n submitted

  abbrev txn : ℕ → ℕ
  txn p = gacco_get_txn_id (submitted (cub.origin n submitted p))

  abbrev taken : TableLock → Array ℕ
  taken t = (for_upto n (copy_access_thread (gacco_sorted_ops cub encode n submitted)) t).access

  rows_sorted : (i j : ℕ) → i ≤ j → j < n → row i ≤ row j
  unfolding gacco_get_record_id get_record_id
  rows_sorted i j l h = cub.sort_sorted n submitted i j l h

  -- After the plan, the lock of a run's record is with the first transaction of the run.
  planned-Holds :
      (t : TableLock) (j : ℕ)
      → j < (encoded cub encode n submitted).num_unique_rows
      → Holds
          (taken t)
          ((encoded cub encode n submitted).unique_rows j)
          (start (encoded cub encode n submitted).unique_access j)
          (gacco_initialize_execution_plan cub encode n submitted t)
  unfolding gacco_initialize_execution_plan copy_access_tid_kernel build_aux_array_kernel
  planned-Holds t j l =
      let e = encoded cub encode n submitted in
      let le = runs_le runs rows_sorted in
      let some_op : (n == 0) ≡ false = ground arith in
      rw
        (
          some_op,
          grid_guard_lem (copy_access_thread (gacco_sorted_ops cub encode n submitted))
              (threads_for n) n t (threads_enough n small),
          grid_guard_lem
              (build_aux_array_thread (cub.exclusive_sum e.num_unique_rows e.unique_access)
                e.unique_rows)
              (threads_for e.num_unique_rows) e.num_unique_rows
              (for_upto n (copy_access_thread (gacco_sorted_ops cub encode n submitted)) t)
              (threads_enough e.num_unique_rows (omega arith)),
        )
        (moved_to (sum-start runs rows_sorted cub j (omega arith) l) (
          built-Holds (cub.exclusive_sum e.num_unique_rows e.unique_access) e.unique_rows
            e.num_unique_rows j
            (for_upto n (copy_access_thread (gacco_sorted_ops cub encode n submitted)) t) l
            (λ i p q. ascend runs rows_sorted j i p q)))

  -- For fewer than `2 ^ 32 - 256` operations, and a run-length encoding as documented: take
  -- operation `p` of the sorted array. After the plan and any sequence of releases, in any order, in
  -- which its record is released as often as the record has operations before `p`, the lock of the
  -- record can be acquired by the transaction of operation `p` and by no other.
  pub acquire-release_locks :
      (t : TableLock) (p : ℕ) (rs : List ℕ) (txn_id : ℕ)
      → p < n
      → releases (row p) rs ≡ earlier row p (row p)
      → acquire_lock
          (release_locks rs (gacco_initialize_execution_plan cub encode n submitted t))
          (row p)
          txn_id
        ≡ (txn p == txn_id)
  unfolding acquire_lock
  acquire-release_locks t p rs txn_id l count =
      let e = encoded cub encode n submitted in
      let f : Run e e.num_unique_rows p =
        find-Run e e.num_unique_rows p (omega (arith, runs.total)) in
      let key : row p ≡ e.unique_rows f.number =
        run_key_at runs rows_sorted f.number f.place p f.number_lt f.place_lt f.place_eq in
      let place : earlier row p (row p) ≡ f.place =
        ap (earlier row p) key
        ∙ earlier-run runs rows_sorted f.number f.place p f.number_lt (omega (arith, f.place_lt))
            f.place_eq in
      let planned = gacco_initialize_execution_plan cub encode n submitted t in
      let first : Holds (taken t) (row p) (start e.unique_access f.number) planned =
        rw key (planned-Holds t f.number f.number_lt) in
      let h =
        releases-Holds (taken t) (row p) (start e.unique_access f.number) p rs planned
          (omega (arith, f.place_eq)) (omega arith) first in
      ap (λ x. x == txn_id)
        (h.lock_eq
          ∙ copied (gacco_sorted_ops cub encode n submitted) n p t l
          ∙ ap gacco_get_txn_id (cub.sort-origin n submitted p l))
