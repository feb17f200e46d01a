-- ===== src/Tests/Locks.antt =====
-- An epoch of EGAD/gacco with three operations: transactions 1 and 3 on record 7, transaction 2 on
-- record 2.
use egad_code.Prelude.{
  ℕ, zero, suc, ◌+◌, ◌≡◌, ◌≢◌, ◌<◌, refl, List, [], ◌∷◌, length, get_or, map, ◌==◌, if◌then◌else◌,
  true, arith,
}
use egad_code.Planner.{Op, Array, get_record_id}
use egad_code.Gacco.{
  TableLock, Encoded, gacco_create_op, gacco_get_record_id, gacco_get_txn_id, row_ids, encoded,
  gacco_initialize_execution_plan, acquire_lock, release_locks,
}
use egad_code.Gacco.Runs.{IsRunLength, start, earlier}
use egad_code.Gacco.Turns.{releases, acquire-release_locks}
use egad_code.Tests.Radix.{radix}

abbrev three_ops : Array Op
three_ops i =
    if i == 0 then 0x0000000700000001 else if i == 1 then 0x0000000200000002 else 0x0000000700000003

three_ops_words :
    (three_ops 0 ≡ gacco_create_op 7 1)
    × (three_ops 1 ≡ gacco_create_op 2 2)
    × (three_ops 2 ≡ gacco_create_op 7 3)
unfolding gacco_create_op
three_ops_words = (refl, refl, refl)

-- Run-length encoding, from the last key on.
abbrev add_key : ℕ → List (ℕ × ℕ) → List (ℕ × ℕ)
add_key key [] = (key, 1) ∷ []
add_key key (r ∷ rs) = if key == r.0 then (key, suc r.1) ∷ rs else (key, 1) ∷ r ∷ rs

abbrev run_list : ℕ → ℕ → Array ℕ → List (ℕ × ℕ)
run_list zero i keys = []
run_list (suc n) i keys = add_key (keys i) (run_list n (suc i) keys)

abbrev run_length : ℕ → Array ℕ → Encoded
run_length n keys = record {
  unique_rows = λ j. get_or (map (λ r. r.0) (run_list n 0 keys)) j 0;
  unique_access = λ j. get_or (map (λ r. r.1) (run_list n 0 keys)) j 0;
  num_unique_rows = length (run_list n 0 keys);
}

abbrev three_rows : Array ℕ
three_rows = row_ids radix run_length 3 three_ops

abbrev three_runs : Encoded
three_runs = encoded radix run_length 3 three_ops

run_list_three : run_list 3 0 three_rows ≡ (2, 1) ∷ (7, 2) ∷ []
unfolding gacco_get_record_id get_record_id
run_list_three = refl

three_keys :
    (j k : ℕ)
    → j < 2
    → k < three_runs.unique_access j
    → three_rows (start three_runs.unique_access j + k) ≡ three_runs.unique_rows j
unfolding gacco_get_record_id get_record_id start
three_keys zero zero p q = refl
three_keys zero (suc k) p q = absurd (omega arith)
three_keys (suc zero) zero p q = refl
three_keys (suc zero) (suc zero) p q = refl
three_keys (suc zero) (suc (suc k)) p q = absurd (omega arith)
three_keys (suc (suc j)) k p q = absurd (omega arith)

three_positive : (j : ℕ) → j < 2 → 0 < three_runs.unique_access j
unfolding gacco_get_record_id get_record_id
three_positive zero p = omega arith
three_positive (suc zero) p = omega arith
three_positive (suc (suc j)) p = absurd (omega arith)

three_ends : (j : ℕ) → suc j < 2 → three_runs.unique_rows j ≢ three_runs.unique_rows (suc j)
unfolding gacco_get_record_id get_record_id
three_ends zero p e = absurd (omega arith)
three_ends (suc j) p e = absurd (omega arith)

three_runs-IsRunLength : IsRunLength 3 three_rows three_runs
unfolding gacco_get_record_id get_record_id start
three_runs-IsRunLength = record {
  total = refl;
  run_key = three_keys;
  run_positive = three_positive;
  run_ends = three_ends;
}

abbrev blank : TableLock
blank = record { access = λ i. 0; offset = λ i. 0; lock = λ i. 0 }

acquire-release_locks_example :
    acquire_lock
      (release_locks
        (2 ∷ 7 ∷ [])
        (gacco_initialize_execution_plan radix run_length 3 three_ops blank))
      7
      3
    ≡ true
unfolding gacco_get_record_id get_record_id gacco_get_txn_id releases earlier
acquire-release_locks_example =
    acquire-release_locks radix run_length 3 three_ops (omega arith) three_runs-IsRunLength blank 2
      (2 ∷ 7 ∷ []) 3 (omega arith) refl
