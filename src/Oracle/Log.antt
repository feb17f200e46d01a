-- ===== src/Oracle/Log.antt =====
-- The durable logs that the inserts and deletes of EGAD/benchmarks/ycsb_timeline_oracle.cpp write, and
-- their agreement with its live map.
--
-- `Log` is the content of the logs from the beginning of the run: an insert that finds no live record
-- appends its key, a delete that finds one appends the key and the record that it ends
-- (`d_insert_log`, `d_delete_log_keys` and `d_delete_log_crids` of EGAD/benchmarks/ycsb_gpu_index.cu).
use egad_code.Prelude.{
  ℕ, suc, ◌+◌, ◌^◌, ◌≤◌, ◌<◌, ◌≡◌, refl, Option, none, some, ◌==◌, if◌then◌else◌, arith, ◌∙◌,
}
use egad_code.Prelude.Words.{add32}
use egad_code.Shadow.Shards.{initial, replay_inserts, replay_deletes}
use egad_code.Shadow.Logs.{
  replay_inserts-congr, replay_deletes-congr, replay_deletes-some, replay, replay-lt,
}
use egad_code.Oracle.{OpType}
use OpType.{
  insert, delete, read, full_read, update, read_modify_write, full_read_modify_write, noop,
}

pub record Log : Type 0 where
  pub insert_keys : ℕ → ℕ
  pub inserts : ℕ
  pub delete_keys : ℕ → ℕ
  pub delete_crids : ℕ → ℕ
  pub deletes : ℕ

abbrev pub set_at : ℕ → ℕ → (ℕ → ℕ) → ℕ → ℕ
set_at i v f j = if j == i then v else f j

-- What the logs map a key to.
abbrev pub log_find : ℕ → Log → ℕ → Option ℕ
log_find base log key =
    replay base log.insert_keys log.inserts log.delete_keys log.delete_crids log.deletes key

abbrev pub append_insert : ℕ → Log → Log
append_insert key log = record log {
  insert_keys = set_at log.inserts key log.insert_keys;
  inserts = suc log.inserts;
}

abbrev pub append_delete : ℕ → ℕ → Log → Log
append_delete key crid log = record log {
  delete_keys = set_at log.deletes key log.delete_keys;
  delete_crids = set_at log.deletes crid log.delete_crids;
  deletes = suc log.deletes;
}

-- The log stays what it is below its cursors.
abbrev pub IsExtended : Log → Log → Type 0
IsExtended log log' =
    (log.inserts ≤ log'.inserts)
    × (log.deletes ≤ log'.deletes)
    × ((j : ℕ) → j < log.inserts → log'.insert_keys j ≡ log.insert_keys j)
    × ((j : ℕ)
        → j < log.deletes
        → (log'.delete_keys j ≡ log.delete_keys j) × (log'.delete_crids j ≡ log.delete_crids j))

pub IsExtended-refl : (log : Log) → IsExtended log log
IsExtended-refl log = (omega arith, omega arith, λ j l. refl, λ j l. (refl, refl))

pub IsExtended-trans : (a b c : Log) → IsExtended a b → IsExtended b c → IsExtended a c
IsExtended-trans a b c (i, d, f, g) (i', d', f', g') = (
  omega arith,
  omega arith,
  λ j l. f' j (omega arith) ∙ f j l,
  λ j l. ((g' j (omega arith)).0 ∙ (g j l).0, (g' j (omega arith)).1 ∙ (g j l).1),
)

-- The log of one operation in the state before it, `live` being what its key maps to.
unfoldable pub log_op : OpType → ℕ → Option ℕ → Log → Log
log_op insert key none log = append_insert key log
log_op insert key (some crid) log = log
log_op delete key none log = log
log_op delete key (some crid) log = append_delete key crid log
log_op _ key live log = log

pub log_op-IsExtended :
    (op : OpType) (key : ℕ) (live : Option ℕ) (log : Log)
    → IsExtended log (log_op op key live log) × ((log_op op key live log).inserts ≤ suc log.inserts)
unfolding log_op
log_op-IsExtended insert key none log =
    ((omega arith, omega arith, λ j l. ground arith, λ j l. (refl, refl)), omega arith)
log_op-IsExtended delete key (some crid) log =
    ((omega arith, omega arith, λ j l. refl, λ j l. (ground arith, ground arith)), omega arith)
log_op-IsExtended insert key (some crid) log = (IsExtended-refl log, omega arith)
log_op-IsExtended delete key none log = (IsExtended-refl log, omega arith)
log_op-IsExtended read key live log = (IsExtended-refl log, omega arith)
log_op-IsExtended full_read key live log = (IsExtended-refl log, omega arith)
log_op-IsExtended update key live log = (IsExtended-refl log, omega arith)
log_op-IsExtended read_modify_write key live log = (IsExtended-refl log, omega arith)
log_op-IsExtended full_read_modify_write key live log = (IsExtended-refl log, omega arith)
log_op-IsExtended noop key live log = (IsExtended-refl log, omega arith)

-- No entry of the delete log ends a record that is not there yet.
abbrev pub IsBounded : ℕ → Log → Type 0
IsBounded base log = (j : ℕ) → j < log.deletes → log.delete_crids j < base + log.inserts

pub log_find-append_insert :
    (base key : ℕ) (log : Log) (k : ℕ)
    → base + log.inserts < 2 ^ 32
    → IsBounded base log
    → log_find base (append_insert key log) k
      ≡ (if key == k then some (add32 base log.inserts) else log_find base log k)
unfolding replay_inserts
log_find-append_insert base key log k fits bounded = ground (
  arith,
  replay_inserts-congr base (set_at log.inserts key log.insert_keys) log.insert_keys log.inserts
      (initial base k) k (λ j l. ground arith),
  replay_deletes-some log.delete_keys log.delete_crids log.deletes (add32 base log.inserts) k
      (λ j l. λ e. omega (arith, bounded j l)),
)

pub log_find-append_delete :
    (base key crid : ℕ) (log : Log) (k : ℕ)
    → log_find base log key ≡ some crid
    → log_find base (append_delete key crid log) k
      ≡ (if key == k then none else log_find base log k)
unfolding replay_deletes
log_find-append_delete base key crid log k e = ground (
  arith,
  replay_deletes-congr (set_at log.deletes key log.delete_keys) log.delete_keys
      (set_at log.deletes crid log.delete_crids) log.delete_crids log.deletes
      (replay_inserts base log.insert_keys log.inserts (initial base k) k) k
      (λ j l. (ground arith, ground arith)),
)

-- An appended delete is bounded, since the logs map its key to the record.
pub append_delete-IsBounded :
    (base key crid : ℕ) (log : Log)
    → base + log.inserts ≤ 2 ^ 32
    → log_find base log key ≡ some crid
    → IsBounded base log
    → IsBounded base (append_delete key crid log)
append_delete-IsBounded base key crid log fits e bounded j l =
    let below : crid < base + log.inserts =
      replay-lt base log.insert_keys log.inserts log.delete_keys log.delete_crids log.deletes key
        crid fits e in
    ground (arith, bounded j)

pub append_insert-IsBounded :
    (base key : ℕ) (log : Log) → IsBounded base log → IsBounded base (append_insert key log)
append_insert-IsBounded base key log bounded j l = omega (arith, bounded j l)
