-- ===== src/Oracle/Agreement.antt =====
-- The live map of EGAD/benchmarks/ycsb_timeline_oracle.cpp and the logs of the same operations agree.
use egad_code.Prelude.{
  ℕ, zero, suc, ◌+◌, ◌*◌, ◌≤◌, ◌<◌, ◌≡◌, sym, Option, none, some, ◌==◌, arith, Option-cases,
  Bool-cases, inl, inr, ◌∙◌,
}
use egad_code.Prelude.Words.{add32, absent}
use egad_code.Prelude.Maps.{MapApi, SetApi}
use egad_code.Oracle.{
  OpType, Txn, Config, Epoch, resolve_insert, resolve_delete, resolve_other, resolve, compare_param,
  replay_op, replay_txn, replay_txns, next_crid,
}
use egad_code.Oracle.Log.{
  Log, log_find, IsExtended, IsExtended-refl, IsExtended-trans, log_op, log_op-IsExtended,
  IsBounded, log_find-append_insert, log_find-append_delete, append_delete-IsBounded,
  append_insert-IsBounded,
}
use OpType.{
  insert, delete, read, full_read, update, read_modify_write, full_read_modify_write, noop,
}

module _ (maps : MapApi) (sets : SetApi) (config : Config) where
  -- The live map and the log agree, and so do the two counts of records.
  abbrev pub Agree : Epoch maps sets → Log → Type 0
  Agree e log =
      ((key : ℕ) → maps.find e.oracle.live key ≡ log_find config.base log key)
      × (e.oracle.free_start + e.counts.minted ≡ log.inserts)
      × IsBounded config.base log

  -- The logs of the first `n` operations of a transaction.
  unfoldable pub log_txn : ℕ → Option (ℕ → ℕ → ℕ) → Txn → ℕ → ℕ → Epoch maps sets → Log → Log
  log_txn epoch_id params txn t zero e log = log
  log_txn epoch_id params txn t (suc i) e log =
      let before = replay_txn maps sets config epoch_id params txn t i e in
      log_op (txn.ops i) (txn.keys i) (maps.find before.oracle.live (txn.keys i))
        (log_txn epoch_id params txn t i e log)

  -- The logs of the first `n` transactions.
  unfoldable pub log_txns : ℕ → Option (ℕ → ℕ → ℕ) → (ℕ → Txn) → ℕ → Epoch maps sets → Log → Log
  log_txns epoch_id params txns zero e log = log
  log_txns epoch_id params txns (suc t) e log =
      log_txn epoch_id params (txns t) t config.num_ops
        (replay_txns maps sets config epoch_id params txns t e)
        (log_txns epoch_id params txns t e log)

  insert-Agree :
      (key : ℕ) (e : Epoch maps sets) (log : Log)
      → config.base + log.inserts < absent
      → Agree e log
      → Agree
          ((resolve_insert maps sets config key e).0)
          (log_op insert key (maps.find e.oracle.live key) log)
  unfolding resolve_insert log_op
  insert-Agree key e log fits (same, count, bounded) =
      elim (Option-cases (maps.find e.oracle.live key)) [
        | inr (crid, is) ↦ rw (is, resolve_insert) (same, count, bounded)
        | inl is ↦
            let crid : next_crid maps sets config e ≡ add32 config.base log.inserts =
              ground arith in
            rw (is, resolve_insert, crid)
              (
                λ k. ground (
                  arith,
                  maps.find-emplace e.oracle.live key (add32 config.base log.inserts) k,
                  log_find-append_insert config.base key log k,
                  same k,
                ),
                ground arith,
                append_insert-IsBounded config.base key log bounded,
              )
      ]

  delete-Agree :
      (epoch_id key : ℕ) (e : Epoch maps sets) (log : Log)
      → config.base + log.inserts < absent
      → Agree e log
      → Agree
          ((resolve_delete maps sets epoch_id key e).0)
          (log_op delete key (maps.find e.oracle.live key) log)
  unfolding resolve_delete log_op
  delete-Agree epoch_id key e log fits (same, count, bounded) =
      elim (Option-cases (maps.find e.oracle.live key)) [
        | inl is ↦ rw (is, resolve_delete) (same, count, bounded)
        | inr (crid, is) ↦
            let there : log_find config.base log key ≡ some crid = sym (same key) ∙ is in
            rw (is, resolve_delete)
              (
                λ k. ground (
                  arith,
                  maps.find-erase e.oracle.live key k,
                  log_find-append_delete config.base key crid log k there,
                  same k,
                ),
                count,
                append_delete-IsBounded config.base key crid log (omega arith) there bounded,
              )
      ]

  other-Agree :
      (key : ℕ) (e : Epoch maps sets) (log : Log)
      → Agree e log
      → Agree ((resolve_other maps sets key e).0) log
  unfolding resolve_other
  other-Agree key e log h = elim (Option-cases (maps.find e.oracle.live key)) [
    | inl is ↦ rw (is, resolve_other) h
    | inr (crid, is) ↦
        rw (is, resolve_other)
          (elim (Bool-cases (crid == absent)) [ inl b ↦ rw b h | inr b ↦ rw b h ])
  ]

  resolve-Agree :
      (epoch_id : ℕ) (op : OpType) (key : ℕ) (e : Epoch maps sets) (log : Log)
      → config.base + log.inserts < absent
      → Agree e log
      → Agree
          ((resolve maps sets config epoch_id op key e).0)
          (log_op op key (maps.find e.oracle.live key) log)
  unfolding resolve log_op
  resolve-Agree epoch_id insert key e log fits h = insert-Agree key e log fits h
  resolve-Agree epoch_id delete key e log fits h = delete-Agree epoch_id key e log fits h
  resolve-Agree epoch_id read key e log fits h = other-Agree key e log h
  resolve-Agree epoch_id full_read key e log fits h = other-Agree key e log h
  resolve-Agree epoch_id update key e log fits h = other-Agree key e log h
  resolve-Agree epoch_id read_modify_write key e log fits h = other-Agree key e log h
  resolve-Agree epoch_id full_read_modify_write key e log fits h = other-Agree key e log h
  resolve-Agree epoch_id noop key e log fits h = other-Agree key e log h

  compare-Agree :
      (params : Option (ℕ → ℕ → ℕ)) (t i expected : ℕ) (e : Epoch maps sets) (log : Log)
      → Agree e log
      → Agree (compare_param maps sets params t i expected e) log
  unfolding compare_param
  compare-Agree none t i expected e log h = h
  compare-Agree (some got) t i expected e log h = elim (Bool-cases (got t i == expected)) [
    | inl b ↦ rw (b, compare_param) h
    | inr b ↦ rw (b, compare_param) h
  ]

  -- The logs agree after the first `n` operations of a transaction, and grow by at most `n` inserts.
  txn-Agree :
      (epoch_id : ℕ) (params : Option (ℕ → ℕ → ℕ)) (txn : Txn) (t n : ℕ) (e : Epoch maps sets)
      (log : Log)
      → config.base + (log.inserts + n) ≤ absent
      → Agree e log
      → Agree
          (replay_txn maps sets config epoch_id params txn t n e)
          (log_txn epoch_id params txn t n e log)
        × IsExtended log (log_txn epoch_id params txn t n e log)
        × ((log_txn epoch_id params txn t n e log).inserts ≤ log.inserts + n)
  unfolding log_txn replay_txn replay_op
  txn-Agree epoch_id params txn t zero e log fits h = (h, IsExtended-refl log, omega arith)
  txn-Agree epoch_id params txn t (suc i) e log fits h =
      let e' = replay_txn maps sets config epoch_id params txn t i e in
      let log' = log_txn epoch_id params txn t i e log in
      let live = maps.find e'.oracle.live (txn.keys i) in
      let (agree, grown, few) = txn-Agree epoch_id params txn t i e log (omega arith) h in
      let (grown', few') = log_op-IsExtended (txn.ops i) (txn.keys i) live log' in
      (
        compare-Agree params t i _ _ _
            (resolve-Agree epoch_id (txn.ops i) (txn.keys i) e' log' (omega arith) agree),
        IsExtended-trans log log' _ grown grown',
        omega arith,
      )

  pub txns-Agree :
      (epoch_id : ℕ) (params : Option (ℕ → ℕ → ℕ)) (txns : ℕ → Txn) (n : ℕ) (e : Epoch maps sets)
      (log : Log)
      → config.base + (log.inserts + n * config.num_ops) ≤ absent
      → Agree e log
      → Agree
          (replay_txns maps sets config epoch_id params txns n e)
          (log_txns epoch_id params txns n e log)
        × IsExtended log (log_txns epoch_id params txns n e log)
        × ((log_txns epoch_id params txns n e log).inserts ≤ log.inserts + n * config.num_ops)
  unfolding log_txns replay_txns
  txns-Agree epoch_id params txns zero e log fits h = (h, IsExtended-refl log, omega arith)
  txns-Agree epoch_id params txns (suc t) e log fits h =
      let e' = replay_txns maps sets config epoch_id params txns t e in
      let log' = log_txns epoch_id params txns t e log in
      let (agree, grown, few) = txns-Agree epoch_id params txns t e log (omega arith) h in
      let (agree', grown', few') =
        txn-Agree epoch_id params (txns t) t config.num_ops e' log' (omega arith) agree in
      (agree', IsExtended-trans log log' _ grown grown', omega arith)
