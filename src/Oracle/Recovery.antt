-- ===== src/Oracle/Recovery.antt =====
-- Recovery of the shadow of EGAD/benchmarks/ycsb_cpu_shadow_index.cpp from its durable logs, against the
-- live map of EGAD/benchmarks/ycsb_timeline_oracle.cpp.
--
-- An epoch replays its transactions in the oracle and mirrors what they appended to the logs, at the
-- cursors from before the epoch. A crash leaves the durable arrays; recovery loads the initial
-- population and replays the logs up to the cursors of the epoch it recovers.
use egad_code.Prelude.{
  ℕ, zero, suc, ◌+◌, ◌*◌, ◌^◌, ◌≤◌, ◌≡◌, refl, sym, Option, some, List, [], ◌∷◌, arith, length, ◌∙◌,
  ap,
}
use egad_code.Prelude.Words.{absent}
use egad_code.Prelude.Maps.{MapApi, SetApi}
use egad_code.Shadow.{Shadow, shard_count, view}
use egad_code.Shadow.Shards.{initial, replay_inserts, replay_deletes}
use egad_code.Oracle.{
  Txn, Config, Oracle, populate, reset, Epoch, no_counts, close_epoch, replay_epoch,
}
use egad_code.Oracle.Log.{Log, IsExtended, IsExtended-refl, IsExtended-trans}
use egad_code.Oracle.Mirror.{
  mirror, crash, recover, IsDurable, IsDurable-mono, mirror-IsDurable, mirror-starting,
  recover-view,
}
use egad_code.Oracle.Agreement.{Agree, log_txns, txns-Agree}

-- The input of one epoch.
pub record Input : Type 0 where
  pub epoch_id : ℕ
  pub txns : ℕ → Txn
  pub params : Option (ℕ → ℕ → ℕ)

module _ (maps : MapApi) (sets : SetApi) (config : Config) where
  pub record Running : Type 0 where
    pub oracle : Oracle maps sets
    pub log : Log
    pub shadow : Shadow maps

  abbrev pub empty_log : Log
  empty_log = record {
    insert_keys = λ j. 0;
    inserts = 0;
    delete_keys = λ j. 0;
    delete_crids = λ j. 0;
    deletes = 0;
  }

  -- The beginning of a run.
  abbrev pub begin : Oracle maps sets → Shadow maps → Running
  begin o s = record { oracle = reset maps sets config.base o; log = empty_log; shadow = s }

  abbrev pub open_epoch : Oracle maps sets → Epoch maps sets
  open_epoch o = record { oracle = o; counts = no_counts maps sets }

  abbrev pub log_epoch : Input → Running → Log
  log_epoch x r =
      log_txns maps sets config x.epoch_id x.params x.txns config.num_txns (open_epoch r.oracle)
        r.log

  abbrev pub run_epoch : Input → Running → Running
  run_epoch x r = record {
    oracle = (replay_epoch maps sets config x.epoch_id x.txns x.params r.oracle).0;
    log = log_epoch x r;
    shadow = mirror maps r.log (log_epoch x r) r.shadow;
  }

  unfoldable pub run : List Input → Running → Running
  run [] r = r
  run (x ∷ xs) r = run xs (run_epoch x r)

  populate-find : (n key : ℕ) → maps.find (populate maps sets n maps.empty) key ≡ initial n key
  unfolding populate
  populate-find zero key = maps.find-empty key ∙ ground arith
  populate-find (suc n) key =
      ground
        (arith, maps.find-emplace (populate maps sets n maps.empty) n n key, populate-find n key)

  -- The oracle, the logs and the durable arrays of a run agree between epochs.
  abbrev IsRunning : Running → Type 0
  IsRunning r = Agree maps sets config (open_epoch r.oracle) r.log × IsDurable maps r.log r.shadow

  begin-IsRunning :
      (o : Oracle maps sets) (s : Shadow maps) (keys del_keys : ℕ → ℕ)
      → s.durable_insert_keys ≡ some keys
      → s.durable_delete_keys ≡ some del_keys
      → IsRunning (begin o s)
  unfolding reset replay_inserts replay_deletes
  begin-IsRunning o s keys del_keys e e' = (
    (λ key. populate-find config.base key, refl, λ j l. absurd (omega arith)),
    (keys, del_keys, e, e', λ j l. absurd (omega arith), λ j l. absurd (omega arith)),
  )

  run_epoch-IsRunning :
      (x : Input) (r : Running)
      → config.base + (r.log.inserts + config.num_txns * config.num_ops) ≤ absent
      → IsRunning r
      → IsRunning (run_epoch x r)
        × IsExtended r.log (log_epoch x r)
        × ((log_epoch x r).inserts ≤ r.log.inserts + config.num_txns * config.num_ops)
  unfolding replay_epoch close_epoch
  run_epoch-IsRunning x r fits (agree, durable) =
      let ((same, count, bounded), grown, few) =
        txns-Agree maps sets config x.epoch_id x.params x.txns config.num_txns (open_epoch r.oracle)
          r.log fits agree in
      (
        (
          (same, ground arith, bounded),
          mirror-IsDurable maps r.log (log_epoch x r) r.shadow grown durable,
        ),
        grown,
        few,
      )

  run-IsRunning :
      (xs : List Input) (r : Running)
      → config.base + (r.log.inserts + length xs * (config.num_txns * config.num_ops)) ≤ absent
      → IsRunning r
      → IsRunning (run xs r)
        × IsExtended r.log ((run xs r).log)
        × ((run xs r).log.inserts ≤ r.log.inserts + length xs * (config.num_txns * config.num_ops))
  unfolding run
  run-IsRunning [] r fits h = (h, IsExtended-refl r.log, omega arith)
  run-IsRunning (x ∷ xs) r fits h =
      let (h', grown, few) = run_epoch-IsRunning x r (omega arith) h in
      let (h'', grown', few') = run-IsRunning xs (run_epoch x r) (omega arith) h' in
      (h'', IsExtended-trans r.log (log_epoch x r) _ grown grown', omega arith)

  run-starting : (xs : List Input) (r : Running) → (run xs r).shadow.starting ≡ r.shadow.starting
  unfolding run
  run-starting [] r = refl
  run-starting (x ∷ xs) r =
      run-starting xs (run_epoch x r) ∙ mirror-starting maps r.log (log_epoch x r) r.shadow

  -- After epochs `xs` and then `ys`, a crash at the end of `ys`, and a recovery with the
  -- cursors from the end of `xs`, the shadow maps every key as the live map of the oracle at
  -- the end of `xs` did. The shadow starts with the oracle's population and allocated logs, the
  -- population leaves room for a step of 12 in 32 bits, and the operations of all epochs fit
  -- below `absent`.
  pub recover-eq-oracle :
      (o : Oracle maps sets) (s : Shadow maps) (keys del_keys : ℕ → ℕ) (xs ys : List Input)
      (key : ℕ)
      → s.durable_insert_keys ≡ some keys
      → s.durable_delete_keys ≡ some del_keys
      → s.starting ≡ config.base
      → config.base + shard_count ≤ 2 ^ 32
      → config.base + (length xs + length ys) * (config.num_txns * config.num_ops) ≤ absent
      → let early = run xs (begin o s) in
        view maps
          (recover maps early.oracle.free_start early.log.deletes
            (crash maps ((run ys early).shadow)))
          key
        ≡ maps.find early.oracle.live key
  recover-eq-oracle o s keys del_keys xs ys key e e' start fits room =
      let early = run xs (begin o s) in
      let late = run ys early in
      let (running, grown, few) =
        run-IsRunning xs (begin o s) (omega arith) (begin-IsRunning o s keys del_keys e e') in
      let (running', grown', few') = run-IsRunning ys early (omega arith) running in
      let count : early.oracle.free_start ≡ early.log.inserts = omega (arith, running.0.1) in
      ap (λ n. view maps (recover maps n early.log.deletes (crash maps late.shadow)) key) count
      ∙ recover-view maps config.base early.log late.shadow key
          (run-starting ys early ∙ run-starting xs (begin o s) ∙ start) fits
          (IsDurable-mono maps early.log late.log late.shadow grown' running'.1)
      ∙ sym (running.0.0 key)
