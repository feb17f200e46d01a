-- ===== src/Oracle.antt =====
-- EGAD/benchmarks/ycsb_timeline_oracle.{h,cpp} and the operations of EGAD/benchmarks/ycsb_txn.h: the
-- serial meaning of inserts and deletes.
--
-- An epoch's transactions are `txns t` for `t` below `num_txns`, with `num_ops` operations each.
-- `params t i` is the record that the GPU resolved for an operation, `none` for a null
-- `params_host`. The counts of the log line are kept, the logging is left out.
pub mod Log
pub mod Agreement
pub mod Mirror
pub mod Recovery
use egad_code.Prelude.{
  ℕ, zero, suc, ◌+◌, ◌^◌, ◌%◌, Bool, true, false, Option, none, some, List, [], ◌∷◌, ◌++◌, ◌==◌,
  if◌then◌else◌,
}
use egad_code.Prelude.Words.{add32, add64, absent}
use egad_code.Prelude.Maps.{MapApi, SetApi}

-- `YcsbOpType`
pub data OpType : Type 0 where
  read full_read update read_modify_write full_read_modify_write : OpType
  insert delete noop : OpType

-- `YcsbTxn`, without the fields.
pub record Txn : Type 0 where
  pub keys : ℕ → ℕ
  pub ops : ℕ → OpType

-- The parts of `YcsbConfig` that the oracle reads; `base` is `starting_num_records` as a `uint32_t`.
pub record Config : Type 0 where
  pub base : ℕ
  pub num_txns : ℕ
  pub num_ops : ℕ

-- The counters of one call of `replayEpoch`.
pub record Counts : Type 0 where
  pub mismatches : ℕ
  pub absents : ℕ
  pub minted : ℕ
  pub effective_deletes : ℕ
  pub reinserts : ℕ

module _ (maps : MapApi) (sets : SetApi) where
  pub record Oracle : Type 0 where
    pub free_start : ℕ
    pub live : maps.Map
    pub dead : sets.Set
    pub ended : List (ℕ × ℕ)
    pub absent_ops : ℕ
    pub minted_total : ℕ
    pub effective_deletes_total : ℕ
    pub reinserts_total : ℕ
    pub write_inserts : ℕ
    pub mismatches_total : ℕ

  -- The loop of `reset`: the first `n` keys.
  unfoldable pub populate : ℕ → maps.Map → maps.Map
  populate zero m = m
  populate (suc k) m = maps.emplace (populate k m) k k

  -- `reset`, on an oracle whose totals it leaves.
  unfoldable pub reset : ℕ → Oracle → Oracle
  reset starting o = record o {
    free_start = 0;
    live = populate starting maps.empty;
    dead = sets.empty;
    ended = [];
  }

  -- The state within an epoch.
  pub record Epoch : Type 0 where
    pub oracle : Oracle
    pub counts : Counts

  -- The record that the next life-creating insert gets.
  abbrev pub next_crid : Config → Epoch → ℕ
  next_crid config e = add32 (add32 config.base e.oracle.free_start) e.counts.minted

  -- `case YcsbOpType::INSERT`: the state, and the expected record.
  unfoldable pub resolve_insert : Config → ℕ → Epoch → Epoch × ℕ
  resolve_insert config key e = elim (maps.find e.oracle.live key) [
    | none ↦ (
      record {
        oracle = record (e.oracle) {
          live = maps.emplace e.oracle.live key (next_crid config e);
          dead = sets.erase e.oracle.dead key;
        };
        counts = record (e.counts) {
          minted = add32 e.counts.minted 1;
          reinserts =
              if sets.contains e.oracle.dead key
              then add32 e.counts.reinserts 1
              else e.counts.reinserts;
        };
      },
      next_crid config e,
    )
    | some crid ↦ (
      record {
        oracle = record (e.oracle) { write_inserts = add64 e.oracle.write_inserts 1 };
        counts = e.counts;
      },
      crid,
    )
  ]

  -- `case YcsbOpType::DELETE`
  unfoldable pub resolve_delete : ℕ → ℕ → Epoch → Epoch × ℕ
  resolve_delete epoch_id key e = elim (maps.find e.oracle.live key) [
    | none ↦
        (record e { counts = record (e.counts) { absents = add32 e.counts.absents 1 } }, absent)
    | some crid ↦ (
      record {
        oracle = record (e.oracle) {
          live = maps.erase e.oracle.live key;
          dead = sets.insert e.oracle.dead key;
          ended = e.oracle.ended ++ (crid, epoch_id) ∷ [];
        };
        counts = record (e.counts) { effective_deletes = add32 e.counts.effective_deletes 1 };
      },
      crid,
    )
  ]

  -- `default`
  unfoldable pub resolve_other : ℕ → Epoch → Epoch × ℕ
  resolve_other key e =
      let expected : ℕ = elim (maps.find e.oracle.live key) [ none ↦ absent | some crid ↦ crid ] in
      (
        if expected == absent
            then record e { counts = record (e.counts) { absents = add32 e.counts.absents 1 } }
            else e,
        expected,
      )

  -- The switch.
  unfoldable pub resolve : Config → ℕ → OpType → ℕ → Epoch → Epoch × ℕ
  resolve config epoch_id insert key e = resolve_insert config key e
  resolve config epoch_id delete key e = resolve_delete epoch_id key e
  resolve config epoch_id _ key e = resolve_other key e

  -- The comparison with the record that the GPU resolved.
  unfoldable pub compare_param : Option (ℕ → ℕ → ℕ) → ℕ → ℕ → ℕ → Epoch → Epoch
  compare_param none t i expected e = e
  compare_param (some got) t i expected e =
      if got t i == expected
      then e
      else record e { counts = record (e.counts) { mismatches = add32 e.counts.mismatches 1 } }

  -- One round of the inner loop.
  unfoldable pub replay_op : Config → ℕ → Option (ℕ → ℕ → ℕ) → Txn → ℕ → ℕ → Epoch → Epoch
  replay_op config epoch_id params txn t i e =
      let (e', expected) = resolve config epoch_id (txn.ops i) (txn.keys i) e in
      compare_param params t i expected e'

  -- The first `n` operations of a transaction.
  unfoldable pub replay_txn : Config → ℕ → Option (ℕ → ℕ → ℕ) → Txn → ℕ → ℕ → Epoch → Epoch
  replay_txn config epoch_id params txn t zero e = e
  replay_txn config epoch_id params txn t (suc i) e =
      replay_op config epoch_id params txn t i (replay_txn config epoch_id params txn t i e)

  -- The first `n` transactions.
  unfoldable pub replay_txns : Config → ℕ → Option (ℕ → ℕ → ℕ) → (ℕ → Txn) → ℕ → Epoch → Epoch
  replay_txns config epoch_id params txns zero e = e
  replay_txns config epoch_id params txns (suc t) e =
      replay_txn config epoch_id params (txns t) t config.num_ops
        (replay_txns config epoch_id params txns t e)

  abbrev pub no_counts : Counts
  no_counts = record {
    mismatches = 0;
    absents = 0;
    minted = 0;
    effective_deletes = 0;
    reinserts = 0;
  }

  -- The end of `replayEpoch`: the totals.
  unfoldable pub close_epoch : Option (ℕ → ℕ → ℕ) → Epoch → Oracle
  close_epoch params e = record (e.oracle) {
    free_start = add32 e.oracle.free_start e.counts.minted;
    absent_ops = add64 e.oracle.absent_ops e.counts.absents;
    minted_total = add64 e.oracle.minted_total e.counts.minted;
    effective_deletes_total = add64 e.oracle.effective_deletes_total e.counts.effective_deletes;
    reinserts_total = add64 e.oracle.reinserts_total e.counts.reinserts;
    mismatches_total = elim params [
      | none ↦ e.oracle.mismatches_total
      | some got ↦ add64 e.oracle.mismatches_total e.counts.mismatches
    ];
  }

  -- `replayEpoch`: the oracle, and the number of mismatches.
  unfoldable pub replay_epoch : Config → ℕ → (ℕ → Txn) → Option (ℕ → ℕ → ℕ) → Oracle → Oracle × ℕ
  replay_epoch config epoch_id txns params o =
      let e =
        replay_txns config epoch_id params txns config.num_txns
          (record { oracle = o; counts = no_counts }) in
      (close_epoch params e, e.counts.mismatches)
