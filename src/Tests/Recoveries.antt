-- ===== src/Tests/Recoveries.antt =====
-- The oracle and the shadow of the YCSB index, on two epochs of two transactions.
use egad_code.Prelude.{◌≡◌, refl, none, some, [], ◌∷◌, arith, ◌+◌, ◌==◌, if◌then◌else◌}
use egad_code.Shadow.{
  Shadow, load_initial_data, reconstruct_inserts_from_durable, apply_deletes_from_durable, view,
}
use egad_code.Shadow.Shards.{
  initial, replay_inserts, replay_deletes, view-load_initial_data, view-reconstruct_inserts,
  view-apply_deletes,
}
use egad_code.Oracle.{OpType, Config, Oracle}
use egad_code.Oracle.Mirror.{recover, crash}
use egad_code.Oracle.Recovery.{Input, begin, run, recover-eq-oracle}
use egad_code.Tests.MapInstances.{list_maps, list_sets}
use OpType.{insert, delete}

abbrev shadow : Shadow list_maps
shadow = record {
  starting = 3;
  shards = λ tid. [];
  free_start_prev1 = 0;
  free_start_prev2 = 0;
  durable_insert_keys = some (λ j. 40 + j);
  durable_delete_keys = some (λ j. 1 + j);
  durable_delete_crids = λ j. 1;
}

view-load_initial_data_example : view list_maps (load_initial_data list_maps shadow) 2 ≡ initial 3 2
view-load_initial_data_example = view-load_initial_data list_maps shadow 2 (omega arith) refl

abbrev loaded : Shadow list_maps
loaded = load_initial_data list_maps shadow

view-reconstruct_inserts_example :
    view list_maps (reconstruct_inserts_from_durable list_maps 2 shadow) 41
    ≡ replay_inserts 3 (λ j. 40 + j) 2 (view list_maps shadow 41) 41
view-reconstruct_inserts_example = view-reconstruct_inserts list_maps shadow (λ j. 40 + j) 2 41 refl

view-apply_deletes_example :
    view list_maps (apply_deletes_from_durable list_maps 2 shadow) 1
    ≡ replay_deletes (λ j. 1 + j) (λ j. 1) 2 (view list_maps shadow 1) 1
view-apply_deletes_example = view-apply_deletes list_maps shadow (λ j. 1 + j) 2 1 refl

abbrev config : Config
config = record { base = 3; num_txns = 2; num_ops = 2 }

abbrev oracle : Oracle list_maps list_sets
oracle = record {
  free_start = 0;
  live = [];
  dead = [];
  ended = [];
  absent_ops = 0;
  minted_total = 0;
  effective_deletes_total = 0;
  reinserts_total = 0;
  write_inserts = 0;
  mismatches_total = 0;
}

-- Transaction `t` deletes key `t` and inserts key `9`.
abbrev first_epoch : Input
first_epoch = record {
  epoch_id = 1;
  txns = λ t. record {
    keys = λ i. if i == 0 then t else 9;
    ops = λ i. if i == 0 then delete else insert;
  };
  params = none;
}

-- Transaction `t` inserts key `0` again and deletes key `9`.
abbrev second_epoch : Input
second_epoch = record {
  epoch_id = 2;
  txns = λ t. record {
    keys = λ i. if i == 0 then 0 else 9;
    ops = λ i. if i == 0 then insert else delete;
  };
  params = none;
}

recover-eq-oracle_example :
    let early =
      run list_maps list_sets config
        (first_epoch ∷ [])
        (begin list_maps list_sets config oracle shadow) in
    view list_maps
      (recover list_maps early.oracle.free_start early.log.deletes
        (crash list_maps (run list_maps list_sets config (second_epoch ∷ []) early).shadow))
      9
    ≡ list_maps.find early.oracle.live 9
recover-eq-oracle_example =
    recover-eq-oracle list_maps list_sets config oracle shadow (λ j. 40 + j) (λ j. 1 + j)
      (first_epoch ∷ []) (second_epoch ∷ []) 9 refl refl refl (omega arith) (omega arith)
