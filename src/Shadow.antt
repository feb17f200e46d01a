-- ===== src/Shadow.antt =====
-- EGAD/benchmarks/ycsb_cpu_shadow_index.{h,cpp}: the host's copy of the map from keys to records,
-- in 12 shards by `key % kShards`, and its durable logs.
--
-- A parallel region runs one thread for each shard, and thread `tid` changes shard `tid` alone
-- (`on_threads`). A durable array is a function of the index, `none` where it is not allocated; the
-- two arrays of the delete log are allocated together. The logger and the smoke check of
-- `loadInitialData` are left out.
pub mod Shards
pub mod Logs
use egad_code.Prelude.{
  ℕ, zero, suc, ◌+◌, ◌-◌, ◌%◌, ◌^◌, Bool, Option, none, some, List, [], ◌∷◌, ◌&&◌, ◌==◌, ltb, leb,
  if◌then◌else◌,
}
use egad_code.Prelude.Words.{add32}
use egad_code.Prelude.Maps.{MapApi}

-- `kShards`
abbrev pub shard_count : ℕ
shard_count = 12

-- `shardForKey`
abbrev pub shard_for_key : ℕ → ℕ
shard_for_key key = key % shard_count

-- `memcpy(dst + offset, src, n * sizeof(uint32_t))`
unfoldable pub copy_words : (ℕ → ℕ) → ℕ → (ℕ → ℕ) → ℕ → ℕ → ℕ
copy_words dst offset src n i =
    if leb offset i && ltb i (offset + n) then src (i - offset) else dst i

module _ (maps : MapApi) where
  open maps use {Map, find, emplace, assign, erase, entries}

  pub record Shadow : Type 0 where
    pub starting : ℕ
    pub shards : ℕ → Map
    pub free_start_prev1 : ℕ
    pub free_start_prev2 : ℕ
    pub durable_insert_keys : Option (ℕ → ℕ)
    pub durable_delete_keys : Option (ℕ → ℕ)
    pub durable_delete_crids : ℕ → ℕ

  -- Thread `tid` of a parallel region, for the 12 shards.
  abbrev pub on_threads : (ℕ → Map → Map) → Shadow → Shadow
  on_threads body s = record s {
    shards = λ tid. if ltb tid shard_count then body tid (s.shards tid) else s.shards tid;
  }

  -- The loop of one thread of `loadInitialData`, from key `k` on.
  unfoldable pub fill_shard : ℕ → ℕ → ℕ → Map → Map
  fill_shard starting zero k m = m
  fill_shard starting (suc fuel) k m =
      let rest = fill_shard starting fuel (add32 k shard_count) (emplace m k k) in
      if ltb k starting then rest else m

  -- `loadInitialData`; a thread runs at most `starting` rounds.
  unfoldable pub load_initial_data : Shadow → Shadow
  load_initial_data s = on_threads (λ tid m. fill_shard s.starting s.starting tid m) s

  -- `mirrorEpoch`, with the host buffer `h_insert_keys_` as an argument.
  unfoldable pub mirror_epoch : (ℕ → ℕ) → ℕ → ℕ → Shadow → Shadow
  mirror_epoch h_insert_keys num_inserts old_free_start s =
      if num_inserts == 0 then s else elim s.durable_insert_keys [
        | none ↦ s
        | some keys ↦ record s {
          durable_insert_keys = some (copy_words keys old_free_start h_insert_keys num_inserts);
        }
      ]

  -- `mirrorEpochDeletes`, with the host buffers as arguments.
  unfoldable pub mirror_epoch_deletes : (ℕ → ℕ) → (ℕ → ℕ) → ℕ → ℕ → Shadow → Shadow
  mirror_epoch_deletes h_delete_keys h_delete_crids num_deletes old_delete_count s =
      if num_deletes == 0 then s else elim s.durable_delete_keys [
        | none ↦ s
        | some keys ↦ record s {
          durable_delete_keys = some (copy_words keys old_delete_count h_delete_keys num_deletes);
          durable_delete_crids =
              copy_words s.durable_delete_crids old_delete_count h_delete_crids num_deletes;
        }
      ]

  -- The first `count` rounds of one thread of `reconstructInsertsFromDurable`.
  unfoldable pub insert_rounds : ℕ → (ℕ → ℕ) → ℕ → ℕ → Map → Map
  insert_rounds starting keys tid zero m = m
  insert_rounds starting keys tid (suc j) m =
      let m' = insert_rounds starting keys tid j m in
      if shard_for_key (keys j) == tid then assign m' (keys j) (add32 starting j) else m'

  -- `reconstructInsertsFromDurable`
  unfoldable pub reconstruct_inserts_from_durable : ℕ → Shadow → Shadow
  reconstruct_inserts_from_durable count s = elim s.durable_insert_keys [
    | none ↦ s
    | some keys ↦
        if count == 0 then s else on_threads (λ tid m. insert_rounds s.starting keys tid count m) s
  ]

  -- Erase the key while it still maps to the record that the delete ended.
  unfoldable pub erase_if_ended : Map → ℕ → ℕ → Map
  erase_if_ended m key crid = elim (find m key) [
    | none ↦ m
    | some c ↦ if c == crid then erase m key else m
  ]

  -- The first `count` rounds of one thread of `applyDeletesFromDurable`.
  unfoldable pub delete_rounds : (ℕ → ℕ) → (ℕ → ℕ) → ℕ → ℕ → Map → Map
  delete_rounds keys crids tid zero m = m
  delete_rounds keys crids tid (suc j) m =
      let m' = delete_rounds keys crids tid j m in
      if shard_for_key (keys j) == tid then erase_if_ended m' (keys j) (crids j) else m'

  -- `applyDeletesFromDurable`
  unfoldable pub apply_deletes_from_durable : ℕ → Shadow → Shadow
  apply_deletes_from_durable count s = elim s.durable_delete_keys [
    | none ↦ s
    | some keys ↦
        if count == 0
        then s
        else on_threads (λ tid m. delete_rounds keys s.durable_delete_crids tid count m) s
  ]

  -- `shiftSnapshotsAtEpochStart`
  unfoldable pub shift_snapshots_at_epoch_start : ℕ → Shadow → Shadow
  shift_snapshots_at_epoch_start free_start s = record s {
    free_start_prev2 = s.free_start_prev1;
    free_start_prev1 = free_start;
  }

  -- The loop of `eraseStragglers` over the entries of one shard.
  unfoldable pub erase_entries : ℕ → List (ℕ × ℕ) → Map → Map
  erase_entries max_crid [] m = m
  erase_entries max_crid ((k, v) ∷ es) m =
      erase_entries max_crid es (if leb max_crid v then erase m k else m)

  -- `eraseStragglers`
  unfoldable pub erase_stragglers : ℕ → Shadow → Shadow
  erase_stragglers max_crid s = on_threads (λ tid m. erase_entries max_crid (entries m) m) s

  -- `syncSnapshotsToRollback`
  unfoldable pub sync_snapshots_to_rollback : ℕ → Shadow → Shadow
  sync_snapshots_to_rollback target s = record s {
    free_start_prev1 = target;
    free_start_prev2 = target;
  }

  -- The shards as one map: each key in its shard.
  abbrev pub view : Shadow → ℕ → Option ℕ
  view s key = find (s.shards (shard_for_key key)) key
