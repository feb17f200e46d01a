-- ===== src/Shadow/Shards.antt =====
-- The sharded loops of EGAD/benchmarks/ycsb_cpu_shadow_index.cpp do to the shadow as one map what a
-- plain loop does to one map.
use egad_code.Prelude.{
  ℕ, zero, suc, ◌+◌, ◌*◌, ◌%◌, ◌^◌, ◌≤◌, ◌≡◌, refl, Bool, false, Option, none, some, ◌&&◌, ◌==◌,
  ltb, leb, if◌then◌else◌, arith, Bool-cases, inl, inr, ◌∙◌,
}
use egad_code.Prelude.Words.{add32}
use egad_code.Prelude.Maps.{MapApi}
use egad_code.Shadow.{
  Shadow, shard_count, shard_for_key, on_threads, fill_shard, load_initial_data, insert_rounds,
  reconstruct_inserts_from_durable, erase_if_ended, delete_rounds, apply_deletes_from_durable, view,
}

-- The initial population: the record of key `k` is `k`.
abbrev pub initial : ℕ → ℕ → Option ℕ
initial starting key = if ltb key starting then some key else none

-- What a key maps to after the first `count` entries of the insert log in order, a later entry replacing an earlier one.
unfoldable pub replay_inserts : ℕ → (ℕ → ℕ) → ℕ → Option ℕ → ℕ → Option ℕ
replay_inserts starting keys zero before key = before
replay_inserts starting keys (suc j) before key =
    if keys j == key then some (add32 starting j) else replay_inserts starting keys j before key

abbrev pub maps_to : Option ℕ → ℕ → Bool
maps_to none crid = false
maps_to (some c) crid = c == crid

-- What a key maps to after the first `count` entries of the delete log in order, each erasing its key only while the key maps
-- to the record that it ended.
unfoldable pub replay_deletes : (ℕ → ℕ) → (ℕ → ℕ) → ℕ → Option ℕ → ℕ → Option ℕ
replay_deletes keys crids zero before key = before
replay_deletes keys crids (suc j) before key =
    let now = replay_deletes keys crids j before key in
    if keys j == key && maps_to now (crids j) then none else now

replay_inserts_none :
    (starting : ℕ) (keys : ℕ → ℕ) (count : ℕ) (before : Option ℕ) (key : ℕ)
    → count ≡ 0
    → replay_inserts starting keys count before key ≡ before
unfolding replay_inserts
replay_inserts_none starting keys zero before key e = refl
replay_inserts_none starting keys (suc n) before key e = absurd (omega arith)

replay_deletes_none :
    (keys crids : ℕ → ℕ) (count : ℕ) (before : Option ℕ) (key : ℕ)
    → count ≡ 0
    → replay_deletes keys crids count before key ≡ before
unfolding replay_deletes
replay_deletes_none keys crids zero before key e = refl
replay_deletes_none keys crids (suc n) before key e = absurd (omega arith)

abbrev or_else : Option ℕ → ℕ → Option ℕ
or_else none v = some v
or_else (some w) v = some w

module _ (maps : MapApi) where
  open maps use {Map, empty, find, emplace}

  fill_shard-find :
      (starting fuel k : ℕ) (m : Map) (key : ℕ)
      → starting + shard_count ≤ 2 ^ 32
      → starting ≤ k + shard_count * fuel
      → find (fill_shard maps starting fuel k m) key ≡ (
          if leb k key && ltb key starting && (key % shard_count == k % shard_count)
          then or_else (find m key) key
          else find m key)
  unfolding fill_shard
  fill_shard-find starting zero k m key fits enough = ground arith
  fill_shard-find starting (suc fuel) k m key fits enough = elim (Bool-cases (ltb k starting)) [
    | inr stop ↦ rw stop (ground arith)
    | inl go ↦
        let next : add32 k shard_count ≡ k + shard_count = ground arith in
        rw
          (
            go,
            next,
            fill_shard-find starting fuel (k + shard_count) (emplace m k k) key fits (omega arith),
            maps.find-emplace m k k key,
          )
          (ground arith)
  ]

  insert_rounds-find :
      (starting : ℕ) (keys : ℕ → ℕ) (count : ℕ) (m : Map) (key : ℕ)
      → find (insert_rounds maps starting keys (shard_for_key key) count m) key
        ≡ replay_inserts starting keys count (find m key) key
  unfolding insert_rounds replay_inserts
  insert_rounds-find starting keys zero m key = refl
  insert_rounds-find starting keys (suc j) m key = ground (
    arith,
    insert_rounds-find starting keys j m key,
    maps.find-assign (insert_rounds maps starting keys (shard_for_key key) j m) (keys j)
        (add32 starting j) key,
  )

  delete_rounds-find :
      (keys crids : ℕ → ℕ) (count : ℕ) (m : Map) (key : ℕ)
      → find (delete_rounds maps keys crids (shard_for_key key) count m) key
        ≡ replay_deletes keys crids count (find m key) key
  unfolding delete_rounds replay_deletes erase_if_ended
  delete_rounds-find keys crids zero m key = refl
  delete_rounds-find keys crids (suc j) m key =
      let m' = delete_rounds maps keys crids (shard_for_key key) j m in
      ground (arith, delete_rounds-find keys crids j m key, maps.find-erase m' (keys j) key)

  view-on_threads :
      (body : ℕ → Map → Map) (s : Shadow maps) (key : ℕ)
      → view maps (on_threads maps body s) key
        ≡ find (body (shard_for_key key) (s.shards (shard_for_key key))) key
  view-on_threads body s key = ground arith

  -- Where the keys of the population leave room for a step of 12 in 32 bits: from empty shards
  -- `loadInitialData` leaves the initial population. Each of its threads ends within its rounds
  -- and enters all keys of its shard.
  pub view-load_initial_data :
      (s : Shadow maps) (key : ℕ)
      → s.starting + shard_count ≤ 2 ^ 32
      → s.shards (shard_for_key key) ≡ empty
      → view maps (load_initial_data maps s) key ≡ initial s.starting key
  unfolding load_initial_data
  view-load_initial_data s key fits fresh =
      view-on_threads (λ tid m. fill_shard maps s.starting s.starting tid m) s key
      ∙ rw fresh (
          ground (
            arith,
            fill_shard-find s.starting s.starting (shard_for_key key) empty key fits,
            maps.find-empty key,
          ))

  -- With an allocated insert log: rebuilding the shards from its first `count` entries is
  -- replaying them in order into one map, a later entry for a key replacing an earlier one.
  pub view-reconstruct_inserts :
      (s : Shadow maps) (keys : ℕ → ℕ) (count key : ℕ)
      → s.durable_insert_keys ≡ some keys
      → view maps (reconstruct_inserts_from_durable maps count s) key
        ≡ replay_inserts s.starting keys count (view maps s key) key
  unfolding reconstruct_inserts_from_durable
  view-reconstruct_inserts s keys count key e = ground (
    arith,
    view-on_threads (λ tid m. insert_rounds maps s.starting keys tid count m) s key,
    insert_rounds-find s.starting keys count (s.shards (shard_for_key key)) key,
    replay_inserts_none s.starting keys count (view maps s key) key,
  )

  -- With an allocated delete log: applying its first `count` entries to the shards is replaying
  -- them in order into one map, each erasing its key only while the key maps to the record that
  -- it ended.
  pub view-apply_deletes :
      (s : Shadow maps) (keys : ℕ → ℕ) (count key : ℕ)
      → s.durable_delete_keys ≡ some keys
      → view maps (apply_deletes_from_durable maps count s) key
        ≡ replay_deletes keys s.durable_delete_crids count (view maps s key) key
  unfolding apply_deletes_from_durable
  view-apply_deletes s keys count key e = ground (
    arith,
    view-on_threads (λ tid m. delete_rounds maps keys s.durable_delete_crids tid count m) s key,
    delete_rounds-find keys s.durable_delete_crids count (s.shards (shard_for_key key)) key,
    replay_deletes_none keys s.durable_delete_crids count (view maps s key) key,
  )
