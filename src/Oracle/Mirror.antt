-- ===== src/Oracle/Mirror.antt =====
-- The durable logs of EGAD/benchmarks/ycsb_cpu_shadow_index.cpp, appended to epoch by epoch and read by
-- a recovery.
use egad_code.Prelude.{
  ℕ, ◌+◌, ◌-◌, ◌^◌, ◌≤◌, ◌<◌, ◌≡◌, refl, sym, some, ◌==◌, ltb, leb, arith, Bool-cases, inl, inr,
  ◌∙◌, ◌&&◌, ap,
}
use egad_code.Prelude.Maps.{MapApi}
use egad_code.Shadow.{
  Shadow, shard_count, copy_words, load_initial_data, mirror_epoch, mirror_epoch_deletes,
  reconstruct_inserts_from_durable, apply_deletes_from_durable, view,
}
use egad_code.Shadow.Shards.{
  initial, replay_inserts, view-load_initial_data, view-reconstruct_inserts, view-apply_deletes,
}
use egad_code.Shadow.Logs.{replay_inserts-congr, replay_deletes-congr}
use egad_code.Oracle.Log.{Log, log_find, IsExtended}

copy_words-below :
    (dst : ℕ → ℕ) (offset : ℕ) (log : ℕ → ℕ) (n j : ℕ)
    → j < offset + n
    → (j < offset → dst j ≡ log j)
    → copy_words dst offset (λ i. log (offset + i)) n j ≡ log j
unfolding copy_words
copy_words-below dst offset log n j l h =
    let shifted : (i : ℕ) → offset ≤ i → offset + (i - offset) ≡ i = λ i le. omega arith in
    elim (Bool-cases (leb offset j && ltb j (offset + n))) [
      | inl b ↦ rw b (ap log (shifted j (ground arith)))
      | inr b ↦ rw b (h (ground arith))
    ]

module _ (maps : MapApi) where
  -- What an epoch appended to the logs, mirrored.
  abbrev pub mirror : Log → Log → Shadow maps → Shadow maps
  mirror log log' s =
      mirror_epoch_deletes maps (λ i. log'.delete_keys (log.deletes + i))
        (λ i. log'.delete_crids (log.deletes + i)) (log'.deletes - log.deletes) log.deletes
        (mirror_epoch maps (λ i. log'.insert_keys (log.inserts + i)) (log'.inserts - log.inserts)
          log.inserts s)

  -- After a crash: empty shards, the durable arrays as they were.
  abbrev pub crash : Shadow maps → Shadow maps
  crash s = record s { shards = λ tid. maps.empty }

  -- The rebuild of the shadow by EGAD/benchmarks/ycsb.cpp: the population, then the logs up to their
  -- cursors.
  abbrev pub recover : ℕ → ℕ → Shadow maps → Shadow maps
  recover inserts deletes s =
      apply_deletes_from_durable maps deletes
        (reconstruct_inserts_from_durable maps inserts (load_initial_data maps s))

  -- The durable arrays hold the log.
  abbrev pub IsDurable : Log → Shadow maps → Type 0
  IsDurable log s =
      (keys : ℕ → ℕ) × (del_keys : ℕ → ℕ) × (s.durable_insert_keys ≡ some keys)
      × (s.durable_delete_keys ≡ some del_keys)
      × ((j : ℕ) → j < log.inserts → keys j ≡ log.insert_keys j)
      × ((j : ℕ)
          → j < log.deletes
          → (del_keys j ≡ log.delete_keys j) × (s.durable_delete_crids j ≡ log.delete_crids j))

  mirror_epoch-durable :
      (log : ℕ → ℕ) (n old : ℕ) (s : Shadow maps) (keys : ℕ → ℕ)
      → s.durable_insert_keys ≡ some keys
      → let s' = mirror_epoch maps (λ i. log (old + i)) n old s in
        (keys' : ℕ → ℕ) × (s'.durable_insert_keys ≡ some keys')
        × ((j : ℕ) → j < old + n → (j < old → keys j ≡ log j) → keys' j ≡ log j)
        × (s'.durable_delete_keys ≡ s.durable_delete_keys)
        × (s'.durable_delete_crids ≡ s.durable_delete_crids)
  unfolding mirror_epoch
  mirror_epoch-durable log n old s keys e = elim (Bool-cases (n == 0)) [
    | inl b ↦ rw (b, mirror_epoch) (keys, e, λ j l h. h (ground arith), refl, refl)
    | inr b ↦
        rw (b, mirror_epoch, e)
          (
            copy_words keys old (λ i. log (old + i)) n,
            refl,
            λ j l h. copy_words-below keys old log n j l h,
            refl,
            refl,
          )
  ]

  mirror_epoch_deletes-durable :
      (log log_crids : ℕ → ℕ) (n old : ℕ) (s : Shadow maps) (keys : ℕ → ℕ)
      → s.durable_delete_keys ≡ some keys
      → let s' =
          mirror_epoch_deletes maps (λ i. log (old + i)) (λ i. log_crids (old + i)) n old s in
        (keys' : ℕ → ℕ) × (s'.durable_delete_keys ≡ some keys')
        × ((j : ℕ) → j < old + n → (j < old → keys j ≡ log j) → keys' j ≡ log j)
        × ((j : ℕ)
            → j < old + n
            → (j < old → s.durable_delete_crids j ≡ log_crids j)
            → s'.durable_delete_crids j ≡ log_crids j)
        × (s'.durable_insert_keys ≡ s.durable_insert_keys)
  unfolding mirror_epoch_deletes
  mirror_epoch_deletes-durable log log_crids n old s keys e = elim (Bool-cases (n == 0)) [
    | inl b ↦
        rw (b, mirror_epoch_deletes)
          (keys, e, λ j l h. h (ground arith), λ j l h. h (ground arith), refl)
    | inr b ↦
        rw (b, mirror_epoch_deletes, e)
          (
            copy_words keys old (λ i. log (old + i)) n,
            refl,
            λ j l h. copy_words-below keys old log n j l h,
            λ j l h. copy_words-below s.durable_delete_crids old log_crids n j l h,
            refl,
          )
  ]

  -- Mirroring what an epoch appended keeps the durable arrays up to date.
  pub mirror-IsDurable :
      (log log' : Log) (s : Shadow maps)
      → IsExtended log log'
      → IsDurable log s
      → IsDurable log' (mirror log log' s)
  mirror-IsDurable log log' s (ins, dels, old_keys, old_dels) (keys, del_keys, e, e', same, same') =
      let s1 =
        mirror_epoch maps (λ i. log'.insert_keys (log.inserts + i)) (log'.inserts - log.inserts)
          log.inserts s in
      let (keys', is, copied, keeps, keeps_crids) =
        mirror_epoch-durable log'.insert_keys (log'.inserts - log.inserts) log.inserts s keys e in
      let (del_keys', is', copied_keys, copied_crids, kept) =
        mirror_epoch_deletes-durable log'.delete_keys log'.delete_crids (log'.deletes - log.deletes)
          log.deletes s1 del_keys (keeps ∙ e') in
      (
        keys',
        del_keys',
        kept ∙ is,
        is',
        λ j l. copied j (omega arith) (λ b. same j b ∙ sym (old_keys j b)),
        λ j l. (
          copied_keys j (omega arith) (λ b. (same' j b).0 ∙ sym ((old_dels j b).0)),
          copied_crids j (omega arith)
              (λ b. ap (λ f. f j) keeps_crids ∙ (same' j b).1 ∙ sym ((old_dels j b).1)),
        ),
      )

  pub IsDurable-mono :
      (log log' : Log) (s : Shadow maps) → IsExtended log log' → IsDurable log' s → IsDurable log s
  IsDurable-mono log log' s (i, d, f, g) (keys, del_keys, e, e', same, same') = (
    keys,
    del_keys,
    e,
    e',
    λ j l. same j (omega arith) ∙ f j l,
    λ j l. ((same' j (omega arith)).0 ∙ (g j l).0, (same' j (omega arith)).1 ∙ (g j l).1),
  )

  reconstruct-durable :
      (count : ℕ) (s : Shadow maps) (keys : ℕ → ℕ)
      → s.durable_insert_keys ≡ some keys
      → let s' = reconstruct_inserts_from_durable maps count s in
        (s'.durable_delete_keys ≡ s.durable_delete_keys)
        × (s'.durable_delete_crids ≡ s.durable_delete_crids)
  unfolding reconstruct_inserts_from_durable
  reconstruct-durable count s keys e = elim (Bool-cases (count == 0)) [
    | inl b ↦ rw (reconstruct_inserts_from_durable, e, b) (refl, refl)
    | inr b ↦ rw (reconstruct_inserts_from_durable, e, b) (refl, refl)
  ]

  pub mirror-starting :
      (log log' : Log) (s : Shadow maps) → (mirror log log' s).starting ≡ s.starting
  unfolding mirror_epoch mirror_epoch_deletes
  mirror-starting log log' s = ground arith

  -- What a recovery makes of durable arrays that hold a log: the map that the log gives.
  pub recover-view :
      (base : ℕ) (log : Log) (s : Shadow maps) (key : ℕ)
      → s.starting ≡ base
      → base + shard_count ≤ 2 ^ 32
      → IsDurable log s
      → view maps (recover log.inserts log.deletes (crash s)) key ≡ log_find base log key
  unfolding load_initial_data
  recover-view base log s key start fits (keys, del_keys, e, e', same, same') =
      let loaded = load_initial_data maps (crash s) in
      let inserted = reconstruct_inserts_from_durable maps log.inserts loaded in
      let (kept, kept') = reconstruct-durable log.inserts loaded keys e in
      view-apply_deletes maps inserted del_keys log.deletes key (kept ∙ e')
      ∙ rw
          (
            kept',
            view-reconstruct_inserts maps loaded keys log.inserts key e,
            view-load_initial_data maps (crash s) key (rw start fits) refl,
            start,
            replay_inserts-congr base keys log.insert_keys log.inserts (initial base key) key same,
          )
          (replay_deletes-congr del_keys log.delete_keys s.durable_delete_crids log.delete_crids
            log.deletes (replay_inserts base log.insert_keys log.inserts (initial base key) key) key
            same')
