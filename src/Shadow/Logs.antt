-- ===== src/Shadow/Logs.antt =====
-- The durable logs of EGAD/benchmarks/ycsb_cpu_shadow_index.cpp: what a replay depends on.
use egad_code.Prelude.{ℕ, zero, suc, ◌+◌, ◌^◌, ◌≤◌, ◌<◌, ◌≡◌, ◌≢◌, refl, Option, some, arith}
use egad_code.Shadow.Shards.{initial, replay_inserts, replay_deletes}

-- A replay reads the entries below its count alone.
pub replay_inserts-congr :
    (starting : ℕ) (keys keys' : ℕ → ℕ) (count : ℕ) (before : Option ℕ) (key : ℕ)
    → ((j : ℕ) → j < count → keys j ≡ keys' j)
    → replay_inserts starting keys count before key ≡ replay_inserts starting keys' count before key
unfolding replay_inserts
replay_inserts-congr starting keys keys' zero before key h = refl
replay_inserts-congr starting keys keys' (suc n) before key h = ground (
  arith,
  h n (omega arith),
  replay_inserts-congr starting keys keys' n before key (λ j l. h j (omega arith)),
)

pub replay_deletes-congr :
    (keys keys' crids crids' : ℕ → ℕ) (count : ℕ) (before : Option ℕ) (key : ℕ)
    → ((j : ℕ) → j < count → (keys j ≡ keys' j) × (crids j ≡ crids' j))
    → replay_deletes keys crids count before key ≡ replay_deletes keys' crids' count before key
unfolding replay_deletes
replay_deletes-congr keys keys' crids crids' zero before key h = refl
replay_deletes-congr keys keys' crids crids' (suc n) before key h = ground (
  arith,
  h n (omega arith),
  replay_deletes-congr keys keys' crids crids' n before key (λ j l. h j (omega arith)),
)

-- A replay of deletes leaves a record that none of them ended.
pub replay_deletes-some :
    (keys crids : ℕ → ℕ) (count crid key : ℕ)
    → ((j : ℕ) → j < count → crids j ≢ crid)
    → replay_deletes keys crids count (some crid) key ≡ some crid
unfolding replay_deletes
replay_deletes-some keys crids zero crid key h = refl
replay_deletes-some keys crids (suc n) crid key h =
    ground (
      arith,
      h n (omega arith),
      replay_deletes-some keys crids n crid key (λ j l. h j (omega arith)),
    )

-- A record that a replay of inserts gives is below the end of the log.
replay_inserts-lt :
    (starting : ℕ) (keys : ℕ → ℕ) (count key crid : ℕ)
    → starting + count ≤ 2 ^ 32
    → replay_inserts starting keys count (initial starting key) key ≡ some crid
    → crid < starting + count
unfolding replay_inserts
replay_inserts-lt starting keys zero key crid h e = ground arith
replay_inserts-lt starting keys (suc n) key crid h e =
    ground (arith, replay_inserts-lt starting keys n key crid)

-- A replay of deletes gives what it started with or nothing.
replay_deletes-eq-some :
    (keys crids : ℕ → ℕ) (count : ℕ) (before : Option ℕ) (key crid : ℕ)
    → replay_deletes keys crids count before key ≡ some crid
    → before ≡ some crid
unfolding replay_deletes
replay_deletes-eq-some keys crids zero before key crid e = e
replay_deletes-eq-some keys crids (suc n) before key crid e =
    ground (arith, replay_deletes-eq-some keys crids n before key crid)

-- What the logs give for a key, `inserts` and `deletes` being their cursors.
abbrev pub replay : ℕ → (ℕ → ℕ) → ℕ → (ℕ → ℕ) → (ℕ → ℕ) → ℕ → ℕ → Option ℕ
replay starting keys inserts del_keys del_crids deletes key =
    replay_deletes del_keys del_crids deletes
      (replay_inserts starting keys inserts (initial starting key) key) key

pub replay-lt :
    (starting : ℕ) (keys : ℕ → ℕ) (inserts : ℕ) (del_keys del_crids : ℕ → ℕ) (deletes key crid : ℕ)
    → starting + inserts ≤ 2 ^ 32
    → replay starting keys inserts del_keys del_crids deletes key ≡ some crid
    → crid < starting + inserts
replay-lt starting keys inserts del_keys del_crids deletes key crid h e =
    replay_inserts-lt starting keys inserts key crid h
      (replay_deletes-eq-some del_keys del_crids deletes _ key crid e)
