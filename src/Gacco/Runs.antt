-- ===== src/Gacco/Runs.antt =====
-- The runs of equal keys in a sorted array, the result of the run-length encoding in
-- EGAD/gacco/gpu_execution_planner.cu.
use egad_code.Prelude.{
  ℕ, zero, suc, ◌+◌, ◌-◌, ◌^◌, ◌≤◌, ◌<◌, ◌≡◌, ◌≢◌, refl, ap, ◌∙◌, ◌==◌, if◌then◌else◌, arith,
}
use native.Mathlib.Decide.{dec_lt, ℕ_discrete}
use egad_code.Planner.{Array, Cub}
use egad_code.Gacco.{Encoded}

-- Where a run starts: the sum of the lengths before it.
unfoldable pub start : Array ℕ → ℕ → ℕ
start lengths zero = 0
start lengths (suc j) = start lengths j + lengths j

-- How many of the first `p` keys are `x`.
unfoldable pub earlier : Array ℕ → ℕ → ℕ → ℕ
earlier keys zero x = 0
earlier keys (suc p) x = let rest = earlier keys p x in if keys p == x then suc rest else rest

-- What the documentation of `DeviceRunLengthEncode::Encode` says of its result for `n` keys.
pub record IsRunLength (n : ℕ) (keys : Array ℕ) (e : Encoded) : Type 0 where
  pub total : start e.unique_access e.num_unique_rows ≡ n
  pub run_key :
      (j k : ℕ)
      → j < e.num_unique_rows
      → k < e.unique_access j
      → keys (start e.unique_access j + k) ≡ e.unique_rows j
  pub run_positive : (j : ℕ) → j < e.num_unique_rows → 0 < e.unique_access j
  pub run_ends : (j : ℕ) → suc j < e.num_unique_rows → e.unique_rows j ≢ e.unique_rows (suc j)

-- The run that a place of the array is in.
pub record Run (e : Encoded) (m p : ℕ) : Type 0 where
  pub number : ℕ
  pub place : ℕ
  pub number_lt : number < m
  pub place_lt : place < e.unique_access number
  pub place_eq : p ≡ start e.unique_access number + place

pub find-Run : (e : Encoded) (m p : ℕ) → p < start e.unique_access m → Run e m p
unfolding start
find-Run e zero p l = absurd (omega arith)
find-Run e (suc m) p l = elim (dec_lt p (start e.unique_access m)) [
  | yes inside ↦
      let r = find-Run e m p inside in
      record {
        number = r.number;
        place = r.place;
        number_lt = omega (arith, r.number_lt);
        place_lt = r.place_lt;
        place_eq = r.place_eq;
      }
  | no last ↦ record {
    number = m;
    place = p - start e.unique_access m;
    number_lt = omega arith;
    place_lt = omega arith;
    place_eq = omega arith;
  }
]

module _ {n : ℕ} {keys : Array ℕ} {e : Encoded} (r : IsRunLength n keys e)
    (sorted : (i j : ℕ) → i ≤ j → j < n → keys i ≤ keys j) where
  start_mono : (d j m : ℕ) → m ≡ j + d → start e.unique_access j ≤ start e.unique_access m
  unfolding start
  start_mono zero j m q =
      let same : j ≡ m = omega arith in omega (arith, ap (start e.unique_access) same)
  start_mono (suc d) j m q =
      let same : suc (j + d) ≡ m = omega arith in
      let last : start e.unique_access (suc (j + d)) ≡ start e.unique_access m =
        ap (start e.unique_access) same in
      omega (arith, start_mono d j (j + d) refl, last)

  start_le : (j : ℕ) → j ≤ e.num_unique_rows → start e.unique_access j ≤ n
  start_le j l =
      omega (arith, start_mono (e.num_unique_rows - j) j e.num_unique_rows (omega arith), r.total)

  -- No run is empty.
  runs_le_start : (j : ℕ) → j ≤ e.num_unique_rows → j ≤ start e.unique_access j
  unfolding start
  runs_le_start zero l = omega arith
  runs_le_start (suc j) l = omega (arith, runs_le_start j (omega arith), r.run_positive j l)

  pub runs_le : e.num_unique_rows ≤ n
  runs_le = omega (arith, runs_le_start e.num_unique_rows (omega arith), r.total)

  -- The end of a run, and a key of it.
  run_end : (j : ℕ) → j < e.num_unique_rows → start e.unique_access j + e.unique_access j ≤ n
  unfolding start
  run_end j l = start_le (suc j) (omega arith)

  pub run_key_at :
      (j k p : ℕ)
      → j < e.num_unique_rows
      → k < e.unique_access j
      → p ≡ start e.unique_access j + k
      → keys p ≡ e.unique_rows j
  run_key_at j k p l h q = ap keys q ∙ r.run_key j k l h

  pub run_start : (j : ℕ) → j < e.num_unique_rows → keys (start e.unique_access j) ≡ e.unique_rows j
  run_start j l = run_key_at j 0 (start e.unique_access j) l (r.run_positive j l) (omega arith)

  pub start_lt : (j : ℕ) → j < e.num_unique_rows → start e.unique_access j < n
  start_lt j l = omega (arith, run_end j l, r.run_positive j l)

  -- The keys of the runs ascend.
  ascend_next : (j : ℕ) → suc j < e.num_unique_rows → e.unique_rows j < e.unique_rows (suc j)
  ascend_next j l = omega (
    arith,
    sorted (start e.unique_access j) (start e.unique_access (suc j))
        (start_mono 1 j (suc j) (omega arith)) (start_lt (suc j) l),
    run_start j (omega arith),
    run_start (suc j) l,
    r.run_ends j l,
  )

  pub ascend : (i j : ℕ) → i < j → j < e.num_unique_rows → e.unique_rows i < e.unique_rows j
  ascend i (suc j) l h = elim (ℕ_discrete i j) [
    | yes same ↦ omega (arith, ap e.unique_rows same, ascend_next j h)
    | no other ↦ omega (arith, ascend i j (omega arith) (omega arith), ascend_next j h)
  ]
  ascend i zero l h = absurd (omega arith)

  -- The keys before a run are smaller.
  below : (j p : ℕ) → j < e.num_unique_rows → p < start e.unique_access j → keys p < e.unique_rows j
  below j p l h =
      let f = find-Run e j p h in
      omega (
        arith,
        run_key_at f.number f.place p (omega (arith, f.number_lt)) f.place_lt f.place_eq,
        ascend f.number j f.number_lt l,
      )

  none_before :
      (j p : ℕ)
      → j < e.num_unique_rows
      → p ≤ start e.unique_access j
      → earlier keys p (e.unique_rows j) ≡ 0
  unfolding earlier
  none_before j zero l h = refl
  none_before j (suc p) l h =
      ground (arith, below j p l (omega arith), none_before j p l (omega arith))

  -- The place of a key in its run is how many of the keys before it are equal to it.
  pub earlier-run :
      (j k p : ℕ)
      → j < e.num_unique_rows
      → k ≤ e.unique_access j
      → p ≡ start e.unique_access j + k
      → earlier keys p (e.unique_rows j) ≡ k
  unfolding earlier
  earlier-run j zero p l h q = none_before j p l (omega arith)
  earlier-run j (suc k) zero l h q = absurd (omega arith)
  earlier-run j (suc k) (suc p) l h q = ground (
    arith,
    run_key_at j k p l (omega arith) (omega arith),
    earlier-run j k p l (omega arith) (omega arith),
  )

  pub sum-start :
      (cub : Cub) (j : ℕ)
      → n < 2 ^ 32
      → j < e.num_unique_rows
      → cub.exclusive_sum e.num_unique_rows e.unique_access j ≡ start e.unique_access j
  unfolding start
  sum-start cub zero small l = cub.sum_zero e.num_unique_rows e.unique_access l
  sum-start cub (suc j) small l =
      cub.sum_suc e.num_unique_rows e.unique_access j l
      ∙ omega (arith, sum-start cub j small (omega arith), run_end j (omega arith))
