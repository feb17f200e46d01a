-- ===== src/Timeline/Search.antt =====
-- The binary search of EGAD/benchmarks/epoch_timeline.cuh ends at the first event that is not below
-- the probe.
use native.Mathlib.Decide.{ℕ_discrete}
use egad_code.Prelude.{ℕ, zero, suc, ◌+◌, ◌-◌, ◌/◌, ◌≤◌, ◌<◌, ltb, arith, Bool-cases, inl, inr}
use egad_code.Timeline.{lower_bound}

-- The events are in ascending order.
abbrev pub IsAscending : ℕ → (ℕ → ℕ) → Type 0
IsAscending n sorted = (i j : ℕ) → i < j → j < n → sorted i ≤ sorted j

abbrev pub IsLowerBound : ℕ → (ℕ → ℕ) → ℕ → ℕ → Type 0
IsLowerBound n sorted probe r =
    (r ≤ n) × ((j : ℕ) → j < r → sorted j < probe) × ((j : ℕ) → r ≤ j → j < n → probe ≤ sorted j)

ascending_le :
    (n : ℕ) (sorted : ℕ → ℕ) (i j : ℕ) → IsAscending n sorted → i ≤ j → j < n → sorted i ≤ sorted j
ascending_le n sorted i j up l h = elim (ℕ_discrete i j) [
  | yes e ↦ rw e (omega arith)
  | no ne ↦ up i j (omega arith) h
]

-- Each round halves the range between the events that are below the probe and those that are not.
pub lower_bound-IsLowerBound :
    (fuel n : ℕ) (sorted : ℕ → ℕ) (probe lo hi : ℕ)
    → IsAscending n sorted
    → lo ≤ hi
    → hi ≤ n
    → hi ≤ lo + fuel
    → ((j : ℕ) → j < lo → sorted j < probe)
    → ((j : ℕ) → hi ≤ j → j < n → probe ≤ sorted j)
    → IsLowerBound n sorted probe (lower_bound fuel sorted probe lo hi)
unfolding lower_bound
lower_bound-IsLowerBound zero n sorted probe lo hi up l h enough below above =
    (omega arith, below, λ j p q. above j (omega arith) q)
lower_bound-IsLowerBound (suc fuel) n sorted probe lo hi up l h enough below above =
    let mid = lo + (hi - lo) / 2 in
    elim (Bool-cases (ltb lo hi)) [
      | inr stop ↦ rw (lower_bound, stop) (omega arith, below, λ j p q. above j (ground arith) q)
      | inl go ↦
          let less : lo < hi = ground arith in
          elim (Bool-cases (ltb (sorted mid) probe)) [
            | inl b ↦
                rw (lower_bound, go, b)
                  (lower_bound-IsLowerBound fuel n sorted probe (mid + 1) hi up (omega arith) h
                    (omega arith)
                    (λ j p.
                      let le = ascending_le n sorted j mid up (omega arith) (omega arith) in
                      ground arith)
                    above)
            | inr b ↦
                rw (lower_bound, go, b)
                  (lower_bound-IsLowerBound fuel n sorted probe lo mid up (omega arith)
                    (omega arith) (omega arith) below
                    (λ j p q. let le = ascending_le n sorted mid j up p q in ground arith))
          ]
    ]
