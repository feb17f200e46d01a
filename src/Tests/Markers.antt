-- ===== src/Tests/Markers.antt =====
-- The marker of EGAD/benchmarks/recovery_meta.h with one cursor in a bank.
use egad_code.Prelude.{ℕ, ◌≡◌, refl, none, some, [], ◌∷◌, arith, ◌+◌}
use egad_code.RecoveryMeta.{Meta, read, prepare_prefix, run_stores}
use egad_code.RecoveryMeta.Crash.{Bump, IsBump, run_bumps, snapshots, crash_anywhere}

abbrev fresh : Meta ℕ
fresh = record { bank0 = 0; bank1 = 0; publish = 0 }

-- A bump that stores a value and then adds one to it.
abbrev bump_to : ℕ → ℕ → Bump ℕ
bump_to epoch v = record {
  fill = λ old. (λ x. v) ∷ (λ x. x + 1) ∷ [];
  crash_epoch = epoch;
  complete = λ old. v + 1;
}

first_IsBump : IsBump (bump_to 1 10)
unfolding run_stores
first_IsBump = record { fits = omega arith; overwrites = λ old x. refl }

second_IsBump : IsBump (bump_to 2 20)
unfolding run_stores
second_IsBump = record { fits = omega arith; overwrites = λ old x. refl }

crash_anywhere_example :
    read (prepare_prefix (bump_to 3 30).fill 1 (run_bumps (bump_to 1 10 ∷ bump_to 2 20 ∷ []) fresh))
    ≡ snapshots (bump_to 1 10 ∷ bump_to 2 20 ∷ []) (read fresh)
crash_anywhere_example =
    crash_anywhere fresh (bump_to 1 10 ∷ bump_to 2 20 ∷ []) (bump_to 3 30) 1
      (first_IsBump, (second_IsBump, tt))

-- What a reader sees then is the second bump.
snapshots_test : snapshots (bump_to 1 10 ∷ bump_to 2 20 ∷ []) none ≡ some (2, 21)
unfolding snapshots
snapshots_test = refl
