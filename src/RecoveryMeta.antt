-- ===== src/RecoveryMeta.antt =====
-- EGAD/benchmarks/recovery_meta.h: the crash-atomic recovery marker with two banks.
--
-- The bank type is a parameter, as in the source. The function `fill` that a writer passes is the
-- sequence of its stores to the new bank, each a function of the bank, computed from the old bank:
-- a process that dies in `prepare` has done the first `k` of them.
pub mod Words
pub mod Crash
use Prim.Native.Nat.{bit_and, bit_or, bit_xor}
use egad_code.Prelude.{
  ℕ, zero, suc, ◌+◌, ◌/◌, ◌%◌, ◌^◌, Bool, true, false, Option, none, some, List, [], ◌∷◌, ◌==◌,
  if◌then◌else◌, take,
}
use egad_code.Prelude.Words.{shl64}

-- `kRecoveryMetaTag`
abbrev pub recovery_meta_tag : ℕ
recovery_meta_tag = 0xe6ad

pub record Meta (B : Type 0) : Type 0 where
  pub bank0 : B
  pub bank1 : B
  pub publish : ℕ

-- `static_cast<uint16_t>(w >> 48) == kRecoveryMetaTag`
unfoldable pub is_tagged : ℕ → Bool
is_tagged w = (w / 2 ^ 48) % 2 ^ 16 == recovery_meta_tag

-- The new generation of `prepare`.
unfoldable pub next_generation : ℕ → ℕ
next_generation w = if is_tagged w then ((w / 2 ^ 32) % 2 ^ 16 + 1) % 2 ^ 16 else 1

-- The word that `prepare` returns.
unfoldable pub publish_word : ℕ → ℕ → ℕ
publish_word generation crash_epoch =
    bit_or (bit_or (shl64 recovery_meta_tag 48) (shl64 generation 32)) crash_epoch

module _ {B : Type 0} where
  -- `banks[i]`, for an index masked with 1.
  unfoldable pub bank : Meta B → ℕ → B
  bank m i = if i == 0 then m.bank0 else m.bank1

  unfoldable pub set_bank : Meta B → ℕ → B → Meta B
  set_bank m i x = if i == 0 then record m { bank0 = x } else record m { bank1 = x }

  -- `read`: the crash epoch and the bank, `none` for the result `false`.
  unfoldable pub read : Meta B → Option (ℕ × B)
  read m =
      let w = m.publish in
      if is_tagged w then some (w % 2 ^ 32, bank m (bit_and (w / 2 ^ 32) 1)) else none

  -- The stores in order.
  unfoldable pub run_stores : List (B → B) → B → B
  run_stores [] x = x
  run_stores (f ∷ fs) x = run_stores fs (f x)

  -- The stores of `fill(banks[gen & 1], valid ? &banks[(gen & 1) ^ 1] : nullptr)`.
  unfoldable pub fill_stores : (Option B → List (B → B)) → Meta B → List (B → B)
  fill_stores fill m =
      let w = m.publish in
      fill (if is_tagged w then some (bank m (bit_xor (bit_and (next_generation w) 1) 1)) else none)

  -- The marker when `prepare` has done the first `k` stores of the fill.
  unfoldable pub prepare_prefix : (Option B → List (B → B)) → ℕ → Meta B → Meta B
  prepare_prefix fill k m =
      let i = bit_and (next_generation m.publish) 1 in
      set_bank m i (run_stores (take k (fill_stores fill m)) (bank m i))

  -- `prepare`: all stores of the fill, and the word to publish.
  unfoldable pub prepare : (Option B → List (B → B)) → ℕ → Meta B → Meta B × ℕ
  prepare fill crash_epoch m =
      let i = bit_and (next_generation m.publish) 1 in
      (
        set_bank m i (run_stores (fill_stores fill m) (bank m i)),
        publish_word (next_generation m.publish) crash_epoch,
      )

  -- `publishPrepared`
  unfoldable pub publish_prepared : Meta B → ℕ → Meta B
  publish_prepared m word = record m { publish = word }

  -- A writer's bump: `prepare`, then `publishPrepared`.
  unfoldable pub bump : (Option B → List (B → B)) → ℕ → Meta B → Meta B
  bump fill crash_epoch m = let (m', word) = prepare fill crash_epoch m in publish_prepared m' word
