-- ===== src/Execution/Steps.antt =====
-- Each step of the interleaved execution keeps the invariant, and so does every run.
use egad_code.Prelude.{ℕ, Option}
use egad_code.Storage.{Table}
use egad_code.Execution.{
  Batch, State, Step, skip_read, skip_write, enter_read, enter_write, reads, writes, pick, copy,
  aim, store, publish, Reach, here, next,
}
use egad_code.Execution.Serial.{IsSerial, IsPlanned, IsQuiet}
use egad_code.Execution.Invariant.{Inv}
use egad_code.Execution.Loads.{skip_read-Inv, skip_write-Inv, enter-Inv}
use egad_code.Execution.Reads.{pick-Inv, copy-Inv}
use egad_code.Execution.Writes.{aim-Inv, store-Inv, publish-Inv}

module _ {A : Type 0} (b : Batch A) (t₀ : Table A) (source : ℕ → Option ℕ) (vals : ℕ → A)
    (quiet : IsQuiet t₀ b.epoch) (planned : IsPlanned b source) where
  abbrev pub Holds : State A → Type 0
  Holds = Inv b t₀ source vals

  pub Step-Inv : IsSerial b t₀ source vals → {s s' : State A} → Step b s s' → Holds s → Holds s'
  Step-Inv ser {s} (reads (skip_read i lt r e a)) h =
      skip_read-Inv b t₀ source vals quiet planned s i h r e a
  Step-Inv ser {s} (writes (skip_write i lt w e a)) h =
      skip_write-Inv b t₀ source vals quiet planned s i h w e a
  Step-Inv ser {s} (reads (enter_read i lt r e a)) h =
      enter-Inv b t₀ source vals quiet planned s i h lt e a
  Step-Inv ser {s} (writes (enter_write i lt w e a)) h =
      enter-Inv b t₀ source vals quiet planned s i h lt e a
  Step-Inv ser {s} (reads (pick i v1 r e)) h = pick-Inv b t₀ source vals quiet planned s i v1 h r e
  Step-Inv ser {s} (reads (copy i t w e p)) h =
      copy-Inv b t₀ source vals quiet planned s i t w h e p
  Step-Inv ser {s} (writes (aim i v1 vs w e c)) h =
      aim-Inv b t₀ source vals quiet planned s i v1 vs ser h w e c
  Step-Inv ser {s} (writes (store i t v e)) h = store-Inv b t₀ source vals quiet planned s i t v h e
  Step-Inv ser {s} (writes (publish i t e)) h = publish-Inv b t₀ source vals quiet planned s i t h e

  pub Reach-Inv : IsSerial b t₀ source vals → {s s' : State A} → Holds s → Reach b s s' → Holds s'
  Reach-Inv ser h here = h
  Reach-Inv ser h (next r st) = Step-Inv ser st (Reach-Inv ser h r)
