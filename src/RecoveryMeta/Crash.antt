-- ===== src/RecoveryMeta/Crash.antt =====
-- A reader of the marker of EGAD/benchmarks/recovery_meta.h sees whole snapshots only.
use Prim.Native.Nat.{bit_and, bit_xor}
use mathlib.Core.Option
use egad_code.Prelude.{
  ℕ, ◌/◌, ◌%◌, ◌^◌, ◌<◌, ◌≡◌, ◌≢◌, ◌⊎◌, inl, inr, refl, ◌∙◌, true, Option, some, List, [], ◌∷◌,
  arith, All, Bool-cases,
}
use egad_code.Prelude.Words.{bit_and_ones}
use egad_code.RecoveryMeta.{
  Meta, is_tagged, next_generation, publish_word, bank, set_bank, read, run_stores, fill_stores,
  prepare_prefix, prepare, publish_prepared, bump,
}
use egad_code.RecoveryMeta.Words.{
  publish_word_fields, publish_word_bank, next_generation_lt, next_generation_parity,
}

parity_cases : (g : ℕ) → (bit_and g 1 ≡ 0) ⊎ (bit_and g 1 ≡ 1)
parity_cases g = omega (arith, bit_and_ones 1 g)

read_published :
    {B : Type 0} (m : Meta B) (w e i : ℕ)
    → is_tagged w ≡ true
    → w % 2 ^ 32 ≡ e
    → bit_and (w / 2 ^ 32) 1 ≡ i
    → read (publish_prepared m w) ≡ some (e, bank m i)
unfolding read publish_prepared bank
read_published m w e i t p q = rw (t, p, q)

bank-set_bank : {B : Type 0} (m : Meta B) (i : ℕ) (x : B) → bank (set_bank m i x) i ≡ x
unfolding bank set_bank
bank-set_bank m i x = ground arith

module _ {B : Type 0} (m : Meta B) where
  abbrev new_index : ℕ
  new_index = bit_and (next_generation m.publish) 1

  -- The bank that a writer fills is not the one that a reader is given.
  inactive : is_tagged m.publish ≡ true → new_index ≢ bit_and (m.publish / 2 ^ 32) 1
  inactive t =
      omega (arith, bit_and_ones 1 (next_generation m.publish), next_generation_parity m.publish t)

  -- A store to the inactive bank is not seen.
  read-set_bank : (x : B) → read (set_bank m new_index x) ≡ read m
  unfolding read set_bank bank
  read-set_bank x =
      ground (
        arith,
        inactive,
        parity_cases (next_generation m.publish),
        parity_cases (m.publish / 2 ^ 32),
      )

  pub read-prepare_prefix :
      (fill : Option B → List (B → B)) (k : ℕ) → read (prepare_prefix fill k m) ≡ read m
  unfolding prepare_prefix
  read-prepare_prefix fill k = read-set_bank _

  abbrev pub read_bank : Option B
  read_bank = Option.map (λ p. p.1) (read m)

  old_bank : is_tagged m.publish ≡ true → bit_xor new_index 1 ≡ bit_and (m.publish / 2 ^ 32) 1
  old_bank t =
      let ne = inactive t in
      let live = parity_cases (m.publish / 2 ^ 32) in
      elim (parity_cases (next_generation m.publish)) [
        | inl e ↦ rw e (omega arith)
        | inr e ↦ rw e (omega arith)
      ]

  -- The fill is given the bank that a reader is given.
  fill_stores-read : (fill : Option B → List (B → B)) → fill_stores fill m ≡ fill read_bank
  unfolding fill_stores read
  fill_stores-read fill = elim (Bool-cases (is_tagged m.publish)) [
    | inl t ↦ rw (t, old_bank t)
    | inr f ↦ rw f
  ]

  -- The bank that the next bump fills.
  abbrev pub spare : B
  spare = bank m new_index

  pub read-bump :
      (fill : Option B → List (B → B)) (crash_epoch : ℕ)
      → crash_epoch < 2 ^ 32
      → read (bump fill crash_epoch m) ≡ some (crash_epoch, run_stores (fill read_bank) spare)
  unfolding bump prepare
  read-bump fill crash_epoch h =
      let m' = set_bank m new_index (run_stores (fill_stores fill m) spare) in
      let g = next_generation m.publish in
      let f =
        publish_word_fields {generation = g} {crash_epoch = crash_epoch}
          (next_generation_lt m.publish) h in
      let i =
        publish_word_bank {generation = g} {crash_epoch = crash_epoch}
          (next_generation_lt m.publish) h
        ∙ omega (arith, bit_and_ones 1 g) in
      read_published m' (publish_word g crash_epoch) crash_epoch new_index f.0 f.2 i
      ∙ rw (bank-set_bank m new_index, fill_stores-read fill) refl

-- A bump: its fill, its epoch, and the bank that the stores of the fill leave.
pub record Bump (B : Type 0) : Type 0 where
  pub fill : Option B → List (B → B)
  pub crash_epoch : ℕ
  pub complete : Option B → B

-- The epoch is a `uint32_t`, and the fill stores every cursor: what it leaves does not depend on
-- what the bank held before.
pub record IsBump {B : Type 0} (b : Bump B) : Type 0 where
  pub fits : b.crash_epoch < 2 ^ 32
  pub overwrites : (old : Option B) (x : B) → run_stores (b.fill old) x ≡ b.complete old

module _ {B : Type 0} where
  -- The writer's bumps in order, oldest first.
  unfoldable pub run_bumps : List (Bump B) → Meta B → Meta B
  run_bumps [] m = m
  run_bumps (b ∷ bs) m = run_bumps bs (bump b.fill b.crash_epoch m)

  -- What a reader is to see: each bump replaces the snapshot by one computed from it.
  unfoldable pub snapshots : List (Bump B) → Option (ℕ × B) → Option (ℕ × B)
  snapshots [] seen = seen
  snapshots (b ∷ bs) seen =
      snapshots bs (some (b.crash_epoch, b.complete (Option.map (λ p. p.1) seen)))

  read-run_bumps :
      (bs : List (Bump B)) (m : Meta B)
      → All IsBump bs
      → read (run_bumps bs m) ≡ snapshots bs (read m)
  unfolding run_bumps snapshots
  read-run_bumps [] m h = refl
  read-run_bumps (b ∷ bs) m h =
      read-run_bumps bs (bump b.fill b.crash_epoch m) h.1
      ∙ rw (read-bump m b.fill b.crash_epoch h.0.fits, h.0.overwrites (read_bank m) (spare m)) refl

  -- After any bumps whose epochs fit 32 bits and whose fills overwrite the whole bank, and any
  -- number of the stores of one more bump that is not published, a reader sees the snapshot of
  -- the last bump that was published: its epoch with its own bank, never a mix.
  pub crash_anywhere :
      (m : Meta B) (bs : List (Bump B)) (torn : Bump B) (k : ℕ)
      → All IsBump bs
      → read (prepare_prefix torn.fill k (run_bumps bs m)) ≡ snapshots bs (read m)
  crash_anywhere m bs torn k h =
      read-prepare_prefix (run_bumps bs m) torn.fill k ∙ read-run_bumps bs m h
