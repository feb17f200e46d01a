-- ===== src/RecoveryMeta/Words.antt =====
-- The publish word of EGAD/benchmarks/recovery_meta.h.
use Prim.Native.Nat.{bit_and, bit_or}
use egad_code.Prelude.{ℕ, ◌+◌, ◌*◌, ◌/◌, ◌%◌, ◌^◌, ◌<◌, ◌≡◌, ◌≢◌, ◌∙◌, true, arith}
use egad_code.Prelude.Words.{shl64, bit_or_at, bit_and_ones}
use egad_code.RecoveryMeta.{is_tagged, next_generation, publish_word, recovery_meta_tag}

module _ {generation crash_epoch : ℕ} (g : generation < 2 ^ 16) (e : crash_epoch < 2 ^ 32) where
  publish_word-eq-sum :
      publish_word generation crash_epoch
      ≡ recovery_meta_tag * 2 ^ 48 + generation * 2 ^ 32 + crash_epoch
  unfolding publish_word
  publish_word-eq-sum =
      let t = shl64 recovery_meta_tag 48 in
      let k = shl64 generation 32 in
      let high : bit_or t k ≡ recovery_meta_tag * 2 ^ 48 + generation * 2 ^ 32 =
        bit_or_at 48 t k recovery_meta_tag (generation * 2 ^ 32) (omega arith) (omega arith)
          (omega arith) in
      bit_or_at 32 (bit_or t k) crash_epoch (recovery_meta_tag * 2 ^ 16 + generation) crash_epoch
        (omega arith) (omega arith) e
      ∙ omega arith

  -- The tag, the generation and the epoch are read back from the word.
  pub publish_word_fields :
      (is_tagged (publish_word generation crash_epoch) ≡ true)
      × ((publish_word generation crash_epoch / 2 ^ 32) % 2 ^ 16 ≡ generation)
      × (publish_word generation crash_epoch % 2 ^ 32 ≡ crash_epoch)
  unfolding is_tagged
  publish_word_fields = (
    ground (arith, publish_word-eq-sum),
    omega (arith, publish_word-eq-sum),
    omega (arith, publish_word-eq-sum),
  )

  -- The live bank is the parity of the generation.
  pub publish_word_bank : bit_and (publish_word generation crash_epoch / 2 ^ 32) 1 ≡ generation % 2
  publish_word_bank =
      bit_and_ones 1 (publish_word generation crash_epoch / 2 ^ 32)
      ∙ omega (arith, publish_word-eq-sum)

pub next_generation_lt : (w : ℕ) → next_generation w < 2 ^ 16
unfolding next_generation
next_generation_lt w = ground arith

-- After a valid word the next generation has the other parity.
pub next_generation_parity :
    (w : ℕ) → is_tagged w ≡ true → next_generation w % 2 ≢ bit_and (w / 2 ^ 32) 1
unfolding next_generation
next_generation_parity w t = ground (arith, bit_and_ones 1 (w / 2 ^ 32))
