-- ===== src/Prelude/Loops.antt =====
-- Loops over a range of indices, in blocks of it, and in the strides of a grid of threads.
use mathlib.Core.Path.{◌≡◌, refl, ap, ◌∙◌}
use mathlib.Core.Bool.{true, false}
use Prim.Native.Nat.{ℕ, zero, suc, ◌+◌, ◌-◌, ◌≤◌, ◌<◌, ◌^◌}
use native.Mathlib.Omega.{arith}
use egad_code.Prelude.Tests.{ltb, if◌then◌else◌, Bool-cases}
use egad_code.Prelude.Words.{add32}
use mathlib.Core.Logic.{inl, inr}

-- `for (i = 0; i < n; i++) s = body i s`, the last round outermost.
unfoldable pub for_upto {ℓ} : {S : Type ℓ} → ℕ → (ℕ → S → S) → S → S
for_upto zero body s = s
for_upto (suc n) body s = body n (for_upto n body s)

-- `for (i = base; i < base + n; i++)`.
abbrev pub for_range {ℓ} : {S : Type ℓ} → ℕ → ℕ → (ℕ → S → S) → S → S
for_range base n body s = for_upto n (λ i. body (base + i)) s

-- `for (i = t; i < n; i += step)` with a 32-bit counter, for at most `fuel` rounds.
unfoldable pub stride_loop {ℓ} : {S : Type ℓ} → ℕ → ℕ → ℕ → ℕ → (ℕ → S → S) → S → S
stride_loop zero t step n body s = s
stride_loop (suc fuel) t step n body s =
    let rest = stride_loop fuel (add32 t step) step n body (body t s) in if ltb t n then rest else s

-- A grid of `threads` threads (or warps), each of which runs the strided loop from its number.
unfoldable pub grid_stride {ℓ} : {S : Type ℓ} → ℕ → ℕ → (ℕ → S → S) → S → S
unfolding for_upto stride_loop
grid_stride threads n body s = for_upto threads (λ t s'. stride_loop n t threads n body s') s

-- A grid of `threads` threads, each of which returns at once from `n` on.
unfoldable pub grid_guard {ℓ} : {S : Type ℓ} → ℕ → ℕ → (ℕ → S → S) → S → S
unfolding for_upto
grid_guard threads n body s = for_upto threads (λ t s'. if ltb t n then body t s' else s') s

module _ {ℓ} {S : Type ℓ} (body : ℕ → S → S) where
  -- A loop in two parts.
  pub for_upto-append :
      (a b c : ℕ) (s : S) → c ≡ a + b → for_upto c body s ≡ for_range a b body (for_upto a body s)
  unfolding for_upto
  for_upto-append a zero c s e = let e' : c ≡ a = omega arith in ap (λ t. for_upto t body s) e'
  for_upto-append a (suc b) c s e =
      let e' : c ≡ suc (a + b) = omega arith in
      ap (λ t. for_upto t body s) e' ∙ ap (body (a + b)) (for_upto-append a b (a + b) s refl)

  -- A strided loop that starts at the end or after it does nothing.
  pub stride_loop-done : (fuel t step n : ℕ) (s : S) → n ≤ t → stride_loop fuel t step n body s ≡ s
  unfolding stride_loop
  stride_loop-done zero t step n s h = refl
  stride_loop-done (suc fuel) t step n s h =
      let over : ltb t n ≡ false = ground arith in rw over refl

  -- With as many threads as indices, no thread takes a second round.
  stride_loop-once :
      (fuel t step n : ℕ) (s : S)
      → 0 < fuel
      → n ≤ step
      → n + step ≤ 2 ^ 32
      → stride_loop fuel t step n body s ≡ (if ltb t n then body t s else s)
  unfolding stride_loop
  stride_loop-once zero t step n s f l w = absurd (omega arith)
  stride_loop-once (suc fuel) t step n s f l w = elim (Bool-cases (ltb t n)) [
    | inl inside ↦
        let small : t < n = ground arith in
        let next : n ≤ add32 t step = omega arith in
        rw inside (stride_loop-done fuel (add32 t step) step n (body t s) next)
    | inr outside ↦ rw outside refl
  ]

  -- The threads from `n` on do nothing.
  guard-extra :
      (n extra c : ℕ) (s : S)
      → c ≡ n + extra
      → for_upto c (λ t s'. if ltb t n then body t s' else s') s ≡ for_upto n body s
  unfolding for_upto
  guard-extra n (suc extra) c s e =
      let e' : c ≡ suc (n + extra) = omega arith in
      let over : ltb (n + extra) n ≡ false = ground arith in
      ap (λ t. for_upto t (λ t s'. if ltb t n then body t s' else s') s) e'
      ∙ rw over (guard-extra n extra (n + extra) s refl)
  guard-extra n zero c s e =
      let e' : c ≡ n = omega arith in
      ap (λ t. for_upto t (λ t s'. if ltb t n then body t s' else s') s) e' ∙ inside n (omega arith)
    where
      inside :
          (k : ℕ)
          → k ≤ n
          → for_upto k (λ t s'. if ltb t n then body t s' else s') s ≡ for_upto k body s
      inside zero l = refl
      inside (suc k) l =
          let less : ltb k n ≡ true = ground arith in rw less (ap (body k) (inside k (omega arith)))

  -- A guarded grid that is large enough is the loop over the indices.
  pub grid_guard_lem :
      (threads n : ℕ) (s : S) → n ≤ threads → grid_guard threads n body s ≡ for_upto n body s
  unfolding grid_guard
  grid_guard_lem threads n s l = guard-extra n (threads - n) threads s (omega arith)

pub for_upto-congr {ℓ} :
    {S : Type ℓ} (f g : ℕ → S → S) (n : ℕ) (s : S)
    → ((i : ℕ) (s' : S) → i < n → f i s' ≡ g i s')
    → for_upto n f s ≡ for_upto n g s
unfolding for_upto
for_upto-congr f g zero s same = refl
for_upto-congr f g (suc n) s same =
    same n (for_upto n f s) (omega arith)
    ∙ ap (g n) (for_upto-congr f g n s λ i s' l. same i s' (omega arith))

-- A strided grid that has as many threads as indices is the loop over the indices.
pub grid_stride_lem {ℓ} :
    {S : Type ℓ} (body : ℕ → S → S) (threads n : ℕ) (s : S)
    → n ≤ threads
    → n + threads ≤ 2 ^ 32
    → grid_stride threads n body s ≡ for_upto n body s
unfolding grid_stride
grid_stride_lem body threads zero s l w =
    for_upto-congr (λ t s'. stride_loop zero t threads zero body s')
      (λ t s'. if ltb t zero then body t s' else s') threads s
      (λ t s' h. let no : ltb t zero ≡ false = ground arith in rw no refl)
    ∙ guard-extra body zero threads threads s (omega arith)
grid_stride_lem body threads (suc n) s l w =
    for_upto-congr (λ t s'. stride_loop (suc n) t threads (suc n) body s')
      (λ t s'. if ltb t (suc n) then body t s' else s') threads s
      (λ t s' h. stride_loop-once body (suc n) t threads (suc n) s' (omega arith) l w)
    ∙ guard-extra body (suc n) (threads - suc n) threads s (omega arith)
