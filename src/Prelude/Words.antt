-- ===== src/Prelude/Words.antt =====
-- Machine words as native numbers: wrap by `%`, shifts, and the bit operations on fields.
use Prim.Native.Nat.{
  ℕ, zero, suc, ◌+◌, ◌-◌, ◌*◌, ◌/◌, ◌%◌, ◌^◌, ◌≤◌, ◌<◌, min, max, bit_and, bit_or, digits,
  bit_and-bitwise, bit_or-bitwise,
}
use mathlib.Core.Path.{◌≡◌, refl, sym, ◌∙◌, ap}
use native.Mathlib.Omega.{arith}
use native.Mathlib.Nat.{pow-suc, mul-one, div-one, div-div-eq-div-mul, one-le-pow, div-add-mod}

-- `uint32_t` addition.
abbrev pub add32 : ℕ → ℕ → ℕ
add32 a b = (a + b) % 2 ^ 32

-- `uint64_t` addition.
abbrev pub mul64 : ℕ → ℕ → ℕ
mul64 a b = (a * b) % 2 ^ 64

abbrev pub add64 : ℕ → ℕ → ℕ
add64 a b = (a + b) % 2 ^ 64

-- `a - b` on `unsigned long long`.
abbrev pub sub64 : ℕ → ℕ → ℕ
sub64 a b = (a + (2 ^ 64 - b % 2 ^ 64)) % 2 ^ 64

-- `<<` on `uint64_t`.
abbrev pub shl64 : ℕ → ℕ → ℕ
shl64 x k = (x * 2 ^ k) % 2 ^ 64

-- The sentinel 0xffffffff.
abbrev pub absent : ℕ
absent = 0xffffffff

-- Induction on the binary digits.
halving_below :
    (P : ℕ → Type 0) → P 0 → ((a : ℕ) → P (suc a / 2) → P (suc a)) → (bound a : ℕ) → a ≤ bound → P a
halving_below P base double bound zero below = base
halving_below P base double zero (suc a) below = absurd (omega arith)
halving_below P base double (suc bound) (suc a) below =
    double a (halving_below P base double bound (suc a / 2) (omega arith))

halving : (P : ℕ → Type 0) → P 0 → ((a : ℕ) → P (suc a / 2) → P (suc a)) → (a : ℕ) → P a
halving P base double a = halving_below P base double a a (omega arith)

-- The recursion behind a bit operation: enough fuel is enough for any operation on digits.
digits-suc :
    (base : ℕ → ℕ) (op : ℕ → ℕ → ℕ) (a fuel fuel' b : ℕ)
    → a ≤ fuel
    → a ≤ fuel'
    → digits base op fuel a b ≡ digits base op fuel' a b
digits-suc base op zero zero zero b l l' = refl
digits-suc base op zero zero (suc fuel') b l l' = refl
digits-suc base op zero (suc fuel) zero b l l' = refl
digits-suc base op zero (suc fuel) (suc fuel') b l l' = refl
digits-suc base op (suc a) zero fuel' b l l' = absurd (omega arith)
digits-suc base op (suc a) (suc fuel) zero b l l' = absurd (omega arith)
digits-suc base op (suc a) (suc fuel) (suc fuel') b l l' =
    ap (λ rest. rest * 2 + op (suc a % 2) (b % 2))
      (digits-suc base op (suc a / 2) fuel fuel' (b / 2) (omega arith) (omega arith))

bit_or-zero_left : (b : ℕ) → bit_or 0 b ≡ b
bit_or-zero_left b = bit_or-bitwise 0 b

bit_and-zero_left : (b : ℕ) → bit_and 0 b ≡ 0
bit_and-zero_left b = bit_and-bitwise 0 b

-- The lowest digit of an operation, and the rest of it.
or_step : (a b : ℕ) → bit_or a b ≡ bit_or (a / 2) (b / 2) * 2 + max (a % 2) (b % 2)
or_step zero b = omega (arith, bit_or-zero_left b, bit_or-zero_left (b / 2))
or_step (suc a) b =
    let half = suc a / 2 in
    let rest = digits-suc (λ c. c) max half a half (b / 2) (omega arith) (omega arith) in
    bit_or-bitwise (suc a) b
    ∙ ap (λ r. r * 2 + max (suc a % 2) (b % 2)) (rest ∙ sym (bit_or-bitwise half (b / 2)))

and_step : (a b : ℕ) → bit_and a b ≡ bit_and (a / 2) (b / 2) * 2 + min (a % 2) (b % 2)
and_step zero b = omega (arith, bit_and-zero_left b, bit_and-zero_left (b / 2))
and_step (suc a) b =
    let half = suc a / 2 in
    let rest = digits-suc (λ c. zero) min half a half (b / 2) (omega arith) (omega arith) in
    bit_and-bitwise (suc a) b
    ∙ ap (λ r. r * 2 + min (suc a % 2) (b % 2)) (rest ∙ sym (bit_and-bitwise half (b / 2)))

bit_or-zero_right : (a : ℕ) → bit_or a 0 ≡ a
bit_or-zero_right =
    halving (λ a. bit_or a 0 ≡ a) (bit_or-zero_left 0)
      (λ a ih. omega (arith, or_step (suc a) 0, ih))

bit_and-zero_right : (a : ℕ) → bit_and a 0 ≡ 0
bit_and-zero_right =
    halving (λ a. bit_and a 0 ≡ 0) (bit_and-zero_left 0)
      (λ a ih. omega (arith, and_step (suc a) 0, ih))

pow_double : (k : ℕ) → 2 ^ suc k ≡ 2 * 2 ^ k
pow_double k = pow-suc 2 k ∙ omega arith

bit_or_double : (x b : ℕ) → bit_or (2 * x) b ≡ bit_or x (b / 2) * 2 + b % 2
bit_or_double x b =
    let e : (2 * x) / 2 ≡ x = omega arith in
    let step : bit_or (2 * x) b ≡ bit_or x (b / 2) * 2 + max ((2 * x) % 2) (b % 2) =
      or_step (2 * x) b ∙ ap (λ y. bit_or y (b / 2) * 2 + max ((2 * x) % 2) (b % 2)) e in
    omega (arith, step)

bit_or_low : (a b : ℕ) → b ≡ 0 → bit_or (a * 1) b ≡ a * 1 + b
bit_or_low a b e = rw (e, mul-one) (omega (arith, bit_or-zero_right a))

-- Or of a shifted field and a field below it is their sum.
pub bit_or_disjoint : (k a b : ℕ) → b < 2 ^ k → bit_or (a * 2 ^ k) b ≡ a * 2 ^ k + b
bit_or_disjoint zero a b h = bit_or_low a b (omega arith)
bit_or_disjoint (suc k) a b h =
    let e = pow_double k in
    let ih = bit_or_disjoint k a (b / 2) (omega arith) in
    let m : a * 2 ^ suc k ≡ 2 * (a * 2 ^ k) = omega (arith, ap (λ t. a * t) e) in
    rw m (omega (arith, bit_or_double (a * 2 ^ k) b))

bit_and_double : (x m : ℕ) → bit_and x (2 * m) ≡ bit_and (x / 2) m * 2
bit_and_double x m =
    let e : (2 * m) / 2 ≡ m = omega arith in
    let step : bit_and x (2 * m) ≡ bit_and (x / 2) m * 2 + min (x % 2) ((2 * m) % 2) =
      and_step x (2 * m) ∙ ap (λ y. bit_and (x / 2) y * 2 + min (x % 2) ((2 * m) % 2)) e in
    omega (arith, step)

-- A mask shifted by `k` selects the bits from `k` on.
pub bit_and_shifted : (k x m : ℕ) → bit_and x (m * 2 ^ k) ≡ bit_and (x / 2 ^ k) m * 2 ^ k
bit_and_shifted zero x m = rw (mul-one m, div-one x, mul-one (bit_and x m))
bit_and_shifted (suc k) x m =
    let e : m * 2 ^ suc k ≡ 2 * (m * 2 ^ k) = omega (arith, ap (λ t. m * t) (pow_double k)) in
    let d : x / 2 / 2 ^ k ≡ x / 2 ^ suc k =
      div-div-eq-div-mul x 2 (2 ^ k) ∙ ap (λ t. x / t) (sym (pow_double k)) in
    let b = bit_and_shifted k (x / 2) m ∙ ap (λ t. bit_and t m * 2 ^ k) d in
    rw e (
      bit_and_double x (m * 2 ^ k)
      ∙ omega (arith, b, ap (λ t. bit_and (x / 2 ^ suc k) m * t) (pow_double k)))

bit_and_odd : (x m : ℕ) → bit_and x (2 * m + 1) ≡ bit_and (x / 2) m * 2 + x % 2
bit_and_odd x m =
    let e : (2 * m + 1) / 2 ≡ m = omega arith in
    let step : bit_and x (2 * m + 1) ≡ bit_and (x / 2) m * 2 + min (x % 2) ((2 * m + 1) % 2) =
      and_step x (2 * m + 1) ∙ ap (λ y. bit_and (x / 2) y * 2 + min (x % 2) ((2 * m + 1) % 2)) e in
    omega (arith, step)

mod_double : (x q : ℕ) → x % (2 * q) ≡ (x / 2) % q * 2 + x % 2
mod_double x q =
    let e = ap (λ t. 2 * q * t) (div-div-eq-div-mul x 2 q) in
    omega (arith, e, div-add-mod (x / 2) q, div-add-mod x (2 * q))

-- A mask of `k` ones takes the remainder.
pub bit_and_ones : (k x : ℕ) → bit_and x (2 ^ k - 1) ≡ x % 2 ^ k
bit_and_ones zero x = omega (arith, bit_and-zero_right x)
bit_and_ones (suc k) x =
    let p : 0 < 2 ^ k = one-le-pow k 2 (omega arith) in
    let e : 2 ^ suc k - 1 ≡ 2 * (2 ^ k - 1) + 1 = omega (arith, pow_double k) in
    rw (e, pow_double k)
      (omega (arith, bit_and_odd x (2 ^ k - 1), bit_and_ones k (x / 2), mod_double x (2 ^ k)))

-- Two words of which one is a multiple of 2 ^ k and the other is below it.
pub bit_or_at : (k x y a b : ℕ) → x ≡ a * 2 ^ k → y ≡ b → b < 2 ^ k → bit_or x y ≡ a * 2 ^ k + b
bit_or_at k x y a b p q h = rw (p, q) (bit_or_disjoint k a b h)
