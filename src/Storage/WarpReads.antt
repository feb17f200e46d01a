-- ===== src/Storage/WarpReads.antt =====
-- The cooperative read of EGAD/gpu_storage.cuh against the read of one thread: the lanes' partial sums.
use egad_code.Prelude.{
  ℕ, zero, suc, ◌+◌, ◌*◌, ◌%◌, ◌^◌, ◌≤◌, ◌<◌, ◌≡◌, refl, sym, ◌∙◌, ap, ltb, if◌then◌else◌, arith,
  Bool-cases, inl, inr, ◌-◌, ◌≢◌, some, none, Bool, true, false, not, ◌&&◌, ◌==◌, ne→==,
}
use egad_code.Prelude.Words.{add32, absent}
use egad_code.Storage.{Table, read_target, poll, target_value}
use egad_code.Storage.Gpu.{
  gpu_read_from_table_coop, gpu_read_from_table_thread, Words, lane_sum, thread_sum, warp_rounds,
}

-- The sum of the words `k` to `k + count - 1` of the range, those past its length counting as 0.
abbrev masked : Words → ℕ → ℕ → ℕ → ℕ
masked words offset length k = if ltb k length then words (offset + k) else 0

unfoldable block : Words → ℕ → ℕ → ℕ → ℕ → ℕ
block words offset length k zero = 0
block words offset length k (suc count) =
    block words offset length k count + masked words offset length (k + count)

-- The words of a lane in its rounds.
unfoldable column : Words → ℕ → ℕ → ℕ → ℕ → ℕ → ℕ
column words offset length lane base zero = 0
column words offset length lane base (suc rounds) =
    masked words offset length (lane + base) + column words offset length lane (base + 32) rounds

lane_sum_lem :
    (words : Words) (offset length lane rounds base result : ℕ)
    → result < 2 ^ 32
    → lane_sum words offset length lane rounds base result
      ≡ (result + column words offset length lane base rounds) % 2 ^ 32
unfolding lane_sum column
lane_sum_lem words offset length lane zero base result h = omega arith
lane_sum_lem words offset length lane (suc rounds) base result h =
    let w = words (offset + base + lane) in
    let same : offset + (lane + base) ≡ offset + base + lane = omega arith in
    elim (Bool-cases (ltb (lane + base) length)) [
      | inl b ↦
          rw (b, same)
            (lane_sum_lem words offset length lane rounds (base + 32) (add32 result w) (omega arith)
              ∙ omega arith)
      | inr b ↦
          rw b (lane_sum_lem words offset length lane rounds (base + 32) result h ∙ omega arith)
    ]

block-front :
    (words : Words) (offset length k count : ℕ)
    → block words offset length k (suc count)
      ≡ masked words offset length k + block words offset length (k + 1) count
unfolding block
block-front words offset length k zero =
    let here : k + 0 ≡ k = omega arith in omega (arith, ap (masked words offset length) here)
block-front words offset length k (suc count) =
    let same : k + suc count ≡ k + 1 + count = omega arith in
    omega (arith, block-front words offset length k count, ap (masked words offset length) same)

block-add :
    (words : Words) (offset length k a b : ℕ)
    → block words offset length k (a + b)
      ≡ block words offset length k a + block words offset length (k + a) b
unfolding block
block-add words offset length k a zero =
    let all : a + 0 ≡ a = omega arith in omega (arith, ap (block words offset length k) all)
block-add words offset length k a (suc b) =
    let more : a + suc b ≡ suc (a + b) = omega arith in
    let same : k + (a + b) ≡ k + a + b = omega arith in
    omega (
      arith,
      ap (block words offset length k) more,
      block-add words offset length k a b,
      ap (masked words offset length) same,
    )

block-past :
    (words : Words) (offset length k count : ℕ) → length ≤ k → block words offset length k count ≡ 0
unfolding block
block-past words offset length k zero h = refl
block-past words offset length k (suc count) h =
    ground (arith, block-past words offset length k count)

thread_sum_lem :
    (words : Words) (offset length left i result : ℕ)
    → result < 2 ^ 32
    → i + left ≡ length
    → thread_sum words offset left i result ≡ (result + block words offset length i left) % 2 ^ 32
unfolding thread_sum block
thread_sum_lem words offset length zero i result h e = omega arith
thread_sum_lem words offset length (suc left) i result h e =
    let inside : masked words offset length i ≡ words (offset + i) = ground arith in
    omega (
      arith,
      thread_sum_lem words offset length left (i + 1) (add32 result (words (offset + i)))
          (omega arith) (omega arith),
      block-front words offset length i left,
      inside,
    )

-- The sums of the first `lanes` lanes.
unfoldable columns : Words → ℕ → ℕ → ℕ → ℕ → ℕ → ℕ
columns words offset length base rounds zero = 0
columns words offset length base rounds (suc lanes) =
    columns words offset length base rounds lanes + column words offset length lanes base rounds

columns-block :
    (words : Words) (offset length base rounds lanes : ℕ)
    → columns words offset length base (suc rounds) lanes
      ≡ block words offset length base lanes + columns words offset length (base + 32) rounds lanes
unfolding columns column block
columns-block words offset length base rounds zero = refl
columns-block words offset length base rounds (suc lanes) =
    let same : lanes + base ≡ base + lanes = omega arith in
    omega (
      arith,
      columns-block words offset length base rounds lanes,
      ap (masked words offset length) same,
    )

columns_zero :
    (words : Words) (offset length base lanes : ℕ) → columns words offset length base 0 lanes ≡ 0
unfolding columns column
columns_zero words offset length base zero = refl
columns_zero words offset length base (suc lanes) =
    omega (arith, columns_zero words offset length base lanes)

-- The 32 lanes read all words of their rounds.
columns-eq-block :
    (words : Words) (offset length base rounds : ℕ)
    → columns words offset length base rounds 32 ≡ block words offset length base (32 * rounds)
unfolding block
columns-eq-block words offset length base zero = columns_zero words offset length base 32
columns-eq-block words offset length base (suc rounds) =
    let more : 32 * suc rounds ≡ 32 + 32 * rounds = omega arith in
    omega (
      arith,
      columns-block words offset length base rounds 32,
      columns-eq-block words offset length (base + 32) rounds,
      block-add words offset length base 32 (32 * rounds),
      ap (block words offset length base) more,
    )

-- The results of the first `lanes` lanes together.
unfoldable pub total : (ℕ → ℕ) → ℕ → ℕ
total results zero = 0
total results (suc lanes) = add32 (total results lanes) (results lanes)

total-columns :
    (words : Words) (offset length rounds : ℕ) (results : ℕ → ℕ) (lanes : ℕ)
    → ((lane : ℕ) → lane < lanes → results lane ≡ lane_sum words offset length lane rounds 0 0)
    → total results lanes ≡ columns words offset length 0 rounds lanes % 2 ^ 32
unfolding total columns
total-columns words offset length rounds results zero h = refl
total-columns words offset length rounds results (suc lanes) h = omega (
  arith,
  h lanes (omega arith),
  total-columns words offset length rounds results lanes (λ l p. h l (omega arith)),
  lane_sum_lem words offset length lanes rounds 0 0 (omega arith),
)

-- The lanes' sums add up to the thread's sum.
total-eq-thread_sum :
    (words : Words) (offset length : ℕ) (results : ℕ → ℕ)
    → ((lane : ℕ)
        → lane < 32
        → results lane ≡ lane_sum words offset length lane (warp_rounds length) 0 0)
    → total results 32 ≡ thread_sum words offset length 0 0
total-eq-thread_sum words offset length results h =
    let rounds = warp_rounds length in
    let rest = 32 * rounds - length in
    let all : 32 * rounds ≡ length + rest = omega arith in
    omega (
      arith,
      total-columns words offset length rounds results 32 h,
      columns-eq-block words offset length 0 rounds,
      ap (block words offset length 0) all,
      block-add words offset length 0 length rest,
      block-past words offset length (0 + length) rest (omega arith),
      thread_sum_lem words offset length length 0 0 (omega arith) (omega arith),
    )

coop-unless_absent :
    (t : Table Words) (record_id read_loc epoch lane offset length : ℕ)
    → (record_id == absent) ≡ false
    → let slot = read_target t record_id read_loc epoch in
      gpu_read_from_table_coop t record_id read_loc epoch 0 lane offset length ≡ (
        if slot.1 && not (poll t record_id slot.0 epoch)
        then none
        else some (
            lane_sum (target_value t record_id slot.0) offset length lane (warp_rounds length) 0 0))
unfolding gpu_read_from_table_coop
coop-unless_absent t record_id read_loc epoch lane offset length here =
    rw (gpu_read_from_table_coop, here) refl

thread-unless_absent :
    (t : Table Words) (record_id read_loc epoch offset length : ℕ)
    → (record_id == absent) ≡ false
    → let slot = read_target t record_id read_loc epoch in
      gpu_read_from_table_thread t record_id read_loc epoch 0 offset length ≡ (
        if slot.1 && not (poll t record_id slot.0 epoch)
        then none
        else some (thread_sum (target_value t record_id slot.0) offset length 0 0))
unfolding gpu_read_from_table_thread
thread-unless_absent t record_id read_loc epoch offset length here =
    rw (gpu_read_from_table_thread, here) refl

read_results :
    (spins : Bool) (words : Words) (offset length : ℕ) (results : ℕ → ℕ)
    → ((lane : ℕ)
        → lane < 32
        → (if spins
            then none
            else some (lane_sum words offset length lane (warp_rounds length) 0 0))
          ≡ some (results lane))
    → (if spins then none else some (thread_sum words offset length 0 0)) ≡ some (total results 32)
read_results true words offset length results h = absurd (ground (arith, h 0 (omega arith)))
read_results false words offset length results h =
    ap some
      (sym (total-eq-thread_sum words offset length results (λ lane l. ground (arith, h lane l))))

-- For a record id other than the sentinel: where no lane of a cooperative read is held up, the results
-- of the 32 lanes add up, modulo `2 ^ 32`, to what a read by one thread adds to a zero result.
pub gpu_read_coop-eq-thread :
    (t : Table Words) (record_id read_loc epoch offset length : ℕ) (results : ℕ → ℕ)
    → record_id ≢ absent
    → ((lane : ℕ)
        → lane < 32
        → gpu_read_from_table_coop t record_id read_loc epoch 0 lane offset length
          ≡ some (results lane))
    → gpu_read_from_table_thread t record_id read_loc epoch 0 offset length
      ≡ some (total results 32)
gpu_read_coop-eq-thread t record_id read_loc epoch offset length results ne h =
    let slot = read_target t record_id read_loc epoch in
    let spins = slot.1 && not (poll t record_id slot.0 epoch) in
    let words = target_value t record_id slot.0 in
    let here = ne→== record_id absent ne in
    thread-unless_absent t record_id read_loc epoch offset length here
    ∙ read_results spins words offset length results (λ lane l.
      sym (coop-unless_absent t record_id read_loc epoch lane offset length here) ∙ h lane l)
