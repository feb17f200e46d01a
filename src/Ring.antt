-- ===== src/Ring.antt =====
-- EGAD/util_device_ring.cuh and EGAD/device_ring_types.h: the queue of free slots in device memory.
--
-- `head` and `tail` are 64-bit counts of what was popped and pushed. Pops are not interleaved with
-- pushes, as the comment of the source asks for. The result of a pop is the ring, the
-- output array and the number of granted items.
pub mod Queue
use egad_code.Prelude.{ℕ, ◌+◌, ◌-◌, ◌*◌, ◌/◌, ◌%◌, ◌^◌, ◌&&◌, ◌==◌, ltb, if◌then◌else◌}
use egad_code.Prelude.Words.{add64, sub64}

-- `DeviceRingView`
pub record Ring : Type 0 where
  pub buffer : ℕ → ℕ
  pub head : ℕ
  pub tail : ℕ
  pub capacity : ℕ

-- `k_ring_pop_reserve`: the ring, the old head and the number granted.
unfoldable pub ring_pop_reserve : Ring → ℕ → Ring × ℕ × ℕ
ring_pop_reserve ring n =
    let old_head = ring.head in
    let avail = sub64 ring.tail old_head in
    let g = if ltb avail n then avail % 2 ^ 32 else n in
    let reserved = add64 ring.head n in
    (
      record ring { head = if ltb g n then add64 reserved (sub64 0 (n - g)) else reserved },
      old_head,
      g,
    )

-- `k_ring_pop_copy`, its thread for each index, of a grid of `threads`.
unfoldable pub ring_pop_copy : ℕ → Ring → ℕ → ℕ → (ℕ → ℕ) → ℕ → ℕ
ring_pop_copy threads ring start granted out i =
    if ltb i threads && ltb i granted then ring.buffer (add64 start i % ring.capacity) else out i

-- The threads of the copy's launch: blocks of 256, their number computed in `uint32_t`.
abbrev pub pop_threads : ℕ → ℕ
pop_threads n = (n + 256 + 2 ^ 32 - 1) % 2 ^ 32 / 256 * 256

-- `launch_ring_pop_parallel`
unfoldable pub launch_ring_pop_parallel : Ring → ℕ → (ℕ → ℕ) → Ring × (ℕ → ℕ) × ℕ
launch_ring_pop_parallel ring n out =
    let (ring', start, granted) = ring_pop_reserve ring n in
    if n == 0
    then (ring, out, 0)
    else (ring', ring_pop_copy (pop_threads n) ring' start granted out, granted)
