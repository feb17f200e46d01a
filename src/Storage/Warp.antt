-- ===== src/Storage/Warp.antt =====
-- The cooperative calls of EGAD/gpu_storage.cuh against the calls of one thread.
use mathlib.Core.Path.{fun_ext}
use egad_code.Prelude.{
  ℕ, zero, suc, ◌+◌, ◌-◌, ◌*◌, ◌%◌, ◌≤◌, ◌<◌, ◌≡◌, ◌∙◌, leb, ltb, ◌&&◌, ◌==◌, if◌then◌else◌, arith,
}
use egad_code.Storage.Gpu.{
  Words, Device, lane_store, warp_store, thread_store, warp_rounds, gpu_write_to_table_coop,
  gpu_write_to_table_thread,
}

-- A thread stores its word at the `left` places from `offset + i` on.
thread_store_lem :
    (offset word left i : ℕ) (words : Words) (j : ℕ)
    → thread_store offset word left i words j
      ≡ (if leb (offset + i) j && ltb j (offset + i + left) then word else words j)
unfolding thread_store
thread_store_lem offset word zero i words j = ground arith
thread_store_lem offset word (suc left) i words j = ground (
  arith,
  thread_store_lem offset word left (i + 1) (λ k. if k == (offset + i) then word else words k) j,
)

-- A lane stores its word at the places of its residue from `base` on.
lane_store_lem :
    (offset length lane word rounds base : ℕ) (words : Words) (j : ℕ)
    → lane < 32
    → lane_store offset length lane word rounds base words j ≡ (
        if leb (offset + base) j
          && ltb j (offset + base + 32 * rounds)
          && ltb j (offset + length)
          && ((j - offset - base) % 32 == lane)
        then word
        else words j)
unfolding lane_store
lane_store_lem offset length lane word zero base words j h = ground arith
lane_store_lem offset length lane word (suc rounds) base words j h = ground (
  arith,
  lane_store_lem offset length lane word rounds (base + 32)
      (if ltb (lane + base) length
        then (λ k. if k == (offset + base + lane) then word else words k)
        else words)
      j h,
)

-- The first `lanes` lanes store all the words whose residue is below `lanes`.
warp_store_lem :
    (offset length : ℕ) (word : Words) (lanes : ℕ) (words : Words) (j : ℕ)
    → lanes ≤ 32
    → warp_store offset length word lanes words j ≡ (
        if leb offset j && ltb j (offset + length) && ltb ((j - offset) % 32) lanes
        then word ((j - offset) % 32)
        else words j)
unfolding warp_store
warp_store_lem offset length word zero words j h = ground arith
warp_store_lem offset length word (suc lanes) words j h =
    lane_store_lem offset length lanes (word lanes) (warp_rounds length) 0
      (warp_store offset length word lanes words) j h
    ∙ rw (warp_store_lem offset length word lanes words j (omega arith)) (ground arith)

warp_store-eq-thread_store :
    (offset length word : ℕ) (words : Words)
    → warp_store offset length (λ _. word) 32 words ≡ thread_store offset word length 0 words
warp_store-eq-thread_store offset length word words = fun_ext λ j. ground (
  arith,
  warp_store_lem offset length (λ _. word) 32 words j (omega arith),
  thread_store_lem offset word length 0 words j,
)

-- A warp in which every lane holds the same word writes what one thread writes with that word: the
-- same words of the same slot, the same version and the same dirty flag.
pub gpu_write_coop-eq-thread :
    (d : Device) (record_id write_loc epoch word offset length : ℕ)
    → gpu_write_to_table_coop d record_id write_loc epoch (λ _. word) offset length
      ≡ gpu_write_to_table_thread d record_id write_loc epoch word offset length
unfolding gpu_write_to_table_coop gpu_write_to_table_thread
gpu_write_coop-eq-thread d record_id write_loc epoch word offset length =
    simp (warp_store-eq-thread_store)
