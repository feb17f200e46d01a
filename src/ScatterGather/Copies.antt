-- ===== src/ScatterGather/Copies.antt =====
-- EGAD/scatter_gather.cu: what the copies of the kernels give, word by word, and the kernels by
-- warps against those by threads.
use mathlib.Core.Path.{fun_ext}
use egad_code.Prelude.{
  ℕ, zero, suc, ◌+◌, ◌-◌, ◌*◌, ◌/◌, ◌%◌, ◌^◌, ◌≤◌, ◌<◌, ◌≡◌, refl, ap, ◌∙◌, ltb, leb, ◌&&◌, ◌==◌,
  if◌then◌else◌, arith, Bool-cases, inl, inr, false,
}
use egad_code.Prelude.Words.{add32}
use egad_code.Prelude.Loops.{for_upto, stride_loop, grid_stride_lem, grid_guard_lem, for_upto-congr}
use egad_code.Storage.{Record, Slot, first, second, update, slot_version, slot_value, with_value}
use egad_code.Storage.Gpu.{Words}
use egad_code.ScatterGather.{Packed, Commit, Records, slot_at, memcpy_words}
use egad_code.ScatterGather.Kernels.{
  with_versions, copy_words, copy_words_lane, scatter_thread, scatter_lane, scatter_warp,
  pack_thread, pack_lane, pack_warp, k_scatter_versions, k_scatter_versions_warp, launch_scatter,
  k_pack_versions_by_grids, k_pack_versions_by_grids_warp, launch_pack,
}

module _ (src : Words) where
  abbrev store_word : ℕ → Words → Words
  store_word w d = update d w (src w)

  copied : (n : ℕ) (dst : Words) (j : ℕ) → for_upto n store_word dst j ≡ memcpy_words n src dst j
  unfolding for_upto
  copied zero dst j = ground arith
  copied (suc n) dst j = ground (arith, copied n dst j)

  -- The words that a strided loop of a lane copies.
  lane_copied :
      (fuel t n : ℕ) (dst : Words) (j : ℕ)
      → n + 32 ≤ 2 ^ 32
      → stride_loop fuel t 32 n store_word dst j ≡ (
          if leb t j && ltb j (t + 32 * fuel) && ltb j n && ((j - t) % 32 == 0)
          then src j
          else dst j)
  unfolding stride_loop
  lane_copied zero t n dst j w = ground arith
  lane_copied (suc fuel) t n dst j w = elim (Bool-cases (ltb t n)) [
    | inl inside ↦
        let next : add32 t 32 ≡ t + 32 = ground arith in
        let l : t < n = ground arith in
        let rest = lane_copied fuel (t + 32) n (store_word t dst) j w in
        rw (inside, next) (rest ∙ stored l)
    | inr outside ↦ let l : n ≤ t = ground arith in rw outside (ground arith)
  ]
    where
      stored :
          t < n
          → (if leb (t + 32) j
                && ltb j (t + 32 + 32 * fuel)
                && ltb j n
                && ((j - (t + 32)) % 32 == 0)
              then src j
              else store_word t dst j)
            ≡ (if leb t j && ltb j (t + 32 * suc fuel) && ltb j n && ((j - t) % 32 == 0)
                then src j
                else dst j)
      stored l = ground arith

copy_words_lem : (n : ℕ) (src dst : Words) → copy_words n src dst ≡ memcpy_words n src dst
unfolding copy_words
copy_words_lem n src dst = fun_ext λ j. copied src n dst j

copy_words_lane_lem :
    (n lane : ℕ) (src dst : Words) (j : ℕ)
    → lane < 32
    → n + 32 ≤ 2 ^ 32
    → copy_words_lane n src lane dst j ≡ (if ltb j n && (j % 32 == lane) then src j else dst j)
unfolding copy_words_lane
copy_words_lane_lem n lane src dst j l w = lane_copied src n lane n dst j w ∙ residue
  where
    residue :
        (if leb lane j && ltb j (lane + 32 * n) && ltb j n && ((j - lane) % 32 == 0)
          then src j
          else dst j)
        ≡ (if ltb j n && (j % 32 == lane) then src j else dst j)
    residue = ground arith

-- The first `lanes` lanes of a warp.
lanes_copied :
    (n lanes : ℕ) (src dst : Words) (j : ℕ)
    → lanes ≤ 32
    → n + 32 ≤ 2 ^ 32
    → for_upto lanes (copy_words_lane n src) dst j
      ≡ (if ltb j n && ltb (j % 32) lanes then src j else dst j)
unfolding for_upto
lanes_copied n zero src dst j l w = ground arith
lanes_copied n (suc lanes) src dst j l w =
    copy_words_lane_lem n lanes src (for_upto lanes (copy_words_lane n src) dst) j (omega arith) w
    ∙ rw (lanes_copied n lanes src dst j (omega arith) w) (ground arith)

warp_copied :
    (n : ℕ) (src dst : Words)
    → n + 32 ≤ 2 ^ 32
    → for_upto 32 (copy_words_lane n src) dst ≡ memcpy_words n src dst
warp_copied n src dst w = fun_ext λ j. ground (arith, lanes_copied n 32 src dst j (omega arith) w)

-- What a scatter makes of a record, and a pack of an entry.
abbrev pub scattered : ℕ → Packed → Slot → Record Words → Record Words
scattered n p slot r =
    with_value (with_versions r p) slot (memcpy_words n p.value (slot_value r slot))

abbrev pub packed_commit : ℕ → Record Words → Slot → Commit → Commit
packed_commit n r slot entry = record {
  version = slot_version r slot;
  value = memcpy_words n (slot_value r slot) entry.value;
}

scatter_thread_lem :
    (n : ℕ) (p : Packed) (slot : Slot) (r : Record Words)
    → scatter_thread n p slot r ≡ scattered n p slot r
unfolding scatter_thread
scatter_thread_lem n p first r =
    ap (with_value (with_versions r p) first) (copy_words_lem n p.value r.value1)
scatter_thread_lem n p second r =
    ap (with_value (with_versions r p) second) (copy_words_lem n p.value r.value2)

scatter_lanes :
    (n : ℕ) (p : Packed) (slot : Slot) (r : Record Words) (lanes : ℕ)
    → for_upto (suc lanes) (scatter_lane n p slot) r
      ≡ with_value
          (with_versions r p)
          slot
          (for_upto (suc lanes) (copy_words_lane n p.value) (slot_value r slot))
unfolding for_upto scatter_lane
scatter_lanes n p first r zero = refl
scatter_lanes n p second r zero = refl
scatter_lanes n p first r (suc lanes) =
    let later : (suc lanes == 0) ≡ false = ground arith in
    ap (scatter_lane n p first (suc lanes)) (scatter_lanes n p first r lanes) ∙ rw later refl
scatter_lanes n p second r (suc lanes) =
    let later : (suc lanes == 0) ≡ false = ground arith in
    ap (scatter_lane n p second (suc lanes)) (scatter_lanes n p second r lanes) ∙ rw later refl

scatter_warp_lem :
    (n : ℕ) (p : Packed) (slot : Slot) (r : Record Words)
    → n + 32 ≤ 2 ^ 32
    → scatter_warp n p slot r ≡ scattered n p slot r
unfolding scatter_warp
scatter_warp_lem n p slot r w =
    scatter_lanes n p slot r 31
    ∙ ap (with_value (with_versions r p) slot) (warp_copied n p.value (slot_value r slot) w)

pack_thread_lem :
    (n : ℕ) (r : Record Words) (slot : Slot) (entry : Commit)
    → pack_thread n r slot entry ≡ packed_commit n r slot entry
unfolding pack_thread
pack_thread_lem n r slot entry =
    ap (λ v. record { version = slot_version r slot; value = v })
      (copy_words_lem n (slot_value r slot) entry.value)

pack_lanes :
    (n : ℕ) (r : Record Words) (slot : Slot) (entry : Commit) (lanes : ℕ)
    → for_upto (suc lanes) (pack_lane n r slot) entry ≡ record {
      version = slot_version r slot;
      value = for_upto (suc lanes) (copy_words_lane n (slot_value r slot)) entry.value;
    }
unfolding for_upto pack_lane
pack_lanes n r slot entry zero = refl
pack_lanes n r slot entry (suc lanes) =
    let later : (suc lanes == 0) ≡ false = ground arith in
    ap (pack_lane n r slot (suc lanes)) (pack_lanes n r slot entry lanes) ∙ rw later refl

pack_warp_lem :
    (n : ℕ) (r : Record Words) (slot : Slot) (entry : Commit)
    → n + 32 ≤ 2 ^ 32
    → pack_warp n r slot entry ≡ packed_commit n r slot entry
unfolding pack_warp
pack_warp_lem n r slot entry w =
    pack_lanes n r slot entry 31
    ∙ ap (λ v. record { version = slot_version r slot; value = v })
        (warp_copied n (slot_value r slot) entry.value w)

module _ (val_words n : ℕ) (w : val_words + 32 ≤ 2 ^ 32) (fits : n + n + 256 ≤ 2 ^ 32) where
  -- Whichever kernel a launch picks, it does what a loop over the `n` entries does.
  pub launch_scatter_lem :
      (packed_vers : ℕ → Packed) (grids prev_slots : ℕ → ℕ) (gpu : Records)
      → launch_scatter val_words packed_vers grids prev_slots gpu n
        ≡ for_upto n
            (λ i dst.
              update dst
                (grids i)
                (scattered val_words (packed_vers i) (slot_at (prev_slots i)) (dst (grids i))))
            gpu
  unfolding launch_scatter k_scatter_versions k_scatter_versions_warp
  launch_scatter_lem packed_vers grids prev_slots gpu =
      let whole : n % 2 ^ 32 ≡ n = omega arith in
      elim (Bool-cases (leb 32 (4 * val_words))) [
        | inl large ↦
            rw (large, whole)
              (grid_stride_lem _ ((n + 8 - 1) / 8 * 8) n gpu (omega arith) (omega arith)
                ∙ for_upto-congr _ _ n gpu (λ i dst l. ap (update dst (grids i)) (
                    scatter_warp_lem val_words (packed_vers i) (slot_at (prev_slots i))
                      (dst (grids i)) w)))
        | inr small ↦
            rw (small, whole)
              (grid_guard_lem _ ((n + 256 - 1) / 256 * 256) n gpu (omega arith)
                ∙ for_upto-congr _ _ n gpu (λ i dst l. ap (update dst (grids i)) (
                    scatter_thread_lem val_words (packed_vers i) (slot_at (prev_slots i))
                      (dst (grids i)))))
      ]

  abbrev packing : Records → (ℕ → ℕ) → (ℕ → ℕ) → ℕ → (ℕ → Commit) → ℕ → Commit
  packing gpu grids curr_slots i out =
      update out i (packed_commit val_words (gpu (grids i)) (slot_at (curr_slots i)) (out i))

  by_threads :
      (threads : ℕ) (gpu : Records) (grids curr_slots : ℕ → ℕ) (out : ℕ → Commit)
      → n ≤ threads
      → n + threads ≤ 2 ^ 32
      → k_pack_versions_by_grids val_words threads gpu grids curr_slots out n
        ≡ for_upto n (packing gpu grids curr_slots) out
  unfolding k_pack_versions_by_grids
  by_threads threads gpu grids curr_slots out l f =
      grid_stride_lem _ threads n out l f
      ∙ for_upto-congr _ _ n out (λ i o l.
        ap (update o i) (pack_thread_lem val_words (gpu (grids i)) (slot_at (curr_slots i)) (o i)))

  by_warps :
      (warps : ℕ) (gpu : Records) (grids curr_slots : ℕ → ℕ) (out : ℕ → Commit)
      → n ≤ warps
      → n + warps ≤ 2 ^ 32
      → k_pack_versions_by_grids_warp val_words warps gpu grids curr_slots out n
        ≡ for_upto n (packing gpu grids curr_slots) out
  unfolding k_pack_versions_by_grids_warp
  by_warps warps gpu grids curr_slots out l f =
      grid_stride_lem _ warps n out l f
      ∙ for_upto-congr _ _ n out (λ i o l.
        ap (update o i) (pack_warp_lem val_words (gpu (grids i)) (slot_at (curr_slots i)) (o i) w))

  -- What both packs leave in the buffer.
  pub packed_all :
      (gpu : Records) (grids curr_slots : ℕ → ℕ) (out : ℕ → Commit) (k j : ℕ)
      → for_upto k (packing gpu grids curr_slots) out j ≡ (
          if ltb j k
          then packed_commit val_words (gpu (grids j)) (slot_at (curr_slots j)) (out j)
          else out j)
  unfolding for_upto
  packed_all gpu grids curr_slots out zero j = ground arith
  packed_all gpu grids curr_slots out (suc k) j =
      ground (arith, packed_all gpu grids curr_slots out k j)

  -- What a launch of either pack kernel leaves in the buffer.
  pub launch_pack_lem :
      (gpu : Records) (grids curr_slots : ℕ → ℕ) (out : ℕ → Commit) (j : ℕ)
      → launch_pack val_words gpu grids curr_slots out n j ≡ (
          if ltb j n
          then packed_commit val_words (gpu (grids j)) (slot_at (curr_slots j)) (out j)
          else out j)
  unfolding launch_pack
  launch_pack_lem gpu grids curr_slots out j =
      let whole : n % 2 ^ 32 ≡ n = omega arith in
      let all = packed_all gpu grids curr_slots out n j in
      elim (Bool-cases (leb 32 (4 * val_words))) [
        | inl large ↦
            rw (large, whole)
              (ap (λ f. f j)
                  (by_warps ((n + 8 - 1) / 8 * 8) gpu grids curr_slots out (omega arith)
                    (omega arith))
                ∙ all)
        | inr small ↦
            rw (small, whole)
              (ap (λ f. f j)
                  (by_threads ((n + 256 - 1) / 256 * 256) gpu grids curr_slots out (omega arith)
                    (omega arith))
                ∙ all)
      ]

  -- And the launch of `writeback_versions`, always by threads.
  pub pack_by_threads_lem :
      (gpu : Records) (grids curr_slots : ℕ → ℕ) (out : ℕ → Commit) (j : ℕ)
      → k_pack_versions_by_grids val_words
          ((n + 256 - 1) / 256 * 256)
          gpu
          grids
          curr_slots
          out
          (n % 2 ^ 32)
          j
        ≡ (if ltb j n
            then packed_commit val_words (gpu (grids j)) (slot_at (curr_slots j)) (out j)
            else out j)
  pack_by_threads_lem gpu grids curr_slots out j =
      let whole : n % 2 ^ 32 ≡ n = omega arith in
      rw whole (
        ap (λ f. f j)
          (by_threads ((n + 256 - 1) / 256 * 256) gpu grids curr_slots out (omega arith)
            (omega arith))
        ∙ packed_all gpu grids curr_slots out n j)
