-- ===== src/ScatterGather/Admission.antt =====
-- EGAD/scatter_gather.cu: `transfer_versions` as one loop over the records, whatever its path.
use mathlib.Core.Path.{fun_ext}
use egad_code.Prelude.{
  ℕ, zero, suc, ◌+◌, ◌-◌, ◌*◌, ◌^◌, ◌≤◌, ◌<◌, ◌≡◌, refl, sym, ap, ◌∙◌, ltb, min, ◌==◌,
  if◌then◌else◌, arith, Bool, true, false, Bool-cases, inl, inr,
}
use egad_code.Prelude.Words.{absent, add64}
use egad_code.Prelude.Loops.{for_upto, for_range, for_upto-append, for_upto-congr}
use egad_code.Storage.{Record, update, select_a, slot_value, with_value}
use egad_code.Storage.Gpu.{Words}
use egad_code.ScatterGather.{
  Packed, Gathered, Records, gather_entry, memcpy_words, memcpy_array, slot_at,
  packed_versions_bytes, gather_host_versions_range,
}
use egad_code.ScatterGather.Copies.{scattered, launch_scatter_lem}
use egad_code.ScatterGather.Kernels.{launch_scatter}
use egad_code.ScatterGather.Transfer.{
  Stage, Transferred, other_buf, scatter_device_versions, transfer_whole, transfer_chunk,
  transfer_chunks, transfer_chunk_elems, transfer_versions,
}
use egad_code.ScatterGather.Chunks.{
  classify-eq-select_a, gather_host_versions_range_lem, gather_host_versions-eq-range,
}

-- What admission makes of the device's record: both versions of the host's record, and its value
-- from before the epoch in the slot where the host has it. Zeros for the sentinel.
unfoldable pub admitted : ℕ → Records → ℕ → ℕ → Record Words → Record Words
admitted val_words cpu crid epoch r =
    let c = cpu crid in
    let slot = select_a c epoch in
    if crid == absent
    then record r { version1 = 0; version2 = 0; value1 = memcpy_words val_words (λ _. 0) r.value1 }
    else with_value (record r { version1 = c.version1; version2 = c.version2 }) slot
        (memcpy_words val_words (slot_value c slot) (slot_value r slot))

-- One record of the batch.
abbrev pub admit : ℕ → Records → (ℕ → ℕ) → (ℕ → ℕ) → ℕ → ℕ → Records → Records
admit val_words cpu h_crids h_grids epoch i gpu =
    update gpu (h_grids i) (admitted val_words cpu (h_crids i) epoch (gpu (h_grids i)))

pub copied_in :
    {A : Type 0} (n : ℕ) (src dst : ℕ → A) (i : ℕ) → i < n → memcpy_array n src 0 dst i ≡ src i
copied_in n src dst i l =
    let inside : ltb i n ≡ true = ground arith in
    let e : 0 + i ≡ i = omega arith in rw inside (ap src e)

pub memcpy-memcpy :
    (n : ℕ) (src old dst : Words)
    → memcpy_words n (memcpy_words n src old) dst ≡ memcpy_words n src dst
memcpy-memcpy n src old dst = fun_ext λ j. ground arith

scattered-entry :
    (val_words : ℕ) (cpu : Records) (crid epoch : ℕ) (old : Packed) (r : Record Words)
    → let entry = gather_entry val_words cpu crid epoch old in
      scattered val_words entry.0 (slot_at entry.1) r ≡ admitted val_words cpu crid epoch r
unfolding gather_entry admitted
scattered-entry val_words cpu crid epoch old r = elim (Bool-cases (crid == absent)) [
  | inl none_there ↦ rw none_there (
      ap (λ v. record r { version1 = 0; version2 = 0; value1 = v })
        (memcpy-memcpy val_words (λ _. 0) old.value r.value1))
  | inr there ↦
      let c = cpu crid in
      rw (there, classify-eq-select_a c epoch)
        (ap
          (with_value (record r { version1 = c.version1; version2 = c.version2 })
            (select_a c epoch))
          (memcpy-memcpy val_words (slot_value c (select_a c epoch)) old.value
            (slot_value r (select_a c epoch))))
]

module _ (val_words : ℕ) (cpu : Records) (h_crids h_grids : ℕ → ℕ) (epoch : ℕ)
    (w : val_words + 32 ≤ 2 ^ 32) where
  abbrev admitting : ℕ → Records → Records
  admitting i = admit val_words cpu h_crids h_grids epoch i

  -- A launch on the gathered entries of a range, its grids and its slots.
  launched :
      (base n : ℕ) (packed olds : ℕ → Packed) (slots grids : ℕ → ℕ) (gpu : Records)
      → n + n + 256 ≤ 2 ^ 32
      → ((i : ℕ)
          → i < n
          → let entry = gather_entry val_words cpu (h_crids (base + i)) epoch (olds i) in
            (packed i ≡ entry.0) × (slots i ≡ entry.1) × (grids i ≡ h_grids (base + i)))
      → launch_scatter val_words packed grids slots gpu n ≡ for_range base n admitting gpu
  launched base n packed olds slots grids gpu fits holds =
      launch_scatter_lem val_words n w fits packed grids slots gpu
      ∙ for_upto-congr _ _ n gpu (λ i dst l.
        rw ((holds i l).0, (holds i l).1, (holds i l).2)
          (ap (update dst (h_grids (base + i))) (
            scattered-entry val_words cpu (h_crids (base + i)) epoch (olds i)
              (dst (h_grids (base + i))))))

  transfer_chunk_lem :
      (base m : ℕ) (st : Stage) (gpu : Records)
      → m + m + 256 ≤ 2 ^ 32
      → (transfer_chunk val_words cpu h_crids h_grids epoch base m st gpu).1
        ≡ for_range base m admitting gpu
  unfolding transfer_chunk
  transfer_chunk_lem base m st gpu fits =
      let out : Gathered = record { packed = st.h_packed_vers; prev_slots = st.h_prev_slots } in
      let g = gather_host_versions_range val_words cpu h_crids base m epoch out in
      launched base m (memcpy_array m g.packed 0 st.d_packed_vers) st.h_packed_vers
        (memcpy_array m g.prev_slots 0 st.d_prev_slots)
        (memcpy_array m (memcpy_array m h_grids base st.h_grids) 0 st.d_grids) gpu fits
        λ i l.
          let both = gather_host_versions_range_lem val_words cpu h_crids epoch base m out i l in
          (
            copied_in _ g.packed st.d_packed_vers i l ∙ both.0,
            copied_in _ g.prev_slots st.d_prev_slots i l ∙ both.1,
            ground arith,
          )

  -- The loop over chunks, from a chunk's start on.
  chunked :
      (fuel chunk_elems n base buf_idx : ℕ) (halves : ℕ → Stage) (gpu : Records)
      → 0 < chunk_elems
      → n ≤ base + fuel
      → base ≤ n
      → n + n + 256 ≤ 2 ^ 32
      → (transfer_chunks val_words cpu h_crids h_grids epoch fuel chunk_elems n base buf_idx halves
          (for_upto base admitting gpu)).1
        ≡ for_upto n admitting gpu
  unfolding transfer_chunks
  chunked zero chunk_elems n base buf_idx halves gpu p f b fits =
      let e : base ≡ n = omega arith in ap (λ t. for_upto t admitting gpu) e
  chunked (suc fuel) chunk_elems n base buf_idx halves gpu p f b fits =
      elim (Bool-cases (ltb base n)) [
        | inl inside ↦
            let l : base < n = ground arith in
            let m = min chunk_elems (n - base) in
            let one =
              transfer_chunk_lem base m (halves buf_idx) (for_upto base admitting gpu) (omega arith)
              ∙ sym (for_upto-append admitting base m (base + m) gpu refl) in
            rw (inside, one)
              (chunked fuel chunk_elems n (base + m) (other_buf buf_idx) _ gpu p (omega arith)
                (omega arith) fits)
        | inr outside ↦
            let e : base ≡ n = ground arith in rw outside (ap (λ t. for_upto t admitting gpu) e)
      ]

  transfer_whole_lem :
      (n : ℕ) (st : Stage) (gpu : Records)
      → n + n + 256 ≤ 2 ^ 32
      → (transfer_whole val_words cpu h_crids h_grids epoch n st gpu).1 ≡ for_upto n admitting gpu
  unfolding transfer_whole scatter_device_versions
  transfer_whole_lem n st gpu fits =
      let out : Gathered = record { packed = st.h_packed_vers; prev_slots = st.h_prev_slots } in
      let g = gather_host_versions_range val_words cpu h_crids 0 n epoch out in
      rw (gather_host_versions-eq-range val_words cpu h_crids epoch n out) (
        launched 0 n (memcpy_array n g.packed 0 st.d_packed_vers) st.h_packed_vers
          (memcpy_array n g.prev_slots 0 st.d_prev_slots) (memcpy_array n h_grids 0 st.d_grids) gpu
          fits
          (λ i l.
            let both = gather_host_versions_range_lem val_words cpu h_crids epoch 0 n out i l in
            (
              copied_in _ g.packed st.d_packed_vers i l ∙ both.0,
              copied_in _ g.prev_slots st.d_prev_slots i l ∙ both.1,
              ground arith,
            )))
      ∙ for_upto-congr _ admitting n gpu
          (λ i g l. let e : 0 + i ≡ i = omega arith in ap (λ t. admitting t g) e)

  transfer_chunk_elems-pos : (chunk_bytes n : ℕ) → 0 < transfer_chunk_elems val_words chunk_bytes n
  unfolding transfer_chunk_elems
  transfer_chunk_elems-pos chunk_bytes n = omega arith

  -- A batch of which twice the size and 256 fit 32 bits, with or without chunks, with either
  -- kernel, and whatever the buffers held before: the device's records become what admitting the
  -- batch's records one after the other makes them, and the bytes of the batch are counted.
  pub transfer_versions-eq-admit :
      (chunk_mode : Bool) (chunk_bytes n : ℕ) (sg : Transferred)
      → n + n + 256 ≤ 2 ^ 32
      → sg.admit_h2d_payload_bytes_total < 2 ^ 64
      → let sg' =
          transfer_versions val_words cpu h_crids h_grids epoch chunk_mode chunk_bytes n sg in
        (sg'.gpu ≡ for_upto n (admit val_words cpu h_crids h_grids epoch) sg.gpu)
        × (sg'.admit_h2d_payload_bytes_total
            ≡ add64 sg.admit_h2d_payload_bytes_total (n * packed_versions_bytes val_words))
  unfolding transfer_versions
  transfer_versions-eq-admit chunk_mode chunk_bytes zero sg fits small = (refl, omega arith)
  transfer_versions-eq-admit true chunk_bytes (suc n) sg fits small =
      let some_there : (suc n == 0) ≡ false = ground arith in
      rw some_there (
        chunked (suc n) (transfer_chunk_elems val_words chunk_bytes (suc n)) (suc n) 0 0 sg.halves
            sg.gpu (transfer_chunk_elems-pos chunk_bytes (suc n)) (omega arith) (omega arith) fits,
        refl,
      )
  transfer_versions-eq-admit false chunk_bytes (suc n) sg fits small =
      let some_there : (suc n == 0) ≡ false = ground arith in
      rw some_there (transfer_whole_lem (suc n) sg.whole sg.gpu fits, refl)
