-- ===== src/ScatterGather/Chunks.antt =====
-- EGAD/scatter_gather.cu: what the host's gather leaves in its buffers, in one loop, in a range, or
-- in blocks.
use Prim.Native.Nat.{max}
use egad_code.Prelude.{
  ◌/◌, ℕ, zero, suc, ◌+◌, ◌-◌, ◌≤◌, ◌<◌, ◌≡◌, refl, sym, ap, ◌∙◌, ltb, min, if◌then◌else◌, arith,
  Bool-cases, inl, inr, true, false,
}
use egad_code.Prelude.Loops.{for_upto, for_upto-append, for_upto-congr}
use egad_code.Storage.{Record, select_a}
use egad_code.Storage.Gpu.{Words}
use egad_code.ScatterGather.{
  Gathered, Records, gather_entry, gather_step, gather_host_versions_range, gather_blocks,
  gather_host_versions, packed_versions_bytes, classify_prev_slot_host, slot_at,
}

-- The host's slot is the one that the executor reads as record A.
pub classify-eq-select_a :
    (r : Record Words) (epoch : ℕ)
    → slot_at (classify_prev_slot_host r.version1 r.version2 epoch) ≡ select_a r epoch
unfolding classify_prev_slot_host select_a
classify-eq-select_a r epoch = ground arith

module _ (val_words : ℕ) (cpu : Records) (h_crids : ℕ → ℕ) (epoch : ℕ) where
  -- The gathered entries and slots of a range: entry `j` is the one of CRID `base + j`.
  ranged :
      (base n : ℕ) (out : Gathered) (j : ℕ)
      → let g = for_upto n (λ i. gather_step val_words cpu h_crids epoch (base + i) i) out in
        (g.packed j ≡ (
          if ltb j n
          then (gather_entry val_words cpu (h_crids (base + j)) epoch (out.packed j)).0
          else out.packed j))
        × (g.prev_slots j ≡ (
            if ltb j n
            then (gather_entry val_words cpu (h_crids (base + j)) epoch (out.packed j)).1
            else out.prev_slots j))
  unfolding for_upto gather_step
  ranged base zero out j = (ground arith, ground arith)
  ranged base (suc n) out j =
      let ih = ranged base n out j in
      let at = ranged base n out n in (ground (arith, ih, at), ground (arith, ih, at))

  pub gather_host_versions_range_lem :
      (base n : ℕ) (out : Gathered) (j : ℕ)
      → j < n
      → let g = gather_host_versions_range val_words cpu h_crids base n epoch out in
        let entry = gather_entry val_words cpu (h_crids (base + j)) epoch (out.packed j) in
        (g.packed j ≡ entry.0) × (g.prev_slots j ≡ entry.1)
  unfolding gather_host_versions_range
  gather_host_versions_range_lem base n out j l =
      let inside : ltb j n ≡ true = ground arith in
      let both = ranged base n out j in (both.0 ∙ rw inside refl, both.1 ∙ rw inside refl)

  abbrev gathering : ℕ → Gathered → Gathered
  gathering i = gather_step val_words cpu h_crids epoch i i

  blocks-done :
      (fuel chunk_elems n base : ℕ) (out : Gathered)
      → n ≤ base
      → gather_blocks val_words fuel chunk_elems cpu h_crids n epoch base out ≡ out
  unfolding gather_blocks
  blocks-done zero chunk_elems n base out l = refl
  blocks-done (suc fuel) chunk_elems n base out l =
      let over : ltb base n ≡ false = ground arith in rw over refl

  blocks :
      (fuel chunk_elems n base : ℕ) (out : Gathered)
      → 0 < chunk_elems
      → n ≤ base + fuel
      → base ≤ n
      → gather_blocks val_words fuel chunk_elems cpu h_crids n epoch base
          (for_upto base gathering out)
        ≡ for_upto n gathering out
  unfolding gather_blocks
  blocks zero chunk_elems n base out p f b =
      let e : base ≡ n = omega arith in ap (λ t. for_upto t gathering out) e
  blocks (suc fuel) chunk_elems n base out p f b = elim (Bool-cases (ltb base n)) [
    | inl inside ↦
        let l : base < n = ground arith in
        let size : min n (base + chunk_elems) ≡ base + (min n (base + chunk_elems) - base) =
          ground arith in
        let joined = sym (
          for_upto-append gathering base (min n (base + chunk_elems) - base)
            (min n (base + chunk_elems)) out size) in
        rw (inside, joined)
          (elim (Bool-cases (ltb n (base + chunk_elems))) [
            | inl last ↦
                let small : n ≤ base + chunk_elems = ground arith in
                let size' : min n (base + chunk_elems) ≡ n = omega arith in
                rw size' (
                  blocks-done fuel chunk_elems n (base + chunk_elems) (for_upto n gathering out)
                    small)
            | inr more ↦
                let small : base + chunk_elems ≤ n = ground arith in
                let size' : min n (base + chunk_elems) ≡ base + chunk_elems = omega arith in
                rw size' (blocks fuel chunk_elems n (base + chunk_elems) out p (omega arith) small)
          ])
    | inr outside ↦
        let e : base ≡ n = ground arith in rw outside (ap (λ t. for_upto t gathering out) e)
  ]

  -- Gathering in blocks is gathering the whole range.
  pub gather_host_versions-eq-range :
      (n : ℕ) (out : Gathered)
      → gather_host_versions val_words cpu h_crids n epoch out
        ≡ gather_host_versions_range val_words cpu h_crids 0 n epoch out
  unfolding gather_host_versions gather_host_versions_range
  gather_host_versions-eq-range n out =
      blocks n (max 1 (2097152 / packed_versions_bytes val_words)) n 0 out (omega arith)
        (omega arith) (omega arith)
      ∙ for_upto-congr gathering (λ i. gather_step val_words cpu h_crids epoch (0 + i) i) n out
          (λ i g l.
            let e : i ≡ 0 + i = omega arith in
            ap (λ t. gather_step val_words cpu h_crids epoch t i g) e)
