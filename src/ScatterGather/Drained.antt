-- ===== src/ScatterGather/Drained.antt =====
-- EGAD/scatter_gather.cu: the chunks of `wb_chunked_d2h_scatter` as one scatter, and the flush in
-- phases as one loop over the records.
use mathlib.Core.Option
use egad_code.Prelude.{
  ℕ, zero, suc, ◌+◌, ◌-◌, ◌*◌, ◌^◌, ◌≤◌, ◌<◌, ◌≡◌, refl, sym, ap, ◌∙◌, ltb, min, ◌==◌,
  if◌then◌else◌, arith, true, false, Option, some, Bool-cases, inl, inr,
}
use egad_code.Prelude.Words.{add64, sub64}
use egad_code.Prelude.Loops.{for_upto, for_range, for_upto-append, for_upto-congr}
use egad_code.Storage.{update}
use egad_code.ScatterGather.{
  Commit, Records, memcpy_array, scatter_host_step, packed_writeback_bytes,
  scatter_host_versions_range_from_packed,
}
use egad_code.ScatterGather.Transfer.{other_buf}
use egad_code.ScatterGather.Writeback.{
  Drain, scatter_host_versions_range_from_packed_async, drain_round, drain_rounds, drain_all,
  wb_chunk_elems, wb_chunked_d2h_scatter,
}
use egad_code.ScatterGather.Pipeline.{update_other}

module _ (val_words : ℕ) (h_crids h_curr_slots : ℕ → ℕ) (d_packed_vers : ℕ → Commit)
    (start_record : ℕ) (cpu : Records) where
  -- The packed entries from the first record on, and the scatter of one of them.
  abbrev from_start : ℕ → Commit
  from_start i = d_packed_vers (start_record + i)

  abbrev scattering : ℕ → Records → Records
  scattering i = scatter_host_step val_words h_crids h_curr_slots from_start (start_record + i) i

  -- The scatter of a buffer that holds a chunk.
  scatter_chunk :
      (c : Records) (off m : ℕ) (buffer : ℕ → Commit)
      → ((i : ℕ) → i < m → buffer i ≡ d_packed_vers (start_record + off + i))
      → scatter_host_versions_range_from_packed val_words c h_crids h_curr_slots
          (start_record + off)
          m
          buffer
        ≡ for_range off m scattering c
  unfolding scatter_host_versions_range_from_packed scatter_host_step
  scatter_chunk c off m buffer holds = for_upto-congr _ _ m c λ i c' l.
      let e : start_record + off + i ≡ start_record + (off + i) = omega arith in
      rw (holds i l, e) refl

  scatter_pinned :
      (c : Records) (base n : ℕ) (src : ℕ → Commit)
      → scatter_host_versions_range_from_packed_async val_words true h_crids h_curr_slots c base n
          src
        ≡ some (scatter_host_versions_range_from_packed val_words c h_crids h_curr_slots base n src)
  unfolding scatter_host_versions_range_from_packed_async scatter_host_versions_range_from_packed
      for_upto
  scatter_pinned c base zero src = refl
  scatter_pinned c base (suc n) src = let more : (suc n == 0) ≡ false = ground arith in rw more refl

  -- The chunk that the last round copied ends at `offset`; the ones before it are scattered.
  record Draining (dr : Drain) (buf offset : ℕ) : Type 0 where
    off : ℕ
    later : dr.first_chunk ≡ false
    starts : dr.prev_abs_base ≡ start_record + off
    reaches : off + dr.prev_m ≡ offset
    elsewhere : dr.prev_buf ≡ other_buf buf
    holds :
        (i : ℕ)
        → i < dr.prev_m
        → dr.h_wb_d2h_buf dr.prev_buf i ≡ d_packed_vers (start_record + off + i)
    done : dr.cpu ≡ for_upto off scattering cpu

  -- The scatter of that chunk.
  scatter_last :
      (dr : Drain) (buf offset : ℕ)
      → Draining dr buf offset
      → scatter_host_versions_range_from_packed_async val_words true h_crids h_curr_slots dr.cpu
          dr.prev_abs_base dr.prev_m
          (dr.h_wb_d2h_buf dr.prev_buf)
        ≡ some (for_upto offset scattering cpu)
  scatter_last dr buf offset at = rw at.starts (
      scatter_pinned dr.cpu (start_record + at.off) dr.prev_m (dr.h_wb_d2h_buf dr.prev_buf)
      ∙ ap some (
          scatter_chunk dr.cpu at.off dr.prev_m (dr.h_wb_d2h_buf dr.prev_buf) at.holds
          ∙ ap (for_range at.off dr.prev_m scattering) at.done
          ∙ sym (for_upto-append scattering at.off dr.prev_m offset cpu (sym at.reaches))))

  -- The state after a round, with the records that the round leaves.
  abbrev after : ℕ → ℕ → ℕ → Drain → Records → Drain
  after offset m buf dr c = record {
    h_wb_d2h_buf =
        update dr.h_wb_d2h_buf buf
          (memcpy_array m d_packed_vers (start_record + offset) (dr.h_wb_d2h_buf buf));
    first_chunk = false;
    prev_abs_base = start_record + offset;
    prev_m = m;
    prev_buf = buf;
    cpu = c;
  }

  after-Draining :
      (offset m buf : ℕ) (dr : Drain)
      → buf < 2
      → Draining
          (after offset m buf dr (for_upto offset scattering cpu))
          (other_buf buf)
          (offset + m)
  after-Draining offset m buf dr two = record {
    off = offset;
    later = refl;
    starts = refl;
    reaches = refl;
    elsewhere = ground arith;
    holds = λ i l. ground arith;
    done = refl;
  }

  next_round :
      (offset m buf : ℕ) (dr : Drain)
      → buf < 2
      → Draining dr buf offset
      → drain_round val_words true h_crids h_curr_slots d_packed_vers
          (start_record + offset)
          m
          buf
          dr
        ≡ some (after offset m buf dr (for_upto offset scattering cpu))
  unfolding drain_round
  next_round offset m buf dr two at =
      let kept : update dr.h_wb_d2h_buf buf
            (memcpy_array m d_packed_vers (start_record + offset) (dr.h_wb_d2h_buf buf))
            (other_buf buf)
          ≡ dr.h_wb_d2h_buf (other_buf buf) =
        update_other dr.h_wb_d2h_buf buf _ in
      let last = scatter_last dr buf offset at in
      rw (at.later, at.elsewhere, kept, ← at.elsewhere, last) refl

  abbrev rounds : ℕ → ℕ → ℕ → ℕ → ℕ → Drain → Option Drain
  rounds fuel chunk_elems num offset buf dr =
      drain_rounds val_words true h_crids h_curr_slots d_packed_vers fuel chunk_elems start_record
        num offset buf dr

  rounds-next :
      (fuel chunk_elems num offset buf : ℕ) (dr dr' : Drain)
      → offset < num
      → drain_round val_words true h_crids h_curr_slots d_packed_vers
          (start_record + offset)
          (min chunk_elems (num - offset))
          buf
          dr
        ≡ some dr'
      → rounds (suc fuel) chunk_elems num offset buf dr
        ≡ rounds fuel chunk_elems num (offset + min chunk_elems (num - offset)) (other_buf buf) dr'
  unfolding drain_rounds
  rounds-next fuel chunk_elems num offset buf dr dr' l e =
      let inside : ltb offset num ≡ true = ground arith in rw (drain_rounds, inside, e) refl

  drain_rounds_lem :
      (fuel chunk_elems num offset buf : ℕ) (dr : Drain)
      → buf < 2
      → 0 < chunk_elems
      → num ≤ offset + fuel
      → offset ≤ num
      → Draining dr buf offset
      → (dr' : Drain) × (b : ℕ) × (rounds fuel chunk_elems num offset buf dr ≡ some dr')
        × Draining dr' b num
  unfolding drain_rounds
  drain_rounds_lem zero chunk_elems num offset buf dr two p f l at =
      let e : offset ≡ num = omega arith in (dr, buf, refl, rw (← e) at)
  drain_rounds_lem (suc fuel) chunk_elems num offset buf dr two p f l at =
      let m = min chunk_elems (num - offset) in
      let other : other_buf buf < 2 = ground arith in
      elim (Bool-cases (ltb offset num)) [
        | inl inside ↦
            let less : offset < num = ground arith in
            let dr1 = after offset m buf dr (for_upto offset scattering cpu) in
            let (dr', b, ends, at') =
              drain_rounds_lem fuel chunk_elems num (offset + m) (other_buf buf) dr1 other p
                (omega arith) (omega arith) (after-Draining offset m buf dr two) in
            (
              dr',
              b,
              rounds-next fuel chunk_elems num offset buf dr dr1 less
                    (next_round offset m buf dr two at)
                  ∙ ends,
              at',
            )
        | inr outside ↦
            let e : offset ≡ num = ground arith in
            (dr, buf, rw (drain_rounds, outside) refl, rw (← e) at)
      ]

  abbrev drain_start : (ℕ → ℕ → Commit) → Drain
  drain_start bufs = record {
    h_wb_d2h_buf = bufs;
    first_chunk = true;
    prev_abs_base = 0;
    prev_m = 0;
    prev_buf = 0;
    cpu = cpu;
  }

  first_round :
      (m : ℕ) (bufs : ℕ → ℕ → Commit)
      → drain_round val_words true h_crids h_curr_slots d_packed_vers
          (start_record + 0)
          m
          0
          (drain_start bufs)
        ≡ some (after 0 m 0 (drain_start bufs) (for_upto 0 scattering cpu))
  unfolding drain_round for_upto
  first_round m bufs = refl

  wb_chunk_elems-pos : (num : ℕ) → 0 < wb_chunk_elems val_words num
  unfolding wb_chunk_elems
  wb_chunk_elems-pos num = omega arith

  drain_all-last :
      (num : ℕ) (bufs : ℕ → ℕ → Commit) (dr : Drain)
      → rounds num (wb_chunk_elems val_words num) num 0 0 (drain_start bufs) ≡ some dr
      → drain_all val_words true h_crids h_curr_slots d_packed_vers start_record num bufs cpu
        ≡ scatter_host_versions_range_from_packed_async val_words true h_crids h_curr_slots dr.cpu
            dr.prev_abs_base dr.prev_m
            (dr.h_wb_d2h_buf dr.prev_buf)
  unfolding drain_all
  drain_all-last num bufs dr e = rw (drain_all, e) refl

  pub drain_all_lem :
      (num : ℕ) (bufs : ℕ → ℕ → Commit)
      → 0 < num
      → drain_all val_words true h_crids h_curr_slots d_packed_vers start_record num bufs cpu
        ≡ some (for_upto num scattering cpu)
  drain_all_lem zero bufs l = absurd (omega arith)
  drain_all_lem (suc k) bufs l =
      let chunk = wb_chunk_elems val_words (suc k) in
      let m = min chunk (suc k - 0) in
      let p = wb_chunk_elems-pos (suc k) in
      let dr1 = after 0 m 0 (drain_start bufs) (for_upto 0 scattering cpu) in
      let (dr, b, ends, at) =
        drain_rounds_lem k chunk (suc k) (0 + m) 1 dr1 (omega arith) p (omega arith) (omega arith)
          (after-Draining 0 m 0 (drain_start bufs) (omega arith)) in
      drain_all-last (suc k) bufs dr (
        rounds-next k chunk (suc k) 0 0 (drain_start bufs) dr1 (omega arith) (first_round m bufs)
        ∙ ends)
      ∙ scatter_last dr b (suc k) at

-- From a record of the batch on, where threads can be pinned: the call returns, the host's records
-- are what one scatter of the packed entries makes them (all of them when 0 are asked for), however
-- many chunks there are and whatever the host's buffers held, and their bytes are counted.
pub wb_chunked_d2h_scatter-eq-scatter :
    (val_words : ℕ) (h_crids h_curr_slots : ℕ → ℕ) (d_packed_vers : ℕ → Commit)
    (n start_record num_records total : ℕ) (bufs : ℕ → ℕ → Commit) (cpu : Records)
    → start_record ≤ n
    → n < 2 ^ 64
    → total < 2 ^ 64
    → let num = if num_records == 0 then n - start_record else num_records in
      wb_chunked_d2h_scatter val_words true h_crids h_curr_slots d_packed_vers n start_record
        num_records bufs total cpu
      ≡ some (
        add64 total (num * packed_writeback_bytes val_words),
        scatter_host_versions_range_from_packed val_words cpu h_crids h_curr_slots start_record num
            (λ i. d_packed_vers (start_record + i)),
      )
unfolding wb_chunked_d2h_scatter scatter_host_versions_range_from_packed for_upto
wb_chunked_d2h_scatter-eq-scatter val_words h_crids h_curr_slots d_packed_vers n start_record
      num_records total bufs cpu l small counts =
    let rest : sub64 n start_record ≡ n - start_record = omega arith in
    rw rest (go (if num_records == 0 then n - start_record else num_records))
  where
    go :
        (num : ℕ)
        → if◌then◌else◌ {A = Option (ℕ × Records)} (num == 0) (some (total, cpu)) (
            Option.map
              (λ c. (add64 total (num * packed_writeback_bytes val_words), c))
              (drain_all val_words true h_crids h_curr_slots d_packed_vers start_record num bufs
                cpu))
          ≡ some (
            add64 total (num * packed_writeback_bytes val_words),
            scatter_host_versions_range_from_packed val_words cpu h_crids h_curr_slots start_record
                num
                (λ i. d_packed_vers (start_record + i)),
          )
    go zero =
        let e : total ≡ add64 total (0 * packed_writeback_bytes val_words) = omega arith in
        ap (λ t. some (t, cpu)) e
    go (suc k) =
        let more : (suc k == 0) ≡ false = ground arith in
        rw
          (
            more,
            drain_all_lem val_words h_crids h_curr_slots d_packed_vers start_record cpu (suc k) bufs
                (omega arith),
          )
          refl
