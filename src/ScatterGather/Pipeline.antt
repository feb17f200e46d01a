-- ===== src/ScatterGather/Pipeline.antt =====
-- EGAD/scatter_gather.cu: the double-buffered `writeback_versions` as one loop over the records.
use mathlib.Core.Path.{fun_ext}
use Prim.Native.Nat.{max}
use egad_code.Prelude.{
  ℕ, zero, suc, ◌+◌, ◌-◌, ◌*◌, ◌/◌, ◌%◌, ◌^◌, ◌≤◌, ◌<◌, ◌≡◌, refl, sym, ap, ◌∙◌, ltb, min, ◌==◌,
  if◌then◌else◌, arith, Bool, true, false, not, ◌&&◌, Option, none, some, Bool-cases, inl, inr,
}
use egad_code.Prelude.Words.{absent, add64}
use egad_code.Prelude.Loops.{for_upto, for_range, for_upto-append, for_upto-congr}
use egad_code.Storage.{Record, Slot, update, slot_version, slot_value, with_value, with_version}
use egad_code.Storage.Gpu.{Words}
use egad_code.ScatterGather.{
  Commit, Records, memcpy_words, memcpy_array, slot_at, scatter_host_step, packed_writeback_bytes,
  scatter_host_versions_range_from_packed,
}
use egad_code.ScatterGather.Kernels.{k_pack_versions_by_grids}
use egad_code.ScatterGather.Copies.{packed_commit, pack_by_threads_lem}
use egad_code.ScatterGather.Admission.{memcpy-memcpy, copied_in}
use egad_code.ScatterGather.Transfer.{other_buf}
use egad_code.ScatterGather.Writeback.{
  Half, Pipe, scatter_host_versions_range_from_packed_async, scatter_chosen, pack_half,
  scatter_half, writeback_round, writeback_chunks, writeback_by_chunks, writeback_whole,
  writeback_versions,
}

-- What a writeback makes of the host's record: the device's version and value in the slot.
abbrev pub committed : ℕ → Slot → Record Words → Record Words → Record Words
committed n slot g r =
    with_version (with_value r slot (memcpy_words n (slot_value g slot) (slot_value r slot))) slot
      (slot_version g slot)

-- One record of the batch; the sentinel is skipped.
unfoldable pub commit : ℕ → Records → (ℕ → ℕ) → (ℕ → ℕ) → (ℕ → ℕ) → ℕ → Records → Records
commit val_words gpu h_grids h_crids h_curr_slots i cpu =
    if h_crids i == absent
    then cpu
    else update cpu (h_crids i)
        (committed val_words (slot_at (h_curr_slots i)) (gpu (h_grids i)) (cpu (h_crids i)))

pub update_same : {A : Type 0} (f : ℕ → A) (b : ℕ) (v : A) → update f b v b ≡ v
update_same f b v = ground arith

pub update_other :
    {A : Type 0} (f : ℕ → A) (b : ℕ) (v : A) → update f b v (other_buf b) ≡ f (other_buf b)
update_other f b v = ground arith

update_under : (f : ℕ → ℕ) (b v : ℕ) → update (update f b v) (other_buf b) 0 b ≡ v
update_under f b v = ground arith

module _ (val_words : ℕ) (h_grids h_crids h_curr_slots : ℕ → ℕ) (gpu : Records) where
  abbrev committing : ℕ → Records → Records
  committing = commit val_words gpu h_grids h_crids h_curr_slots

  -- Entry `i` of a buffer is the device's packed version for index `base + i`.
  pub Holds : (ℕ → Commit) → (ℕ → Commit) → ℕ → ℕ → Type 0
  Holds src old base n =
      (i : ℕ)
      → i < n
      → src i
        ≡ packed_commit val_words (gpu (h_grids (base + i))) (slot_at (h_curr_slots (base + i)))
            (old i)

  committed_entry :
      (slot : Slot) (g r : Record Words) (src old : Commit)
      → src ≡ packed_commit val_words g slot old
      → with_version
          (with_value r slot (memcpy_words val_words src.value (slot_value r slot)))
          slot
          src.version
        ≡ committed val_words slot g r
  committed_entry slot g r src old e = rw e (
      ap (λ v. with_version (with_value r slot v) slot (slot_version g slot))
        (memcpy-memcpy val_words (slot_value g slot) old.value (slot_value r slot)))

  -- The scatter of a buffer that holds the packed versions of a range commits the range.
  pub scatter_host_range_lem :
      (cpu : Records) (base n : ℕ) (src old : ℕ → Commit)
      → Holds src old base n
      → scatter_host_versions_range_from_packed val_words cpu h_crids h_curr_slots base n src
        ≡ for_range base n committing cpu
  unfolding scatter_host_versions_range_from_packed Holds scatter_host_step commit
  scatter_host_range_lem cpu base n src old holds = for_upto-congr _ _ n cpu λ i c l.
      let crid = h_crids (base + i) in
      ap (λ r. if crid == absent then c else update c crid r)
        (committed_entry (slot_at (h_curr_slots (base + i))) (gpu (h_grids (base + i))) (c crid)
          (src i) (old i) (holds i l))

  -- An array copied to the host's buffer from `base` on, and from there to the device's.
  copied_twice :
      (n base : ℕ) (src mid dst : ℕ → ℕ) (i : ℕ)
      → i < n
      → memcpy_array n (memcpy_array n src base mid) 0 dst i ≡ src (base + i)
  copied_twice n base src mid dst i l = ground arith

  -- A buffer packed by the kernel on lists of grids and slots that it reads from `base` on.
  packed-Holds :
      (w : val_words + 32 ≤ 2 ^ 32) (base m : ℕ) (grids slots : ℕ → ℕ) (old out : ℕ → Commit)
      → m + m + 256 ≤ 2 ^ 32
      → ((i : ℕ) → i < m → (grids i ≡ h_grids (base + i)) × (slots i ≡ h_curr_slots (base + i)))
      → Holds
          (memcpy_array m
            (k_pack_versions_by_grids val_words
              ((m + 256 - 1) / 256 * 256)
              gpu
              grids
              slots
              old
              (m % 2 ^ 32))
            0
            out)
          old
          base
          m
  unfolding Holds
  packed-Holds w base m grids slots old out fits same i l =
      let inside : ltb i m ≡ true = ground arith in
      copied_in m
        (k_pack_versions_by_grids val_words ((m + 256 - 1) / 256 * 256) gpu grids slots old
          (m % 2 ^ 32))
        out i l
      ∙ pack_by_threads_lem val_words m w fits gpu grids slots old i
      ∙ rw (inside, (same i l).0, (same i l).1) refl

  module _ (pinned async_writeback : Bool) (w : val_words + 32 ≤ 2 ^ 32)
      (runs : async_writeback && not pinned ≡ false) (cpu : Records) where
    abbrev packing : ℕ → ℕ → Half → Half
    packing = pack_half val_words pinned h_crids h_curr_slots async_writeback h_grids gpu

    abbrev scattering : ℕ → Pipe → Option Pipe
    scattering = scatter_half val_words pinned h_crids h_curr_slots async_writeback h_grids gpu

    pack_half-Holds :
        (base m : ℕ) (half : Half)
        → m + m + 256 ≤ 2 ^ 32
        → Holds (packing base m half).h_packed_vers half.d_packed_vers base m
    unfolding pack_half
    pack_half-Holds base m half fits =
        packed-Holds w base m _ _ half.d_packed_vers half.h_packed_vers fits λ i l. (
          copied_twice m base h_grids half.h_grids half.d_grids i l,
          copied_twice m base h_curr_slots half.h_curr_slots half.d_curr_slots i l,
        )

    -- Either scatter returns, since a thread can be pinned where one has to be.
    scatter_chosen_lem :
        (c : Records) (base n : ℕ) (src : ℕ → Commit)
        → scatter_chosen val_words pinned h_crids h_curr_slots async_writeback c base n src
          ≡ some
              (scatter_host_versions_range_from_packed val_words c h_crids h_curr_slots base n src)
    unfolding scatter_chosen scatter_host_versions_range_from_packed_async
        scatter_host_versions_range_from_packed
    scatter_chosen_lem c base n src = elim (Bool-cases async_writeback) [
      | inr sync ↦ rw sync refl
      | inl async ↦
          let can : pinned ≡ true = ground (arith, runs, async) in rw (async, can) (early n)
    ]
      where
        early :
            (n : ℕ)
            → (if n == 0
                then some c
                else some (
                    scatter_host_versions_range_from_packed val_words c h_crids h_curr_slots base n
                      src))
              ≡ some (
                  scatter_host_versions_range_from_packed val_words c h_crids h_curr_slots base n
                    src)
        early zero = refl
        early (suc k) = let more : (suc k == 0) ≡ false = ground arith in rw more refl

    -- Half `h` holds the packed versions from its base up to `base`, and the records before them
    -- are committed.
    record Loaded (pipe : Pipe) (h base : ℕ) : Type 0 where
      old : ℕ → Commit
      reaches : pipe.buf_base h + pipe.buf_len h ≡ base
      holds : Holds (pipe.halves h).h_packed_vers old (pipe.buf_base h) (pipe.buf_len h)
      done : pipe.cpu ≡ for_upto (pipe.buf_base h) committing cpu

    scatter_half_lem :
        (pipe : Pipe) (h base : ℕ)
        → Loaded pipe h base
        → (pipe' : Pipe) × (scattering h pipe ≡ some pipe')
          × (pipe'.cpu ≡ for_upto base committing cpu)
          × (pipe'.halves ≡ pipe.halves)
          × (pipe'.buf_base ≡ pipe.buf_base)
          × (pipe'.buf_len ≡ update pipe.buf_len h 0)
    unfolding scatter_half
    scatter_half_lem pipe h base at = elim (Bool-cases (pipe.buf_len h == 0)) [
      | inl empty ↦
          let e : pipe.buf_base h ≡ base = ground (arith, at.reaches) in
          let len : pipe.buf_len ≡ update pipe.buf_len h 0 = fun_ext λ b. ground arith in
          (pipe, rw empty refl, at.done ∙ ap (λ t. for_upto t committing cpu) e, refl, refl, len)
      | inr full ↦
          let scattered =
            scatter_host_range_lem pipe.cpu (pipe.buf_base h) (pipe.buf_len h)
              (pipe.halves h).h_packed_vers at.old at.holds in
          let all =
            scattered
            ∙ ap (for_range (pipe.buf_base h) (pipe.buf_len h) committing) at.done
            ∙ sym (
                for_upto-append committing (pipe.buf_base h) (pipe.buf_len h) base cpu
                  (sym at.reaches)) in
          (
            record pipe { buf_len = update pipe.buf_len h 0; cpu = for_upto base committing cpu },
            rw
                (
                  full,
                  scatter_chosen_lem pipe.cpu (pipe.buf_base h) (pipe.buf_len h)
                      (pipe.halves h).h_packed_vers,
                  all,
                )
                refl,
            refl,
            refl,
            refl,
            refl,
          )
    ]

    -- The loaded half is another one than the half that a round fills.
    refilled :
        (pipe : Pipe) (base m buf : ℕ)
        → Loaded pipe (other_buf buf) base
        → Loaded
            (record pipe {
              halves = update pipe.halves buf (packing base m (pipe.halves buf));
              buf_base = update pipe.buf_base buf base;
              buf_len = update pipe.buf_len buf m;
            })
            (other_buf buf)
            base
    refilled pipe base m buf at = record {
      old = at.old;
      reaches =
          rw (update_other pipe.buf_base buf base, update_other pipe.buf_len buf m) at.reaches;
      holds =
          rw
            (
              update_other pipe.buf_base buf base,
              update_other pipe.buf_len buf m,
              update_other pipe.halves buf (packing base m (pipe.halves buf)),
            )
            at.holds;
      done = rw (update_other pipe.buf_base buf base) at.done;
    }

    writeback_round_lem :
        (pipe : Pipe) (base m buf : ℕ)
        → m + m + 256 ≤ 2 ^ 32
        → Loaded pipe (other_buf buf) base
        → (pipe' : Pipe) × (writeback_round val_words pinned h_crids h_curr_slots async_writeback
              h_grids gpu base m buf pipe
            ≡ some pipe')
          × Loaded pipe' buf (base + m)
          × (pipe'.buf_len (other_buf buf) ≡ 0)
    unfolding writeback_round
    writeback_round_lem pipe base m buf fits at =
        let half = packing base m (pipe.halves buf) in
        let (pipe', runs', cpu', halves', bases', lens') =
          scatter_half_lem _ (other_buf buf) base (refilled pipe base m buf at) in
        let filled : pipe'.halves buf ≡ half =
          ap (λ f. f buf) halves' ∙ update_same pipe.halves buf half in
        let start : pipe'.buf_base buf ≡ base =
          ap (λ f. f buf) bases' ∙ update_same pipe.buf_base buf base in
        let len : pipe'.buf_len buf ≡ m = ap (λ f. f buf) lens' ∙ update_under pipe.buf_len buf m in
        (
          pipe',
          runs',
          record {
            old = (pipe.halves buf).d_packed_vers;
            reaches = rw (start, len) refl;
            holds = rw (start, len, filled) (pack_half-Holds base m (pipe.halves buf) fits);
            done = rw start cpu';
          },
          ap (λ f. f (other_buf buf)) lens'
              ∙ update_same (update pipe.buf_len buf m) (other_buf buf) 0,
        )

    writeback_chunks-next :
        (fuel chunk_elems n base buf : ℕ) (pipe pipe' : Pipe)
        → base < n
        → writeback_round val_words pinned h_crids h_curr_slots async_writeback h_grids gpu base
            (min chunk_elems (n - base))
            buf
            pipe
          ≡ some pipe'
        → writeback_chunks val_words pinned h_crids h_curr_slots async_writeback h_grids gpu
            (suc fuel)
            chunk_elems
            n
            base
            buf
            pipe
          ≡ writeback_chunks val_words pinned h_crids h_curr_slots async_writeback h_grids gpu fuel
              chunk_elems n
              (base + min chunk_elems (n - base))
              (other_buf buf)
              pipe'
    unfolding writeback_chunks
    writeback_chunks-next fuel chunk_elems n base buf pipe pipe' l e =
        let inside : ltb base n ≡ true = ground arith in rw (writeback_chunks, inside, e) refl

    -- The loop over chunks ends with one loaded half, and the other one empty.
    writeback_chunks_lem :
        (fuel chunk_elems n base buf : ℕ) (pipe : Pipe)
        → buf < 2
        → 0 < chunk_elems
        → n ≤ base + fuel
        → base ≤ n
        → n + n + 256 ≤ 2 ^ 32
        → Loaded pipe (other_buf buf) base
        → pipe.buf_len buf ≡ 0
        → (h : ℕ) × (pipe' : Pipe) × (writeback_chunks val_words pinned h_crids h_curr_slots
              async_writeback h_grids gpu fuel chunk_elems n base buf pipe
            ≡ some pipe')
          × (h < 2)
          × Loaded pipe' h n
          × (pipe'.buf_len (other_buf h) ≡ 0)
    unfolding writeback_chunks
    writeback_chunks_lem zero chunk_elems n base buf pipe b p f l fits at empty =
        let e : base ≡ n = omega arith in
        let back : other_buf (other_buf buf) ≡ buf = ground arith in
        let other : other_buf buf < 2 = ground arith in
        (other_buf buf, pipe, refl, other, rw (← e) at, rw back empty)
    writeback_chunks_lem (suc fuel) chunk_elems n base buf pipe b p f l fits at empty =
        let m = min chunk_elems (n - base) in
        let (pipe', runs', at', empty') = writeback_round_lem pipe base m buf (omega arith) at in
        let back : other_buf (other_buf buf) ≡ buf = ground arith in
        let other : other_buf buf < 2 = ground arith in
        elim (Bool-cases (ltb base n)) [
          | inl inside ↦
              let less : base < n = ground arith in
              let (h, last, ends, two, at'', empty'') =
                writeback_chunks_lem fuel chunk_elems n (base + m) (other_buf buf) pipe' other p
                  (omega arith) (omega arith) fits (rw back at') empty' in
              (
                h,
                last,
                writeback_chunks-next fuel chunk_elems n base buf pipe pipe' less runs' ∙ ends,
                two,
                at'',
                empty'',
              )
          | inr outside ↦
              let e : base ≡ n = ground arith in
              (
                other_buf buf,
                pipe,
                rw (writeback_chunks, outside) refl,
                other,
                rw (← e) at,
                rw back empty,
              )
        ]

    scatter_half-empty : (b : ℕ) (pipe : Pipe) → pipe.buf_len b ≡ 0 → scattering b pipe ≡ some pipe
    unfolding scatter_half
    scatter_half-empty b pipe e = rw e refl

    -- Scattering both halves in their order, when only one is loaded.
    drained :
        (h n : ℕ) (pipe : Pipe)
        → h < 2
        → Loaded pipe h n
        → pipe.buf_len (other_buf h) ≡ 0
        → (last : Pipe) × (elim (scattering 0 pipe) [
          | none ↦ none
          | some pipe' ↦ scattering 1 pipe'
        ]
            ≡ some last)
          × (last.cpu ≡ for_upto n committing cpu)
    drained zero n pipe l at empty =
        let (pipe', runs', cpu', halves', bases', lens') = scatter_half_lem pipe 0 n at in
        let other : pipe'.buf_len 1 ≡ 0 = ap (λ f. f 1) lens' ∙ empty in
        (pipe', rw runs' (scatter_half-empty 1 pipe' other), cpu')
    drained (suc zero) n pipe l at empty =
        let (pipe', runs', cpu', halves', bases', lens') = scatter_half_lem pipe 1 n at in
        (pipe', rw (scatter_half-empty 0 pipe empty) runs', cpu')
    drained (suc (suc h)) n pipe l at empty = absurd (omega arith)

    both_scattered :
        (chunk_elems n : ℕ) (halves : ℕ → Half) (pipe last : Pipe)
        → writeback_chunks val_words pinned h_crids h_curr_slots async_writeback h_grids gpu n
            chunk_elems n 0 0
            (record { halves = halves; buf_base = λ _. 0; buf_len = λ _. 0; cpu = cpu })
          ≡ some pipe
        → elim (scattering 0 pipe) [ none ↦ none | some pipe' ↦ scattering 1 pipe' ] ≡ some last
        → writeback_by_chunks val_words pinned h_crids h_curr_slots async_writeback h_grids gpu
            chunk_elems n halves cpu
          ≡ some last
    unfolding writeback_by_chunks
    both_scattered chunk_elems n halves pipe last ends drains =
        rw (writeback_by_chunks, ends) drains

    by_chunks :
        (chunk_elems n : ℕ) (halves : ℕ → Half)
        → 0 < chunk_elems
        → n + n + 256 ≤ 2 ^ 32
        → (last : Pipe) × (writeback_by_chunks val_words pinned h_crids h_curr_slots async_writeback
              h_grids gpu chunk_elems n halves cpu
            ≡ some last)
          × (last.cpu ≡ for_upto n committing cpu)
    unfolding Holds for_upto
    by_chunks chunk_elems n halves p fits =
        let start : Pipe = record {
          halves = halves;
          buf_base = λ _. 0;
          buf_len = λ _. 0;
          cpu = cpu;
        } in
        let (h, pipe, ends, l, at, empty) =
          writeback_chunks_lem n chunk_elems n 0 0 start (omega arith) p (omega arith) (omega arith)
            fits
            (record {
              old = λ _. (halves 1).h_packed_vers 0;
              reaches = refl;
              holds = λ i none_there. absurd (omega arith);
              done = refl;
            })
            refl in
        let (last, drains, cpu') = drained h n pipe l at empty in
        (last, both_scattered chunk_elems n halves pipe last ends drains, cpu')

    by_whole :
        (n : ℕ) (half : Half)
        → n + n + 256 ≤ 2 ^ 32
        → writeback_whole val_words pinned h_crids h_curr_slots async_writeback h_grids gpu n half
            cpu
          ≡ some (for_upto n committing cpu)
    unfolding writeback_whole
    by_whole n half fits =
        let at : (i : ℕ) → 0 + i ≡ i = λ i. omega arith in
        scatter_chosen_lem cpu 0 n _
        ∙ ap some (
            scatter_host_range_lem cpu 0 n _ half.d_packed_vers (
              packed-Holds w 0 n (memcpy_array n h_grids 0 half.d_grids)
                (memcpy_array n h_curr_slots 0 half.d_curr_slots) half.d_packed_vers
                half.h_packed_vers fits
                (λ i l. (
                  copied_in n h_grids half.d_grids i l ∙ ap h_grids (sym (at i)),
                  copied_in n h_curr_slots half.d_curr_slots i l ∙ ap h_curr_slots (sym (at i)),
                )))
            ∙ for_upto-congr _ committing n cpu (λ i c l. ap (λ t. committing t c) (at i)))

    -- A batch of which twice the size and 256 fit 32 bits, with or without chunks, and whatever the
    -- buffers held before, where a thread can be pinned if the scatter asks for it: the call
    -- returns, the host's records are what committing the batch's records one after the other
    -- makes them, and the bytes of the batch are counted.
    pub writeback_versions-eq-commit :
        (chunk_mode : Bool) (chunk_bytes n total : ℕ) (whole : Half) (halves : ℕ → Half)
        → n + n + 256 ≤ 2 ^ 32
        → total < 2 ^ 64
        → writeback_versions val_words pinned h_crids h_curr_slots async_writeback h_grids gpu
            chunk_mode chunk_bytes n whole halves total cpu
          ≡ some (
            add64 total (n * packed_writeback_bytes val_words),
            for_upto n (commit val_words gpu h_grids h_crids h_curr_slots) cpu,
          )
    unfolding writeback_versions for_upto
    writeback_versions-eq-commit chunk_mode chunk_bytes zero total whole halves fits small =
        let e : total ≡ add64 total (0 * packed_writeback_bytes val_words) = omega arith in
        ap (λ t. some (t, cpu)) e
    writeback_versions-eq-commit true chunk_bytes (suc n) total whole halves fits small =
        let more : (suc n == 0) ≡ false = ground arith in
        let chunk_elems = max 1 (chunk_bytes / packed_writeback_bytes val_words) in
        let (last, ends, cpu') = by_chunks chunk_elems (suc n) halves (omega arith) fits in
        rw (more, ends)
          (ap (λ c. some (add64 total (suc n * packed_writeback_bytes val_words), c)) cpu')
    writeback_versions-eq-commit false chunk_bytes (suc n) total whole halves fits small =
        let more : (suc n == 0) ≡ false = ground arith in
        rw (more, by_whole (suc n) whole fits) refl
