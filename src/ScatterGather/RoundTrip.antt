-- ===== src/ScatterGather/RoundTrip.antt =====
-- EGAD/scatter_gather.cu with EGAD/storage.h: what a record's readers see after admission, and the
-- host's record after admission, a write on the device and writeback.
use egad_code.Prelude.{
  ℕ, zero, suc, ◌+◌, ◌*◌, ◌^◌, Bool, not, ◌&&◌, ◌≤◌, ◌<◌, ◌≡◌, ◌≢◌, refl, sym, ap, ◌∙◌, ◌==◌, arith,
  some, ne→==, ==_refl, true, false,
}
use native.Mathlib.Decide.{ℕ_discrete}
use egad_code.Prelude.Words.{absent, add64}
use egad_code.Prelude.Loops.{for_upto, for_upto-congr}
use egad_code.Storage.{
  Record, Table, Version, update, select_a, select_write, slot_value, loc_record_a, loc_record_b,
  read_from_table, write_to_table, with_value, with_version,
}
use egad_code.Storage.Gpu.{Words}
use egad_code.ScatterGather.{Records, slot_at, packed_writeback_bytes}
use egad_code.ScatterGather.Transfer.{Transferred, transfer_versions}
use egad_code.ScatterGather.Writeback.{Half, writeback_versions}
use egad_code.ScatterGather.Admission.{admitted, transfer_versions-eq-admit}
use egad_code.ScatterGather.Pipeline.{commit, committed, writeback_versions-eq-commit}

-- No two of the first `n` indices have the same record.
abbrev pub Distinct : ℕ → (ℕ → ℕ) → Type 0
Distinct n key = (i j : ℕ) → i < n → j < n → key i ≡ key j → i ≡ j

module _ {A : Type 0} (key : ℕ → ℕ) (f : ℕ → A → A) where
  abbrev rewriting : ℕ → (ℕ → A) → ℕ → A
  rewriting i s = update s (key i) (f i (s (key i)))

  untouched : (n k : ℕ) (s : ℕ → A) → ((i : ℕ) → i < n → key i ≢ k) → for_upto n rewriting s k ≡ s k
  unfolding for_upto
  untouched zero k s other = refl
  untouched (suc n) k s other =
      let miss : (k == key n) ≡ false = ne→== k (key n) (λ e. other n (omega arith) (sym e)) in
      rw miss (untouched n k s (λ i l. other i (omega arith)))

  -- A loop over distinct records rewrites each of them once.
  rewritten :
      (n j : ℕ) (s : ℕ → A)
      → Distinct n key
      → j < n
      → for_upto n rewriting s (key j) ≡ f j (s (key j))
  unfolding for_upto
  rewritten zero j s distinct l = absurd (omega arith)
  rewritten (suc n) j s distinct l =
      let others : (i : ℕ) → i < n → key i ≢ key n =
        λ i l' e'. let same = distinct i n (omega arith) (omega arith) e' in omega arith in
      let hit : (key n == key n) ≡ true = ==_refl (key n) in
      elim (ℕ_discrete j n) [
        | yes e ↦ rw (e, hit) (ap (f n) (untouched n (key n) s others))
        | no ne ↦
            let miss : (key j == key n) ≡ false =
              ne→== (key j) (key n) (λ e. ne (distinct j n l (omega arith) e)) in
            rw miss (
              rewritten n j s (λ i i' m m' e. distinct i i' (omega arith) (omega arith) e)
                (omega arith))
      ]

-- The value that a read of record A gives.
abbrev value_a : Record Words → ℕ → Words
value_a r epoch = slot_value r (select_a r epoch)

read_a :
    (t : Table Words) (record_id epoch : ℕ)
    → read_from_table t record_id loc_record_a epoch ≡ some (value_a (t.records record_id) epoch)
unfolding read_from_table select_a
read_a t record_id epoch = refl

-- An admitted record reads as the host's, in the words of a value.
admitted-value_a :
    (val_words epoch crid i : ℕ) (cpu : Records) (r : Record Words)
    → crid ≢ absent
    → i < val_words
    → value_a (admitted val_words cpu crid epoch r) epoch i ≡ value_a (cpu crid) epoch i
unfolding admitted select_a
admitted-value_a val_words epoch crid i cpu r there l =
    let b : (crid == absent) ≡ false = ne→== crid absent there in rw b (ground arith)

-- The record that a write to record B leaves.
abbrev written_b : Record Words → ℕ → Words → Record Words
written_b r epoch v = with_version (with_value r (select_write r) v) (select_write r) epoch

write_b :
    (t : Table Words) (record_id epoch : ℕ) (v : Words)
    → (write_to_table t record_id loc_record_b epoch v).records record_id
      ≡ written_b (t.records record_id) epoch v
unfolding write_to_table select_write
write_b t record_id epoch v =
    let hit : (record_id == record_id) ≡ true = ==_refl record_id in ground arith

-- Two records that agree in their versions and in the words of their values.
pub record Agree (val_words : ℕ) (r r' : Record Words) : Type 0 where
  pub version1 : r.version1 ≡ r'.version1
  pub version2 : r.version2 ≡ r'.version2
  pub value1 : (i : ℕ) → i < val_words → r.value1 i ≡ r'.value1 i
  pub value2 : (i : ℕ) → i < val_words → r.value2 i ≡ r'.value2 i

-- Admission, a write on the device and the commit of the slot that it wrote do to the host's record
-- what the write does to it on the host.
admitted-committed :
    (val_words epoch crid : ℕ) (cpu : Records) (r : Record Words) (v : Words)
    → crid ≢ absent
    → Agree val_words
        (committed val_words
          (select_write (cpu crid))
          (written_b (admitted val_words cpu crid epoch r) epoch v)
          (cpu crid))
        (written_b (cpu crid) epoch v)
unfolding admitted select_a select_write
admitted-committed val_words epoch crid cpu r v there =
    let b : (crid == absent) ≡ false = ne→== crid absent there in
    record {
      version1 = rw b (ground arith);
      version2 = rw b (ground arith);
      value1 = λ i l. rw b (ground arith);
      value2 = λ i l. rw b (ground arith);
    }

module _ (val_words : ℕ) (cpu : Records) (h_crids h_grids : ℕ → ℕ) (epoch n : ℕ)
    (w : val_words + 32 ≤ 2 ^ 32) (fits : n + n + 256 ≤ 2 ^ 32)
    (distinct_grids : Distinct n h_grids) (chunk_mode : Bool) (chunk_bytes : ℕ) (sg : Transferred)
    (counts : sg.admit_h2d_payload_bytes_total < 2 ^ 64) where
  -- The device's records after the batch's admission.
  abbrev admitted_gpu : Records
  admitted_gpu =
      (transfer_versions val_words cpu h_crids h_grids epoch chunk_mode chunk_bytes n sg).gpu

  one_admitted :
      (j : ℕ)
      → j < n
      → admitted_gpu (h_grids j) ≡ admitted val_words cpu (h_crids j) epoch (sg.gpu (h_grids j))
  one_admitted j l =
      ap (λ f. f (h_grids j))
        (transfer_versions-eq-admit val_words cpu h_crids h_grids epoch w chunk_mode chunk_bytes n
          sg fits counts).0
      ∙ rewritten h_grids (λ i r. admitted val_words cpu (h_crids i) epoch r) n j sg.gpu
          distinct_grids l

  -- After `transfer_versions` of a batch with distinct device places, by any path: in the epoch a
  -- read of record A at the device place of an index gives a value whose words are those that the
  -- read gives on the host for the record of that index.
  pub transfer_versions-read_a :
      (j : ℕ) (versions : ℕ → Version Words)
      → j < n
      → h_crids j ≢ absent
      → (v v' : Words) × (read_from_table
            (record { records = admitted_gpu; versions = versions })
            (h_grids j)
            loc_record_a
            epoch
          ≡ some v)
        × (read_from_table
              (record { records = cpu; versions = versions })
              (h_crids j)
              loc_record_a
              epoch
            ≡ some v')
        × ((i : ℕ) → i < val_words → v i ≡ v' i)
  transfer_versions-read_a j versions l there = (
    value_a (admitted_gpu (h_grids j)) epoch,
    value_a (cpu (h_crids j)) epoch,
    read_a (record { records = admitted_gpu; versions = versions }) (h_grids j) epoch,
    read_a (record { records = cpu; versions = versions }) (h_crids j) epoch,
    λ i m.
        ap (λ r. value_a r epoch i) (one_admitted j l)
        ∙ admitted-value_a val_words epoch (h_crids j) i cpu (sg.gpu (h_grids j)) there m,
  )

  module _ (distinct_crids : Distinct n h_crids) (there : (i : ℕ) → i < n → h_crids i ≢ absent)
      (value : ℕ → Words) (gpu : Records) (versions : ℕ → Version Words)
      (wrote : (i : ℕ)
        → i < n
        → gpu (h_grids i)
          ≡ (write_to_table
                (record { records = admitted_gpu; versions = versions })
                (h_grids i)
                loc_record_b
                epoch
                (value i)).records
              (h_grids i))
      (h_curr_slots : ℕ → ℕ)
      (current : (i : ℕ) → i < n → slot_at (h_curr_slots i) ≡ select_write (cpu (h_crids i)))
      (pinned async_writeback : Bool) (runs : async_writeback && not pinned ≡ false) where
    one_committed :
        (j : ℕ)
        → j < n
        → for_upto n (commit val_words gpu h_grids h_crids h_curr_slots) cpu (h_crids j)
          ≡ committed val_words (slot_at (h_curr_slots j)) (gpu (h_grids j)) (cpu (h_crids j))
    unfolding commit
    one_committed j l =
        ap (λ f. f (h_crids j))
          (for_upto-congr (commit val_words gpu h_grids h_crids h_curr_slots)
            (rewriting h_crids
              (λ i r. committed val_words (slot_at (h_curr_slots i)) (gpu (h_grids i)) r))
            n cpu
            (λ i c m.
              let b : (h_crids i == absent) ≡ false = ne→== (h_crids i) absent (there i m) in
              rw b refl))
        ∙ rewritten h_crids
            (λ i r. committed val_words (slot_at (h_curr_slots i)) (gpu (h_grids i)) r) n j cpu
            distinct_crids l

    same_slot :
        (j : ℕ) → j < n → select_write (admitted_gpu (h_grids j)) ≡ select_write (cpu (h_crids j))
    unfolding admitted select_write
    same_slot j l =
        let b : (h_crids j == absent) ≡ false = ne→== (h_crids j) absent (there j l) in
        ap select_write (one_admitted j l) ∙ rw b (ground arith)

    -- A batch with distinct host records and device places and no sentinel is admitted, the device
    -- writes record B of each record in the epoch, and `writeback_versions` is given the slots that
    -- were written: it returns, and each host record agrees in its versions and words with the
    -- record that the same write makes on the host.
    pub transfer-write-writeback :
        (wb_chunk_mode : Bool) (wb_chunk_bytes total : ℕ) (whole : Half) (halves : ℕ → Half)
        → total < 2 ^ 64
        → (cpu' : Records) × (writeback_versions val_words pinned h_crids h_curr_slots
              async_writeback h_grids gpu wb_chunk_mode wb_chunk_bytes n whole halves total cpu
            ≡ some (add64 total (n * packed_writeback_bytes val_words), cpu'))
          × ((j : ℕ)
              → j < n
              → Agree val_words (cpu' (h_crids j)) (
                  (write_to_table
                      (record { records = cpu; versions = versions })
                      (h_crids j)
                      loc_record_b
                      epoch
                      (value j)).records
                    (h_crids j)))
    transfer-write-writeback wb_chunk_mode wb_chunk_bytes total whole halves small = (
      for_upto n (commit val_words gpu h_grids h_crids h_curr_slots) cpu,
      writeback_versions-eq-commit val_words h_grids h_crids h_curr_slots gpu pinned async_writeback
          w runs cpu wb_chunk_mode wb_chunk_bytes n total whole halves fits small,
      λ j l.
          rw
            (
              one_committed j l,
              current j l,
              wrote j l,
              write_b (record { records = admitted_gpu; versions = versions }) (h_grids j) epoch
                  (value j),
              write_b (record { records = cpu; versions = versions }) (h_crids j) epoch (value j),
              one_admitted j l,
            )
            (admitted-committed val_words epoch (h_crids j) cpu (sg.gpu (h_grids j)) (value j)
              (there j l)),
    )
