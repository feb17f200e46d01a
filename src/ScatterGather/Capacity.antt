-- ===== src/ScatterGather/Capacity.antt =====
-- EGAD/scatter_gather.cu: what the growth of the buffers guarantees, where it does not, and what
-- `reset` releases.
use Prim.Native.Nat.{max}
use native.Mathlib.Nat.{mul-le-mul, mul-div-le, mul-add-div, div-add-mod, mod-lt}
use egad_code.Prelude.{
  ℕ, ◌+◌, ◌*◌, ◌/◌, ◌≤◌, ◌<◌, ◌≡◌, ◌||◌, ◌⊎◌, inl, inr, refl, sym, ap, ◌∙◌, true, false, Option,
  none, some, ltb, leb, if◌then◌else◌, arith, Bool-cases, min, ◌-◌,
}
use egad_code.ScatterGather.{packed_versions_bytes, packed_writeback_bytes}
use egad_code.ScatterGather.Transfer.{transfer_chunk_elems}
use egad_code.ScatterGather.Writeback.{wb_chunk_elems}
use egad_code.ScatterGather.Buffers.{
  is_null, Two, both, Buffers, initial, grown, ensure_grids_capacity, ensure_chunk_buffers,
  ensure_curr_slots, ensure_versions_capacity, ensure_versions_chunk_buffers, wb_async_ensure,
}

abbrev pub size : Option ℕ → ℕ
size none = 0
size (some n) = n

-- No buffer of the paths without chunks is smaller than its capacity says.
pub record FitsWhole (val_words : ℕ) (b : Buffers) : Type 0 where
  pub grids : b.cap_grids_elems * 4 ≤ size b.d_grids_persistent
  pub packed_host : b.cap_vers_elems * packed_versions_bytes val_words ≤ size b.h_packed_vers
  pub packed_device : b.cap_vers_elems * packed_versions_bytes val_words ≤ size b.d_packed_vers
  pub slots_host : b.cap_prev_slots_elems ≤ size b.h_prev_slots
  pub slots : b.prev_slots_cap_elems ≤ size b.d_prev_slots_buf.at0
  pub current : b.curr_slots_cap_elems ≤ size b.d_curr_slots_buf.at0

ensure_versions_capacity-FitsWhole :
    (val_words n : ℕ) (b : Buffers)
    → FitsWhole val_words b
    → FitsWhole val_words (ensure_versions_capacity val_words n b)
      × (n ≤ (ensure_versions_capacity val_words n b).cap_vers_elems)
unfolding ensure_versions_capacity
ensure_versions_capacity-FitsWhole val_words n b f = elim (Bool-cases (leb n b.cap_vers_elems)) [
  | inl large ↦ rw large (f, ground arith)
  | inr small ↦ elim (Bool-cases (ltb b.cap_prev_slots_elems n)) [
    | inl few ↦
        rw (small, few)
          (
            record {
              grids = f.grids;
              packed_host = omega arith;
              packed_device = omega arith;
              slots_host = omega arith;
              slots = f.slots;
              current = f.current;
            },
            ground arith,
          )
    | inr more ↦
        rw (small, more)
          (
            record {
              grids = f.grids;
              packed_host = omega arith;
              packed_device = omega arith;
              slots_host = f.slots_host;
              slots = f.slots;
              current = f.current;
            },
            ground arith,
          )
  ]
]

ensure_grids_capacity-FitsWhole :
    (val_words n : ℕ) (b : Buffers)
    → FitsWhole val_words b
    → FitsWhole val_words (ensure_grids_capacity n b)
      × (n ≤ (ensure_grids_capacity n b).cap_grids_elems)
      × ((ensure_grids_capacity n b).cap_vers_elems ≡ b.cap_vers_elems)
unfolding ensure_grids_capacity
ensure_grids_capacity-FitsWhole val_words n b f = elim (Bool-cases (leb n b.cap_grids_elems)) [
  | inl large ↦ rw large (f, ground arith, refl)
  | inr small ↦ rw small (
    record {
      grids = omega arith;
      packed_host = f.packed_host;
      packed_device = f.packed_device;
      slots_host = f.slots_host;
      slots = f.slots;
      current = f.current;
    },
    ground arith,
    refl,
  )
]

ensure_curr_slots-FitsWhole :
    (val_words n : ℕ) (b : Buffers)
    → FitsWhole val_words b
    → FitsWhole val_words (ensure_curr_slots n b)
      × (n ≤ size (ensure_curr_slots n b).d_curr_slots_buf.at0)
      × ((ensure_curr_slots n b).cap_vers_elems ≡ b.cap_vers_elems)
      × ((ensure_curr_slots n b).cap_grids_elems ≡ b.cap_grids_elems)
unfolding ensure_curr_slots
ensure_curr_slots-FitsWhole val_words n b f =
    elim (Bool-cases (is_null b.d_curr_slots_buf.at0 || ltb b.curr_slots_cap_elems n)) [
      | inl small ↦ rw small (
        record {
          grids = f.grids;
          packed_host = f.packed_host;
          packed_device = f.packed_device;
          slots_host = f.slots_host;
          slots = f.slots;
          current = omega arith;
        },
        omega arith,
        refl,
        refl,
      )
      | inr large ↦
          let l : n ≤ size b.d_curr_slots_buf.at0 = ground (arith, f.current, large) in
          rw large (f, l, refl, refl)
    ]

-- With buffers that fit their capacities, `wb_async_ensure` keeps that, and makes room for `n`
-- entries: in the packed buffers of host and device, in the grids and in the current slots.
pub wb_async_ensure-FitsWhole :
    (val_words n : ℕ) (b : Buffers)
    → FitsWhole val_words b
    → let b' = wb_async_ensure val_words n b in
      FitsWhole val_words b'
      × (n * packed_versions_bytes val_words ≤ size b'.h_packed_vers)
      × (n * packed_versions_bytes val_words ≤ size b'.d_packed_vers)
      × (n * 4 ≤ size b'.d_grids_persistent)
      × (n ≤ size b'.d_curr_slots_buf.at0)
unfolding wb_async_ensure
wb_async_ensure-FitsWhole val_words n b f =
    let b1 = ensure_versions_capacity val_words n b in
    let b2 = ensure_grids_capacity n b1 in
    let (f1, room1) = ensure_versions_capacity-FitsWhole val_words n b f in
    let (f2, room2, same2) = ensure_grids_capacity-FitsWhole val_words n b1 f1 in
    let (f3, room3, vers3, grids3) = ensure_curr_slots-FitsWhole val_words n b2 f2 in
    let bytes = packed_versions_bytes val_words in
    let l : n ≤ (ensure_curr_slots n b2).cap_vers_elems = rw (vers3, same2) room1 in
    let product : n * bytes ≤ (ensure_curr_slots n b2).cap_vers_elems * bytes =
      mul-le-mul l (omega arith) in
    let places : n ≤ (ensure_curr_slots n b2).cap_grids_elems = rw grids3 room2 in
    let host = f3.packed_host in
    let device = f3.packed_device in
    let at = f3.grids in (f3, omega arith, omega arith, omega arith, room3)

slots_grow :
    (val_words n : ℕ) (b : Buffers)
    → b.cap_vers_elems < n
    → b.cap_prev_slots_elems < n
    → let b' = ensure_versions_capacity val_words n b in
      (b'.cap_vers_elems ≡ grown b.cap_vers_elems n)
      × (b'.cap_prev_slots_elems ≡ n)
      × (size b'.h_prev_slots ≡ n)
unfolding ensure_versions_capacity
slots_grow val_words n b small few =
    let over : leb n b.cap_vers_elems ≡ false = ground arith in
    let short : ltb b.cap_prev_slots_elems n ≡ true = ground arith in
    rw (over, short) (refl, refl, refl)

ensure_versions_capacity-kept :
    (val_words n : ℕ) (b : Buffers)
    → n ≤ b.cap_vers_elems
    → ensure_versions_capacity val_words n b ≡ b
unfolding ensure_versions_capacity
ensure_versions_capacity-kept val_words n b l =
    let large : leb n b.cap_vers_elems ≡ true = ground arith in rw large refl

-- The host's buffer of previous slots does not grow with the packed one: after `n` entries and then
-- one more, a batch of up to half as many again as `n` leaves it with `n + 1` bytes, fewer than the
-- batch has entries.
pub ensure_versions_capacity-slots_short :
    (val_words n m : ℕ)
    → 2 ≤ n
    → n + 1 < m
    → m ≤ n + n / 2
    → let b1 = ensure_versions_capacity val_words n initial in
      let b2 = ensure_versions_capacity val_words (n + 1) b1 in
      let b3 = ensure_versions_capacity val_words m b2 in
      (size b3.h_prev_slots ≡ n + 1) × (size b3.h_prev_slots < m) × (m ≤ b3.cap_vers_elems)
ensure_versions_capacity-slots_short val_words n m two more half =
    let b1 = ensure_versions_capacity val_words n initial in
    let b2 = ensure_versions_capacity val_words (n + 1) b1 in
    let (cap1, prev1, size1) = slots_grow val_words n initial (omega arith) (omega arith) in
    let vers1 : b1.cap_vers_elems ≡ n = cap1 ∙ ground arith in
    let (cap2, prev2, size2) = slots_grow val_words (n + 1) b1 (omega arith) (omega arith) in
    let vers2 : b2.cap_vers_elems ≡ n + n / 2 =
      cap2 ∙ ap (λ t. grown t (n + 1)) vers1 ∙ ground arith in
    let kept = ensure_versions_capacity-kept val_words m b2 (omega arith) in
    rw kept (size2, omega arith, omega arith)

abbrev pub AtLeast : ℕ → Two (Option ℕ) → Type 0
AtLeast n t = (n ≤ size t.at0) × (n ≤ size t.at1)

-- No half of a double buffer is smaller than its capacity says.
pub record FitsChunks (val_words : ℕ) (b : Buffers) : Type 0 where
  pub d_grids : AtLeast (b.chunk_cap_elems * 4) b.d_grids_buf
  pub h_grids : AtLeast (b.chunk_cap_elems * 4) b.h_grids_buf
  pub h_packed :
      AtLeast (b.chunk_ver_cap_elems * packed_versions_bytes val_words) b.h_packed_vers_buf
  pub d_packed :
      AtLeast (b.chunk_ver_cap_elems * packed_versions_bytes val_words) b.d_packed_vers_buf
  pub h_prev : AtLeast b.chunk_ver_cap_elems b.h_prev_slots_buf
  pub d_prev : AtLeast b.chunk_ver_cap_elems b.d_prev_slots_buf
  pub h_curr : AtLeast b.chunk_ver_cap_elems b.h_curr_slots_buf
  pub d_curr : AtLeast b.chunk_ver_cap_elems b.d_curr_slots_buf

ensure_versions_chunk_buffers-FitsChunks :
    (val_words n : ℕ) (b : Buffers)
    → FitsChunks val_words b
    → FitsChunks val_words (ensure_versions_chunk_buffers val_words n b)
      × (n ≤ (ensure_versions_chunk_buffers val_words n b).chunk_ver_cap_elems)
unfolding ensure_versions_chunk_buffers
ensure_versions_chunk_buffers-FitsChunks val_words n b f =
    let le : (k : ℕ) → k ≤ k = λ k. omega arith in
    elim (Bool-cases (leb n b.chunk_ver_cap_elems)) [
      | inl large ↦ rw large (f, ground arith)
      | inr small ↦ rw small (
        record {
          d_grids = f.d_grids;
          h_grids = f.h_grids;
          h_packed = (le _, le _);
          d_packed = (le _, le _);
          h_prev = (le n, le n);
          d_prev = (le n, le n);
          h_curr = (le n, le n);
          d_curr = (le n, le n);
        },
        le n,
      )
    ]

ensure_chunk_buffers-FitsChunks :
    (val_words n : ℕ) (b : Buffers)
    → FitsChunks val_words b
    → FitsChunks val_words (ensure_chunk_buffers n b)
      × (n ≤ (ensure_chunk_buffers n b).chunk_cap_elems)
      × ((ensure_chunk_buffers n b).chunk_ver_cap_elems ≡ b.chunk_ver_cap_elems)
unfolding ensure_chunk_buffers
ensure_chunk_buffers-FitsChunks val_words n b f =
    let le : (k : ℕ) → k ≤ k = λ k. omega arith in
    elim (Bool-cases (leb n b.chunk_cap_elems)) [
      | inl large ↦ rw large (f, ground arith, refl)
      | inr small ↦ rw small (
        record {
          d_grids = (le _, le _);
          h_grids = (le _, le _);
          h_packed = f.h_packed;
          d_packed = f.d_packed;
          h_prev = f.h_prev;
          d_prev = f.d_prev;
          h_curr = f.h_curr;
          d_curr = f.d_curr;
        },
        le n,
        refl,
      )
    ]

at_least-le : {m n : ℕ} (t : Two (Option ℕ)) → m ≤ n → AtLeast n t → AtLeast m t
at_least-le t l a = let (a0, a1) = a in (omega arith, omega arith)

-- With double buffers that fit their capacities, the two calls that grow them for chunks of
-- `chunk_elems` keep that, and both halves have room for the chunk of a round at any `base`: in the
-- packed buffers, the slots and the grids of host and device.
pub chunks_fit :
    (val_words chunk_elems base n : ℕ) (b : Buffers)
    → FitsChunks val_words b
    → let b' =
        ensure_chunk_buffers chunk_elems (ensure_versions_chunk_buffers val_words chunk_elems b) in
      let m = min chunk_elems (n - base) in
      FitsChunks val_words b'
      × AtLeast (m * packed_versions_bytes val_words) b'.h_packed_vers_buf
      × AtLeast (m * packed_versions_bytes val_words) b'.d_packed_vers_buf
      × AtLeast (m * packed_writeback_bytes val_words) b'.h_packed_vers_buf
      × AtLeast m b'.d_prev_slots_buf
      × AtLeast m b'.d_curr_slots_buf
      × AtLeast (m * 4) b'.h_grids_buf
      × AtLeast (m * 4) b'.d_grids_buf
chunks_fit val_words chunk_elems base n b f =
    let b1 = ensure_versions_chunk_buffers val_words chunk_elems b in
    let b2 = ensure_chunk_buffers chunk_elems b1 in
    let m = min chunk_elems (n - base) in
    let (f1, room1) = ensure_versions_chunk_buffers-FitsChunks val_words chunk_elems b f in
    let (f2, room2, same) = ensure_chunk_buffers-FitsChunks val_words chunk_elems b1 f1 in
    let bytes = packed_versions_bytes val_words in
    let slots : m ≤ b2.chunk_ver_cap_elems = rw same (omega arith) in
    let packed : m * bytes ≤ b2.chunk_ver_cap_elems * bytes = mul-le-mul slots (omega arith) in
    let less : m * packed_writeback_bytes val_words ≤ b2.chunk_ver_cap_elems * bytes =
      mul-le-mul slots (omega arith) in
    let grids : m * 4 ≤ b2.chunk_cap_elems * 4 = omega arith in
    (
      f2,
      at_least-le b2.h_packed_vers_buf packed f2.h_packed,
      at_least-le b2.d_packed_vers_buf packed f2.d_packed,
      at_least-le b2.h_packed_vers_buf less f2.h_packed,
      at_least-le b2.d_prev_slots_buf slots f2.d_prev,
      at_least-le b2.d_curr_slots_buf slots f2.d_curr,
      at_least-le b2.h_grids_buf grids f2.h_grids,
      at_least-le b2.d_grids_buf grids f2.d_grids,
    )

chunk_bound :
    (p e : ℕ) → 0 < p → e ≤ 33554432 → (p * max 1 (e / p) ≤ 33554432) ⊎ (max 1 (e / p) ≡ 1)
chunk_bound p e pos l = elim (Bool-cases (ltb 1 (e / p))) [
  | inl more ↦
      let larger : 1 < e / p = ground arith in
      let is : max 1 (e / p) ≡ e / p = omega arith in
      inl (rw is (let d = mul-div-le e p in omega arith))
  | inr few ↦ let smaller : e / p ≤ 1 = ground arith in inr (omega arith)
]

one_chunk : (p e n : ℕ) → 0 < p → n * p ≤ e → n ≤ e / p
one_chunk p e n pos l =
    let split : p * n + (e - n * p) ≡ e = omega arith in
    let d = mul-add-div pos n (e - n * p) ∙ refl in
    let q : e / p ≡ n + (e - n * p) / p = ap (λ t. t / p) (sym split) ∙ d in omega arith

in_chunks : (num k : ℕ) → 0 < k → k ≤ 64 → num ≤ 64 * max 1 ((num + k - 1) / k)
in_chunks num k pos most =
    let q = (num + k - 1) / k in
    let d = div-add-mod (num + k - 1) k in
    let r = mod-lt (num + k - 1) pos in
    let covered : num ≤ k * q = omega arith in
    let more : k * q ≤ 64 * max 1 q = mul-le-mul most (omega arith) in omega arith

-- A chunk of `transfer_versions` has at least one entry, and at most 32 MiB unless it is a single
-- entry; it has the whole batch, or as many entries as 32 MiB hold.
pub transfer_chunk_elems_lem :
    (val_words chunk_bytes n : ℕ)
    → let chunk_elems = transfer_chunk_elems val_words chunk_bytes n in
      (1 ≤ chunk_elems)
      × ((packed_versions_bytes val_words * chunk_elems ≤ 33554432) ⊎ (chunk_elems ≡ 1))
      × (min n (33554432 / packed_versions_bytes val_words) ≤ chunk_elems)
unfolding transfer_chunk_elems
transfer_chunk_elems_lem val_words chunk_bytes n =
    let p = packed_versions_bytes val_words in
    let e = min 33554432 (max chunk_bytes (min 33554432 (max 4194304 (n * p)))) in
    let k = min n (33554432 / p) in
    let by_n : k * p ≤ n * p = mul-le-mul {m₁ = p} (omega arith) (omega arith) in
    let by_limit : k * p ≤ 33554432 / p * p = mul-le-mul {m₁ = p} (omega arith) (omega arith) in
    let limit = mul-div-le 33554432 p in
    let fits : k * p ≤ e = omega arith in
    let all = one_chunk p e k (omega arith) fits in
    (omega arith, chunk_bound p e (omega arith) (omega arith), omega arith)

-- The chunks of `wb_chunked_d2h_scatter` are at most 64.
pub wb_chunk_elems_lem :
    (val_words num_records : ℕ)
    → (1 ≤ wb_chunk_elems val_words num_records)
      × (num_records ≤ 64 * wb_chunk_elems val_words num_records)
unfolding wb_chunk_elems
wb_chunk_elems_lem val_words num_records =
    let total = num_records * packed_writeback_bytes val_words in
    let chunks = (total + 6291456 - 1) / 6291456 in
    let at_least = if ltb chunks 1 then 1 else chunks in
    let k = if ltb 64 at_least then 64 else at_least in
    let pos : 0 < k = ground arith in
    let most : k ≤ 64 = ground arith in (omega arith, in_chunks num_records k pos most)

-- The pointers that `reset` frees in every mode are null.
pub record IsReleased (b : Buffers) : Type 0 where
  pub grids : b.d_grids_persistent ≡ none
  pub packed_host : b.h_packed_vers ≡ none
  pub packed_device : b.d_packed_vers ≡ none
  pub slots_host : b.h_prev_slots ≡ none
  pub packed_host_halves : b.h_packed_vers_buf ≡ both none
  pub packed_device_halves : b.d_packed_vers_buf ≡ both none
  pub prev_host_halves : b.h_prev_slots_buf ≡ both none
  pub prev_device_halves : b.d_prev_slots_buf ≡ both none
  pub curr_host_halves : b.h_curr_slots_buf ≡ both none
  pub curr_device_halves : b.d_curr_slots_buf ≡ both none
