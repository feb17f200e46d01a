-- ===== src/ScatterGather/Buffers.antt =====
-- EGAD/scatter_gather.h and EGAD/scatter_gather.cu: the buffers of a `ScatterGather`, how they grow
-- and how they are released.
--
-- A buffer is its size in bytes, `none` for a null pointer. Sizes stay below `2 ^ 64`, as those of
-- buffers in memory do. A free is a pointer that becomes null; which memory is still allocated is not
-- recorded. A stream is its handle, `fresh` the handle of one that is created.
use Prim.Native.Nat.{max}
use egad_code.Prelude.{
  ℕ, ◌+◌, ◌*◌, ◌/◌, Bool, true, false, Option, none, some, ltb, leb, ◌==◌, ◌||◌, if◌then◌else◌,
}
use egad_code.ScatterGather.{packed_versions_bytes, packed_writeback_bytes}

-- An array of two.
pub record Two (A : Type 0) : Type 0 where
  pub at0 : A
  pub at1 : A

abbrev pub both : {A : Type 0} → A → Two A
both a = record { at0 = a; at1 = a }

pub record Options : Type 0 where
  pub own_stream : Bool
  pub chunk_mode : Bool
  pub async_writeback : Bool
  pub chunk_bytes : ℕ

pub record Buffers : Type 0 where
  pub own_stream : Bool
  pub chunk_mode : Bool
  pub async_writeback : Bool
  pub chunk_bytes : ℕ
  pub stream : Option ℕ
  pub copy_stream : Option ℕ
  pub compute_stream : Option ℕ
  pub h2d_done : Two Bool
  pub d2h_done : Two Bool
  pub compute_done : Two Bool
  pub tx_in_flight : Two Bool
  pub wb_in_flight : Two Bool
  pub cap_grids_elems : ℕ
  pub d_grids_persistent : Option ℕ
  pub cap_vers_elems : ℕ
  pub h_packed_vers : Option ℕ
  pub d_packed_vers : Option ℕ
  pub cap_prev_slots_elems : ℕ
  pub h_prev_slots : Option ℕ
  pub chunk_cap_elems : ℕ
  pub d_grids_buf : Two (Option ℕ)
  pub h_grids_buf : Two (Option ℕ)
  pub chunk_ver_cap_elems : ℕ
  pub h_packed_vers_buf : Two (Option ℕ)
  pub d_packed_vers_buf : Two (Option ℕ)
  pub h_prev_slots_buf : Two (Option ℕ)
  pub d_prev_slots_buf : Two (Option ℕ)
  pub h_curr_slots_buf : Two (Option ℕ)
  pub d_curr_slots_buf : Two (Option ℕ)
  pub prev_slots_cap_elems : ℕ
  pub curr_slots_cap_elems : ℕ
  pub wb_d2h_chunk_cap : ℕ
  pub h_wb_d2h_buf : Two (Option ℕ)
  pub wb_d2h_initialized : Bool

-- The default constructor's state.
abbrev pub initial : Buffers
initial = record {
  own_stream = true;
  chunk_mode = false;
  async_writeback = false;
  chunk_bytes = 4194304;
  stream = none;
  copy_stream = none;
  compute_stream = none;
  h2d_done = both false;
  d2h_done = both false;
  compute_done = both false;
  tx_in_flight = both false;
  wb_in_flight = both false;
  cap_grids_elems = 0;
  d_grids_persistent = none;
  cap_vers_elems = 0;
  h_packed_vers = none;
  d_packed_vers = none;
  cap_prev_slots_elems = 0;
  h_prev_slots = none;
  chunk_cap_elems = 0;
  d_grids_buf = both none;
  h_grids_buf = both none;
  chunk_ver_cap_elems = 0;
  h_packed_vers_buf = both none;
  d_packed_vers_buf = both none;
  h_prev_slots_buf = both none;
  d_prev_slots_buf = both none;
  h_curr_slots_buf = both none;
  d_curr_slots_buf = both none;
  prev_slots_cap_elems = 0;
  curr_slots_cap_elems = 0;
  wb_d2h_chunk_cap = 0;
  h_wb_d2h_buf = both none;
  wb_d2h_initialized = false;
}

abbrev pub is_null : Option ℕ → Bool
is_null none = true
is_null (some a) = false

-- `if (p == nullptr) p = fresh;`
abbrev or_create : Option ℕ → ℕ → Option ℕ
or_create none fresh = some fresh
or_create (some h) fresh = some h

-- `init`, with the caller's stream and the handles of the three that it may create.
unfoldable pub init : Options → Option ℕ → Two ℕ → ℕ → Buffers → Buffers
init opt stream fresh own b =
    let owned = opt.own_stream || is_null stream in
    let b' = record b {
      own_stream = owned;
      chunk_mode = opt.chunk_mode;
      async_writeback = opt.async_writeback;
      chunk_bytes = if opt.chunk_bytes == 0 then 33554432 else opt.chunk_bytes;
      stream = if owned then or_create b.stream own else stream;
    } in
    if opt.chunk_mode
    then record b' {
      copy_stream = or_create b.copy_stream fresh.at0;
      compute_stream = or_create b.compute_stream fresh.at1;
      h2d_done = both true;
      d2h_done = both true;
      compute_done = both true;
      tx_in_flight = both false;
      wb_in_flight = both false;
    }
    else b'

unfoldable pub reset_chunk_buffers : Buffers → Buffers
reset_chunk_buffers b = record b {
  d_grids_buf = both none;
  h_grids_buf = both none;
  h2d_done = both false;
  d2h_done = both false;
  compute_done = both false;
  tx_in_flight = both false;
  wb_in_flight = both false;
  chunk_cap_elems = 0;
  copy_stream = none;
  compute_stream = none;
}

unfoldable pub reset_versions_buffers : Buffers → Buffers
reset_versions_buffers b = record b {
  h_packed_vers = none;
  d_packed_vers = none;
  h_prev_slots = none;
  cap_vers_elems = 0;
  cap_prev_slots_elems = 0;
  h_packed_vers_buf = both none;
  d_packed_vers_buf = both none;
  h_prev_slots_buf = both none;
  d_prev_slots_buf = both none;
  h_curr_slots_buf = both none;
  d_curr_slots_buf = both none;
  chunk_ver_cap_elems = 0;
  prev_slots_cap_elems = 0;
  curr_slots_cap_elems = 0;
}

unfoldable pub reset : Buffers → Buffers
unfolding reset_chunk_buffers reset_versions_buffers
reset b =
    let b1 = reset_versions_buffers (record b { d_grids_persistent = none; cap_grids_elems = 0 }) in
    let b2 = if b.chunk_mode then reset_chunk_buffers b1 else b1 in
    record b2 { stream = if b.own_stream then none else b.stream }

-- The grown capacity: half as much again, or `n` if that is more.
abbrev pub grown : ℕ → ℕ → ℕ
grown cap n =
    let new_cap = if cap == 0 then n else cap + cap / 2 in if ltb new_cap n then n else new_cap

unfoldable pub ensure_grids_capacity : ℕ → Buffers → Buffers
ensure_grids_capacity n b =
    let new_cap = grown b.cap_grids_elems n in
    if leb n b.cap_grids_elems
    then b
    else record b { d_grids_persistent = some (new_cap * 4); cap_grids_elems = new_cap }

unfoldable pub ensure_chunk_buffers : ℕ → Buffers → Buffers
ensure_chunk_buffers chunk_elems b =
    let grid_bytes = chunk_elems * 4 in
    if leb chunk_elems b.chunk_cap_elems then b else record b {
      d_grids_buf = both (some grid_bytes);
      h_grids_buf = both (some grid_bytes);
      chunk_cap_elems = chunk_elems;
      tx_in_flight = both false;
      wb_in_flight = both false;
    }

-- The device's slots buffer of the path without chunks, in `scatter_device_versions_`.
unfoldable pub ensure_prev_slots : ℕ → Buffers → Buffers
ensure_prev_slots n b =
    if is_null b.d_prev_slots_buf.at0 || ltb b.prev_slots_cap_elems n
    then record b {
      d_prev_slots_buf = record { at0 = some n; at1 = b.d_prev_slots_buf.at1 };
      prev_slots_cap_elems = n;
    }
    else b

-- The same for the writeback's, in `writeback_versions` and `wb_async_ensure`.
unfoldable pub ensure_curr_slots : ℕ → Buffers → Buffers
ensure_curr_slots n b =
    if is_null b.d_curr_slots_buf.at0 || ltb b.curr_slots_cap_elems n
    then record b {
      d_curr_slots_buf = record { at0 = some n; at1 = b.d_curr_slots_buf.at1 };
      curr_slots_cap_elems = n;
    }
    else b

module _ (val_words : ℕ) where
  unfoldable pub ensure_versions_capacity : ℕ → Buffers → Buffers
  ensure_versions_capacity n b =
      let new_cap = grown b.cap_vers_elems n in
      let total_bytes = new_cap * packed_versions_bytes val_words in
      let b' = record b {
        h_packed_vers = some total_bytes;
        d_packed_vers = some total_bytes;
        cap_vers_elems = new_cap;
      } in
      if leb n b.cap_vers_elems
      then b
      else if ltb b.cap_prev_slots_elems n
      then record b' { h_prev_slots = some n; cap_prev_slots_elems = n }
      else b'

  unfoldable pub ensure_versions_chunk_buffers : ℕ → Buffers → Buffers
  ensure_versions_chunk_buffers chunk_elems b =
      let vers_bytes = chunk_elems * packed_versions_bytes val_words in
      if leb chunk_elems b.chunk_ver_cap_elems then b else record b {
        h_packed_vers_buf = both (some vers_bytes);
        d_packed_vers_buf = both (some vers_bytes);
        h_prev_slots_buf = both (some chunk_elems);
        d_prev_slots_buf = both (some chunk_elems);
        h_curr_slots_buf = both (some chunk_elems);
        d_curr_slots_buf = both (some chunk_elems);
        chunk_ver_cap_elems = chunk_elems;
      }

  unfoldable pub wb_async_ensure : ℕ → Buffers → Buffers
  unfolding ensure_versions_capacity ensure_grids_capacity ensure_curr_slots
  wb_async_ensure n b = ensure_curr_slots n (ensure_grids_capacity n (ensure_versions_capacity n b))

  -- The first part of `wb_chunked_d2h_scatter`: its stream and events, and its two buffers.
  unfoldable pub ensure_wb_d2h : ℕ → Buffers → Buffers
  ensure_wb_d2h chunk_elems b =
      let new_cap = max chunk_elems (b.wb_d2h_chunk_cap + b.wb_d2h_chunk_cap / 2) in
      let b' = record b { wb_d2h_initialized = true } in
      if ltb b.wb_d2h_chunk_cap chunk_elems
      then record b' {
        h_wb_d2h_buf = both (some (new_cap * packed_writeback_bytes val_words));
        wb_d2h_chunk_cap = new_cap;
      }
      else b'
