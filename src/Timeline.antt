-- ===== src/Timeline.antt =====
-- EGAD/benchmarks/epoch_timeline.cuh: the resolution of an operation against the inserts and deletes of
-- its epoch, `TimelineView::resolve`, and the pass `k_walk` that marks them.
--
-- The view is the one that `build` leaves: the packed events in ascending order, and what stands beside
-- each. `PosBits` is `pos_bits`. The validation build's `order_blind` is left out.
pub mod Search
pub mod Serial
pub mod Marks
use Prim.Native.Nat.{bit_and, bit_or}
use egad_code.Prelude.{
  ℕ, zero, suc, ◌+◌, ◌-◌, ◌/◌, ◌^◌, Bool, true, false, ◌==◌, ◌&&◌, ◌||◌, not, ltb, leb,
  if◌then◌else◌,
}
use egad_code.Prelude.Words.{shl64, absent}

abbrev pub ev_insert : ℕ
ev_insert = 0

abbrev pub ev_delete : ℕ
ev_delete = 1

-- `packEvent`, `eventKey` and `eventPos`
abbrev pub pack_event : ℕ → ℕ → ℕ → ℕ
pack_event pos_bits key pos = bit_or (shl64 key pos_bits) pos

abbrev pub event_key : ℕ → ℕ → ℕ
event_key pos_bits packed = packed / 2 ^ pos_bits

abbrev pub event_pos : ℕ → ℕ → ℕ
event_pos pos_bits packed = bit_and packed (2 ^ pos_bits - 1)

-- `TimelineView`
pub record View : Type 0 where
  pub sorted : ℕ → ℕ
  pub entry : ℕ → ℕ
  pub event_type : ℕ → ℕ
  pub start : ℕ → ℕ
  pub entry_crid : ℕ → ℕ
  pub n : ℕ

-- The binary search of `resolve`: its first loop, at most `fuel` rounds.
unfoldable pub lower_bound : ℕ → (ℕ → ℕ) → ℕ → ℕ → ℕ → ℕ
lower_bound zero sorted probe lo hi = lo
lower_bound (suc fuel) sorted probe lo hi =
    let mid = lo + (hi - lo) / 2 in
    let below = ltb (sorted mid) probe in
    let rest =
      lower_bound fuel sorted probe (if below then mid + 1 else lo) (if below then hi else mid) in
    if ltb lo hi then rest else lo

-- The state of a key after the event at `j`.
abbrev pub apply_event : View → ℕ → ℕ → ℕ
apply_event v j state =
    if v.event_type j == ev_delete
    then absent
    else if state == absent
    then v.entry_crid (v.entry j)
    else state

module _ (pos_bits : ℕ) (v : View) where
  abbrev pub has_key : ℕ → ℕ → Bool
  has_key key j = event_key pos_bits (v.sorted j) == key

  -- `p > pos || (p == pos && entry[j] >= self_entry)`
  abbrev pub stops : ℕ → ℕ → ℕ → Bool
  stops pos self_entry j =
      let p = event_pos pos_bits (v.sorted j) in
      ltb pos p || (p == pos && leb self_entry (v.entry j))

  -- The second loop of `resolve`, from event `j` on.
  unfoldable pub walk : ℕ → ℕ → ℕ → ℕ → ℕ → ℕ → ℕ
  walk zero key pos self_entry j state = state
  walk (suc fuel) key pos self_entry j state =
      let rest = walk fuel key pos self_entry (j + 1) (apply_event v j state) in
      if ltb j v.n && has_key key j then if stops pos self_entry j then state else rest else state

  -- `TimelineView::resolve`; neither loop runs more than `n` rounds.
  unfoldable pub resolve : ℕ → ℕ → ℕ → Bool → ℕ → ℕ
  resolve key pos self_entry is_insert fallback =
      let lo = lower_bound v.n v.sorted (pack_event pos_bits key 0) 0 v.n in
      let state = walk v.n key pos self_entry lo (v.start lo) in
      if v.n == 0
      then fallback
      else if lo == v.n || not (has_key key lo)
      then fallback
      else if is_insert && state == absent
      then v.entry_crid self_entry
      else state

-- The two flag arrays of `k_walk`, by event in entry order.
pub record Flags : Type 0 where
  pub life_ev : ℕ → ℕ
  pub edel_ev : ℕ → ℕ

abbrev pub set_flag : (ℕ → ℕ) → ℕ → ℕ → ℕ
set_flag f i j = if j == i then 1 else f j

module _ (pos_bits : ℕ) (v : View) (s_orig : ℕ → ℕ) where
  -- One event: whether the key is live after it, and the flags.
  abbrev pub mark_event : ℕ → Bool → Flags → Bool × Flags
  mark_event j live flags =
      if v.event_type j == ev_delete
      then (
        false,
        if live then record flags { edel_ev = set_flag flags.edel_ev (s_orig j) } else flags,
      )
      else (
        true,
        if live then flags else record flags { life_ev = set_flag flags.life_ev (s_orig j) },
      )

  -- The loop of `k_walk` from event `j` on; it runs at most `n` rounds.
  unfoldable pub walk_flags : ℕ → ℕ → ℕ → Bool → Flags → Flags
  walk_flags zero key j live flags = flags
  walk_flags (suc fuel) key j live flags =
      let marked = mark_event j live flags in
      let rest = walk_flags fuel key (j + 1) marked.0 marked.1 in
      if ltb j v.n && has_key pos_bits v key j then rest else flags

  -- `k_walk`, the thread of event `i`.
  unfoldable pub k_walk_thread : ℕ → Flags → Flags
  k_walk_thread i flags =
      let key = event_key pos_bits (v.sorted i) in
      if ltb 0 i && has_key pos_bits v key (i - 1)
      then flags
      else walk_flags v.n key i (not (v.start i == absent)) flags

  -- `k_walk`, its first threads.
  unfoldable pub k_walk : ℕ → Flags → Flags
  k_walk zero flags = flags
  k_walk (suc i) flags = k_walk_thread i (k_walk i flags)
