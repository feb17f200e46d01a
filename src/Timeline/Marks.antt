-- ===== src/Timeline/Marks.antt =====
-- The flags of `k_walk` in EGAD/benchmarks/epoch_timeline.cuh: which inserts create a life and which deletes
-- end one.
use native.Mathlib.Decide.{ℕ_discrete, dec_lt}
use egad_code.Prelude.{
  ℕ, zero, suc, ◌+◌, ◌-◌, ◌≤◌, ◌<◌, ◌≡◌, ◌≢◌, refl, sym, ◌∙◌, ap, Bool, true, false, not, ◌==◌,
  ◌&&◌, ◌||◌, ltb, leb, if◌then◌else◌, arith, Bool-cases, ==→eq, inl, inr,
}
use egad_code.Prelude.Words.{absent}
use egad_code.Timeline.{
  View, Flags, event_key, has_key, ev_delete, mark_event, walk_flags, k_walk_thread, k_walk,
}
use egad_code.Timeline.Serial.{IsTimeline, keys_le}

-- Each event has a place of its own in the entry order.
abbrev pub IsPlaced : View → (ℕ → ℕ) → Type 0
IsPlaced v s_orig = (i j : ℕ) → i < v.n → j < v.n → s_orig i ≡ s_orig j → i ≡ j

-- Whether the key is live after its events among the first `m`: the last of them says so.
unfoldable pub live_before : ℕ → View → ℕ → Bool → ℕ → Bool
live_before pos_bits v key live zero = live
live_before pos_bits v key live (suc j) =
    let before = live_before pos_bits v key live j in
    if has_key pos_bits v key j then not (v.event_type j == ev_delete) else before

-- The two flags of an event on a key that is live before it or not.
abbrev pub ends_life : View → ℕ → Bool → ℕ
ends_life v j live = if v.event_type j == ev_delete && live then 1 else 0

abbrev pub creates_life : View → ℕ → Bool → ℕ
creates_life v j live = if not (v.event_type j == ev_delete) && not live then 1 else 0

-- The flags of event `i` are set as its place among the events asks, if `set` says that its key's thread has
-- run, and are as they were otherwise.
abbrev IsMarked : View → (ℕ → ℕ) → ℕ → Bool → Bool → Flags → Flags → Type 0
IsMarked v s_orig i live set old new =
    (new.edel_ev (s_orig i)
      ≡ (if set && (v.event_type i == ev_delete && live) then 1 else old.edel_ev (s_orig i)))
    × (new.life_ev (s_orig i) ≡ (
        if set && (not (v.event_type i == ev_delete) && not live)
        then 1
        else old.life_ev (s_orig i)))

module _ (pos_bits : ℕ) (v : View) (s_orig : ℕ → ℕ) (timeline : IsTimeline pos_bits v)
    (placed : IsPlaced v s_orig) where
  mark_event-IsMarked :
      (i j : ℕ) (live : Bool) (flags : Flags)
      → i < v.n
      → j < v.n
      → IsMarked v s_orig i live (j == i) flags ((mark_event pos_bits v s_orig j live flags).1)
  mark_event-IsMarked i j live flags p q = elim (ℕ_discrete j i) [
    | yes e ↦ rw e (ground arith, ground arith)
    | no ne ↦
        let apart : s_orig i ≢ s_orig j = λ e. ne (sym (placed i j p q e)) in
        (ground arith, ground arith)
  ]

  walk_flags-IsMarked :
      (key : ℕ) (start : Bool) (fuel j : ℕ) (live : Bool) (flags : Flags) (i : ℕ)
      → v.n ≤ j + fuel
      → ((k : ℕ) → j ≤ k → k < v.n → key ≤ event_key pos_bits (v.sorted k))
      → live ≡ live_before pos_bits v key start j
      → i < v.n
      → IsMarked v s_orig i
          (live_before pos_bits v key start i)
          (leb j i && has_key pos_bits v key i)
          flags
          (walk_flags pos_bits v s_orig fuel key j live flags)
  unfolding walk_flags live_before
  walk_flags-IsMarked key start zero j live flags i enough least e p = (ground arith, ground arith)
  walk_flags-IsMarked key start (suc fuel) j live flags i enough least e p =
      elim (Bool-cases (ltb j v.n && has_key pos_bits v key j)) [
        | inr off ↦
            let none : (leb j i && has_key pos_bits v key i) ≡ false = elim (dec_lt i j) [
              | yes before ↦ ground arith
              | no after ↦ ground (
                arith,
                least j (omega arith) (omega arith),
                keys_le pos_bits v timeline key 0 0 j i (omega arith) p,
              )
            ] in
            rw (walk_flags, off, none) (refl, refl)
        | inl on ↦
            let marked = mark_event pos_bits v s_orig j live flags in
            let (edel, life) =
              walk_flags-IsMarked key start fuel (j + 1) marked.0 marked.1 i (omega arith)
                (λ k l. least k (omega arith)) (ground arith) p in
            let (edel', life') = mark_event-IsMarked i j live flags p (ground arith) in
            rw (walk_flags, on)
              (elim (ℕ_discrete j i) [
                | yes same ↦
                    let now : live_before pos_bits v key start i ≡ live =
                      ap (λ t. live_before pos_bits v key start t) (sym same) ∙ sym e in
                    let found : (ltb i v.n && has_key pos_bits v key i) ≡ true =
                      ap (λ t. ltb t v.n && has_key pos_bits v key t) (sym same) ∙ on in
                    (
                      ground (arith, edel, edel', now, found),
                      ground (arith, life, life', now, found),
                    )
                | no differ ↦ (ground (arith, edel, edel'), ground (arith, life, life'))
              ])
      ]

  -- Some event of the key is among the first `m`.
  unfoldable seen : ℕ → ℕ → Bool
  seen key zero = false
  seen key (suc m) = has_key pos_bits v key m || seen key m

  seen-event :
      (key m : ℕ) → seen key m ≡ true → (j : ℕ) × (j < m) × (event_key pos_bits (v.sorted j) ≡ key)
  unfolding seen
  seen-event key zero e = absurd (ground arith)
  seen-event key (suc m) e = elim (Bool-cases (has_key pos_bits v key m)) [
    | inl b ↦ (m, omega arith, ==→eq _ key b)
    | inr b ↦ let (j, l, k) = seen-event key m (ground arith) in (j, omega arith, k)
  ]

  live_before-unseen :
      (key : ℕ) (live : Bool) (m : ℕ)
      → seen key m ≡ false
      → live_before pos_bits v key live m ≡ live
  unfolding seen live_before
  live_before-unseen key live zero e = refl
  live_before-unseen key live (suc m) e = ground (arith, live_before-unseen key live m)

  -- A key that was seen before an event of it was seen in the event just before.
  seen-last :
      (key m : ℕ)
      → m < v.n
      → event_key pos_bits (v.sorted m) ≡ key
      → seen key m ≡ true
      → (ltb 0 m && has_key pos_bits v key (m - 1)) ≡ true
  unfolding seen
  seen-last key zero h k e = ground arith
  seen-last key (suc m) h k e =
      let (j, l, kj) = seen-event key (suc m) e in
      let at : event_key pos_bits (v.sorted m) ≡ key = omega (
        arith,
        keys_le pos_bits v timeline key 0 0 j m (omega arith) (omega arith),
        keys_le pos_bits v timeline key 0 0 m (suc m) (omega arith) h,
      ) in
      ground arith

  seen-here : (key j m : ℕ) → j < m → event_key pos_bits (v.sorted j) ≡ key → seen key m ≡ true
  unfolding seen
  seen-here key j zero h k = absurd (omega arith)
  seen-here key j (suc m) h k = ground (arith, seen-here key j m)

  unseen :
      (key m : ℕ)
      → m < v.n
      → event_key pos_bits (v.sorted m) ≡ key
      → (ltb 0 m && has_key pos_bits v key (m - 1)) ≡ false
      → seen key m ≡ false
  unseen key m h k b = elim (Bool-cases (seen key m)) [
    | inl t ↦ absurd (ground (arith, seen-last key m h k t))
    | inr f ↦ f
  ]

  -- After the first `m` threads the events of the keys seen so far are marked.
  k_walk-IsMarked :
      (flags : Flags) (m i : ℕ)
      → m ≤ v.n
      → i < v.n
      → let key = event_key pos_bits (v.sorted i) in
        IsMarked v s_orig i
          (live_before pos_bits v key (not (v.start i == absent)) i)
          (seen key m)
          flags
          (k_walk pos_bits v s_orig m flags)
  unfolding k_walk k_walk_thread seen
  k_walk-IsMarked flags zero i h p = (refl, refl)
  k_walk-IsMarked flags (suc m) i h p =
      let key_m = event_key pos_bits (v.sorted m) in
      let key_i = event_key pos_bits (v.sorted i) in
      let old = k_walk pos_bits v s_orig m flags in
      let (edel, life) = k_walk-IsMarked flags m i (omega arith) p in
      elim (Bool-cases (ltb 0 m && has_key pos_bits v key_m (m - 1))) [
        | inl b ↦
            let here : 0 < m = ground arith in
            let last : event_key pos_bits (v.sorted (m - 1)) ≡ key_m = ground arith in
            let known : key_m ≡ key_i → seen key_i m ≡ true =
              λ e. seen-here key_i (m - 1) m (omega arith) (last ∙ e) in
            rw (k_walk_thread, b) (ground (arith, edel, known), ground (arith, life, known))
        | inr b ↦
            let start = not (v.start m == absent) in
            let fresh : seen key_m m ≡ false = unseen key_m m h refl b in
            let (edel', life') =
              walk_flags-IsMarked key_m start v.n m start old i (omega arith)
                (λ k l q. keys_le pos_bits v timeline key_m 0 0 m k l q)
                (sym (live_before-unseen key_m start m fresh)) p in
            rw (k_walk_thread, b)
              (elim (ℕ_discrete key_m key_i) [
                | no ne ↦ (ground (arith, edel, edel'), ground (arith, life, life'))
                | yes e ↦
                    let fresh_i : seen key_i m ≡ false = ap (λ t. seen t m) (sym e) ∙ fresh in
                    let later : m ≤ i = ground (arith, seen-here key_i i m) in
                    let same : live_before pos_bits v key_m start i
                        ≡ live_before pos_bits v key_i (not (v.start i == absent)) i =
                      ap (λ t. live_before pos_bits v t start i) e
                      ∙ ap (λ t. live_before pos_bits v key_i (not (t == absent)) i)
                          (timeline.starts m i h p e) in
                    (
                      ground (arith, edel, edel', same, fresh_i, later),
                      ground (arith, life, life', same, fresh_i, later),
                    )
              ])
      ]

  -- On events in ascending order, each with a place of its own: from zeroed arrays, `k_walk` flags a
  -- delete as effective exactly where its key is live before it, and an insert as life-creating exactly
  -- where its key is not; the key being live at first where it has a start record.
  pub k_walk-flags :
      (flags : Flags) (i : ℕ)
      → i < v.n
      → flags.edel_ev (s_orig i) ≡ 0
      → flags.life_ev (s_orig i) ≡ 0
      → let live =
          live_before pos_bits v (event_key pos_bits (v.sorted i)) (not (v.start i == absent)) i in
        ((k_walk pos_bits v s_orig v.n flags).edel_ev (s_orig i) ≡ ends_life v i live)
        × ((k_walk pos_bits v s_orig v.n flags).life_ev (s_orig i) ≡ creates_life v i live)
  k_walk-flags flags i l z z' =
      let key = event_key pos_bits (v.sorted i) in
      let (edel, life) = k_walk-IsMarked flags v.n i (omega arith) l in
      let known = seen-here key i v.n l refl in
      (ground (arith, edel, known), ground (arith, life, known))
