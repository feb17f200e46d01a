-- ===== src/Timeline/Serial.antt =====
-- The resolution of EGAD/benchmarks/epoch_timeline.cuh against a replay of the events in serial order.
use native.Mathlib.Decide.{ℕ_discrete}
use native.Mathlib.Nat.{
  one-le-pow, le-div_iff_mul-le, div-lt_iff_lt-mul, div-mul-le_self, div-add-mod',
}
use egad_code.Prelude.{
  ℕ, zero, suc, ◌+◌, ◌*◌, ◌/◌, ◌%◌, ◌^◌, ◌≤◌, ◌<◌, ◌≡◌, ◌≢◌, refl, sym, ◌∙◌, ap, Bool, true, false,
  not, ◌==◌, ◌&&◌, ◌||◌, ltb, if◌then◌else◌, arith, Bool-cases, ==→eq, ne→==, ==_refl, inl, inr,
}
use egad_code.Prelude.Words.{shl64, absent, bit_and_ones, bit_or_disjoint}
use egad_code.Timeline.{
  View, ev_delete, pack_event, event_key, event_pos, lower_bound, apply_event, has_key, stops, walk,
  resolve,
}
use egad_code.Timeline.Search.{IsAscending, IsLowerBound, lower_bound-IsLowerBound}

-- What `build` leaves: the events ascending, those with the same key and position in the order of their
-- entries, and one start record for each key.
pub record IsTimeline (pos_bits : ℕ) (v : View) : Type 0 where
  pub ascending : IsAscending v.n v.sorted
  pub ties : (i j : ℕ) → i < j → j < v.n → v.sorted i ≡ v.sorted j → v.entry i < v.entry j
  pub starts :
      (i j : ℕ)
      → i < v.n
      → j < v.n
      → event_key pos_bits (v.sorted i) ≡ event_key pos_bits (v.sorted j)
      → v.start i ≡ v.start j

-- Event `j` stands before the operation: at a smaller position, or at the same one with a smaller entry.
abbrev pub is_earlier : ℕ → View → ℕ → ℕ → ℕ → Bool
is_earlier pos_bits v pos self_entry j =
    let p = event_pos pos_bits (v.sorted j) in ltb p pos || (p == pos && ltb (v.entry j) self_entry)

-- What an event makes of its key: a delete leaves no record, an insert creates its own fresh record
-- where there is none and otherwise keeps the one there is.
unfoldable pub life_after : View → ℕ → ℕ → ℕ
life_after v j state =
    if v.event_type j == ev_delete
    then absent
    else if not (state == absent)
    then state
    else v.entry_crid (v.entry j)

apply_event-eq-life_after : (v : View) (j state : ℕ) → apply_event v j state ≡ life_after v j state
unfolding life_after
apply_event-eq-life_after v j state = ground arith

-- The state of the key after its events among the first `m` that stand before the operation at `pos` and
-- `self_entry`, in serial order.
unfoldable pub replay_events : ℕ → View → ℕ → ℕ → ℕ → ℕ → ℕ → ℕ
replay_events pos_bits v key pos self_entry zero state = state
replay_events pos_bits v key pos self_entry (suc j) state =
    let before = replay_events pos_bits v key pos self_entry j state in
    if has_key pos_bits v key j && is_earlier pos_bits v pos self_entry j
    then life_after v j before
    else before

quotient_le : (q x y : ℕ) → 0 < q → x ≤ y → x / q ≤ y / q
quotient_le q x y h l = (le-div_iff_mul-le h).1 (omega (arith, div-mul-le_self x q))

remainder_le : (q x y : ℕ) → x / q ≡ y / q → x ≤ y → x % q ≤ y % q
remainder_le q x y e l = omega (arith, div-add-mod' x q, div-add-mod' y q, ap (λ t. t * q) e)

module _ (pos_bits : ℕ) (v : View) (timeline : IsTimeline pos_bits v) (key pos self_entry : ℕ) where
  positive : 0 < 2 ^ pos_bits
  positive = one-le-pow pos_bits 2 (omega arith)

  pub keys_le :
      (i j : ℕ)
      → i ≤ j
      → j < v.n
      → event_key pos_bits (v.sorted i) ≤ event_key pos_bits (v.sorted j)
  keys_le i j l h = elim (ℕ_discrete i j) [
    | yes e ↦ rw e (omega arith)
    | no ne ↦
        quotient_le (2 ^ pos_bits) (v.sorted i) (v.sorted j) positive
          (timeline.ascending i j (omega arith) h)
  ]

  -- Once the walk stops, no later event of the key stands before the operation.
  stops_later :
      (i j : ℕ)
      → i < j
      → j < v.n
      → event_key pos_bits (v.sorted i) ≡ event_key pos_bits (v.sorted j)
      → stops pos_bits v pos self_entry i ≡ true
      → stops pos_bits v pos self_entry j ≡ true
  stops_later i j l h e s =
      let q = 2 ^ pos_bits in
      let pos_i = bit_and_ones pos_bits (v.sorted i) in
      let pos_j = bit_and_ones pos_bits (v.sorted j) in
      let le = remainder_le q (v.sorted i) (v.sorted j) e (timeline.ascending i j l h) in
      elim (ℕ_discrete (v.sorted i % q) (v.sorted j % q)) [
        | yes same ↦
            let equal : v.sorted i ≡ v.sorted j = omega (
              arith,
              div-add-mod' (v.sorted i) q,
              div-add-mod' (v.sorted j) q,
              ap (λ t. t * q) e,
            ) in
            let later = timeline.ties i j l h equal in ground (arith, pos_i, pos_j)
        | no differ ↦ ground (arith, pos_i, pos_j)
      ]

  no_event_after :
      (j i : ℕ)
      → j ≤ i
      → i < v.n
      → event_key pos_bits (v.sorted j) ≡ key
      → stops pos_bits v pos self_entry j ≡ true
      → (has_key pos_bits v key i && not (stops pos_bits v pos self_entry i)) ≡ false
  no_event_after j i l h k s = elim (ℕ_discrete j i) [
    | yes e ↦ rw (← e, s) (ground arith)
    | no ne ↦ elim (Bool-cases (has_key pos_bits v key i)) [
      | inr other ↦ rw other refl
      | inl same ↦ rw (stops_later j i (omega arith) h (k ∙ sym (==→eq _ _ same)) s) (ground arith)
    ]
  ]

  replay-skip :
      (state m j : ℕ)
      → j ≤ m
      → ((i : ℕ)
          → j ≤ i
          → i < m
          → (has_key pos_bits v key i && not (stops pos_bits v pos self_entry i)) ≡ false)
      → replay_events pos_bits v key pos self_entry m state
        ≡ replay_events pos_bits v key pos self_entry j state
  unfolding replay_events
  replay-skip state zero zero l none = refl
  replay-skip state zero (suc j) l none = absurd (omega arith)
  replay-skip state (suc m) j l none = elim (ℕ_discrete j (suc m)) [
    | yes e ↦ ap (λ t. replay_events pos_bits v key pos self_entry t state) (sym e)
    | no ne ↦ ground (
      arith,
      none m (omega arith) (omega arith),
      replay-skip state m j (omega arith) (λ i p q. none i p (omega arith)),
    )
  ]

  walk-eq-replay :
      (start fuel j state : ℕ)
      → j ≤ v.n
      → v.n ≤ j + fuel
      → ((i : ℕ) → j ≤ i → i < v.n → key ≤ event_key pos_bits (v.sorted i))
      → state ≡ replay_events pos_bits v key pos self_entry j start
      → walk pos_bits v fuel key pos self_entry j state
        ≡ replay_events pos_bits v key pos self_entry v.n start
  unfolding walk replay_events
  walk-eq-replay start zero j state l enough least e =
      let all : j ≡ v.n = omega arith in
      e ∙ ap (λ t. replay_events pos_bits v key pos self_entry t start) all
  walk-eq-replay start (suc fuel) j state l enough least e =
      elim (Bool-cases (ltb j v.n && has_key pos_bits v key j)) [
        | inr off ↦
            rw (walk, off)
              (e
                ∙ sym (
                    replay-skip start v.n j l (λ i p q.
                      ground (arith, least j (omega arith) (omega arith), keys_le j i p q))))
        | inl on ↦ elim (Bool-cases (stops pos_bits v pos self_entry j)) [
          | inl b ↦
              rw (walk, on, b)
                (e
                  ∙ sym (
                      replay-skip start v.n j l (λ i p q. no_event_after j i p q (ground arith) b)))
          | inr b ↦
              rw (walk, on, b)
                (walk-eq-replay start fuel (j + 1) (apply_event v j state) (ground arith)
                  (omega arith) (λ i p q. least i (omega arith) q)
                  (ground (arith, apply_event-eq-life_after v j state)))
        ]
      ]

  module _ (fits : key * 2 ^ pos_bits < 2 ^ 64) where
    abbrev probe : ℕ
    probe = pack_event pos_bits key 0

    probe-eq : probe ≡ key * 2 ^ pos_bits
    probe-eq =
        let small : shl64 key pos_bits ≡ key * 2 ^ pos_bits = omega arith in
        rw small (bit_or_disjoint pos_bits key 0 positive ∙ omega arith)

    abbrev first : ℕ
    first = lower_bound v.n v.sorted probe 0 v.n

    first-IsLowerBound : IsLowerBound v.n v.sorted probe first
    first-IsLowerBound =
        lower_bound-IsLowerBound v.n v.n v.sorted probe 0 v.n timeline.ascending (omega arith)
          (omega arith) (omega arith) (λ j l. absurd (omega arith)) (λ j p q. absurd (omega arith))

    least_key : (i : ℕ) → first ≤ i → i < v.n → key ≤ event_key pos_bits (v.sorted i)
    least_key i p q = (le-div_iff_mul-le positive).1 (rw (← probe-eq) (first-IsLowerBound.2 i p q))

    lower_key : (i : ℕ) → i < first → event_key pos_bits (v.sorted i) < key
    lower_key i p = (div-lt_iff_lt-mul positive).1 (rw (← probe-eq) (first-IsLowerBound.1 i p))

    -- Events of the key ascend and fit 64 bits, and event `i` is one of them: the operation resolves to
    -- the record that is live after the key's events before it, from the key's start record; an insert
    -- that finds none to its own fresh record.
    pub resolve-eq-replay_events :
        (is_insert : Bool) (fallback i : ℕ)
        → i < v.n
        → event_key pos_bits (v.sorted i) ≡ key
        → let state = replay_events pos_bits v key pos self_entry v.n (v.start i) in
          resolve pos_bits v key pos self_entry is_insert fallback
          ≡ (if is_insert && state == absent then v.entry_crid self_entry else state)
    unfolding resolve replay_events
    resolve-eq-replay_events is_insert fallback i l k =
        let below : first ≤ i = ground (arith, lower_key i) in
        let here : event_key pos_bits (v.sorted first) ≡ key =
          omega (arith, least_key first (omega arith) (omega arith), keys_le first i below l) in
        let start : v.start first ≡ v.start i =
          timeline.starts first i (omega arith) l (here ∙ sym k) in
        let none_before =
          replay-skip (v.start first) first 0 (omega arith)
            (λ j p q. ground (arith, lower_key j q)) in
        let state =
          walk-eq-replay (v.start first) v.n first (v.start first) (omega arith) (omega arith)
            least_key (sym none_before) in
        let some_event = ne→== v.n 0 (λ e. omega arith) in
        let inside = ne→== first v.n (λ e. omega arith) in
        let found : has_key pos_bits v key first ≡ true = rw here (==_refl key) in
        rw (resolve, some_event, inside, found, state, start) refl

    -- Where the key has no event, an operation on it resolves to the epoch-start lookup.
    pub resolve-no_event :
        (is_insert : Bool) (fallback : ℕ)
        → ((i : ℕ) → i < v.n → event_key pos_bits (v.sorted i) ≢ key)
        → resolve pos_bits v key pos self_entry is_insert fallback ≡ fallback
    unfolding resolve
    resolve-no_event is_insert fallback none = elim (Bool-cases (v.n == 0)) [
      | inl empty ↦ rw (resolve, empty) refl
      | inr full ↦ elim (ℕ_discrete first v.n) [
        | yes e ↦ rw (resolve, full, e, ==_refl v.n) refl
        | no ne ↦
            let inside = ne→== first v.n ne in
            let l : first < v.n = omega (arith, first-IsLowerBound.0) in
            let missed : has_key pos_bits v key first ≡ false = ne→== _ key (none first l) in
            rw (resolve, full, inside, missed) refl
      ]
    ]
