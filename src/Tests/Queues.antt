-- ===== src/Tests/Queues.antt =====
-- The ring of EGAD/util_device_ring.cuh with three items, and the timeline of EGAD/benchmarks/epoch_timeline.cuh
-- with two events of key 7.
use egad_code.Prelude.{
  ℕ, ◌+◌, ◌*◌, ◌^◌, ◌≡◌, ◌≤◌, refl, ◌++◌, min, length, arith, false, ◌&&◌, ◌==◌, if◌then◌else◌,
}
use egad_code.Prelude.Words.{absent}
use egad_code.Ring.{Ring, launch_ring_pop_parallel}
use egad_code.Ring.Queue.{IsRing, contents, listing, launch_ring_pop_parallel_lem}
use egad_code.Timeline.Marks.{live_before, ends_life, creates_life, k_walk-flags}
use egad_code.Timeline.{
  Flags, event_key, k_walk, k_walk_thread, walk_flags, View, ev_insert, ev_delete, resolve,
  lower_bound, walk,
}
use egad_code.Timeline.Serial.{
  IsTimeline, replay_events, resolve-eq-replay_events, resolve-no_event,
}

abbrev ring : Ring
ring = record { buffer = λ i. 10 + i; head = 7; tail = 10; capacity = 8 }

ring-IsRing : IsRing ring
ring-IsRing = record {
  ordered = omega arith;
  tail_fits = omega arith;
  bounded = omega arith;
  capacity_fits = omega arith;
}

abbrev blank : ℕ → ℕ
blank i = 0

launch_ring_pop_parallel_lem_example :
    let (ring', out', granted) = launch_ring_pop_parallel ring 2 blank in
    (granted ≡ min 2 (length (contents ring)))
    × (listing out' 0 granted ++ contents ring' ≡ contents ring)
    × IsRing ring'
    × ((i : ℕ) → granted ≤ i → out' i ≡ blank i)
launch_ring_pop_parallel_lem_example =
    launch_ring_pop_parallel_lem ring 2 blank ring-IsRing (omega arith)

-- An insert of key 7 at position 1, entry 10, and a delete at position 2, entry 20.
abbrev view : View
view = record {
  sorted = λ j. 7 * 2 ^ 24 + 1 + j;
  entry = λ j. 10 + 10 * j;
  event_type = λ j. if j == 0 then ev_insert else ev_delete;
  start = λ j. absent;
  entry_crid = λ e. 100 + e;
  n = 2;
}

view-IsTimeline : IsTimeline 24 view
view-IsTimeline = record {
  ascending = λ i j l h. omega arith;
  ties = λ i j l h e. omega arith;
  starts = λ i j l h e. refl;
}

resolve-eq-replay_events_example :
    let state = replay_events 24 view 7 2 15 2 absent in
    resolve 24 view 7 2 15 false 5 ≡ (if false && state == absent then 115 else state)
resolve-eq-replay_events_example =
    resolve-eq-replay_events 24 view view-IsTimeline 7 2 15 (omega arith) false 5 0 (omega arith)
      (omega arith)

resolve-no_event_example : resolve 24 view 8 2 15 false 5 ≡ 5
resolve-no_event_example =
    resolve-no_event 24 view view-IsTimeline 8 2 15 (omega arith) false 5 (λ i l e. omega arith)

-- The read at position 2, entry 15, sees the inserted record.
resolve_test : resolve 24 view 7 2 15 false 5 ≡ 110
unfolding resolve lower_bound walk
resolve_test = refl

abbrev no_flags : Flags
no_flags = record { life_ev = λ e. 0; edel_ev = λ e. 0 }

abbrev same_place : ℕ → ℕ
same_place j = j

k_walk-flags_example :
    ((k_walk 24 view same_place 2 no_flags).edel_ev 1
      ≡ ends_life view 1 (live_before 24 view (event_key 24 (view.sorted 1)) false 1))
    × ((k_walk 24 view same_place 2 no_flags).life_ev 1
        ≡ creates_life view 1 (live_before 24 view (event_key 24 (view.sorted 1)) false 1))
k_walk-flags_example =
    k_walk-flags 24 view same_place view-IsTimeline (λ i j p q e. e) no_flags 1 (omega arith) refl
      refl

-- The insert creates a life that the delete ends.
k_walk_test :
    ((k_walk 24 view same_place 2 no_flags).life_ev 0 ≡ 1)
    × ((k_walk 24 view same_place 2 no_flags).edel_ev 1 ≡ 1)
unfolding k_walk k_walk_thread walk_flags
k_walk_test = (refl, refl)
