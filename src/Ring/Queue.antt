-- ===== src/Ring/Queue.antt =====
-- The pop of EGAD/util_device_ring.cuh as the pop of a queue.
use egad_code.Prelude.{
  ℕ, zero, suc, ◌+◌, ◌-◌, ◌%◌, ◌^◌, ◌≤◌, ◌<◌, ◌≡◌, refl, sym, ◌∙◌, ap, true, false, min, List, [],
  ◌∷◌, ◌++◌, ◌&&◌, ◌==◌, ltb, arith, length, Bool-cases, ==→eq, inl, inr,
}
use egad_code.Prelude.Words.{add64, sub64}
use egad_code.Ring.{Ring, ring_pop_reserve, ring_pop_copy, launch_ring_pop_parallel, pop_threads}

-- The counts are in order, and the queue is no longer than the buffer.
pub record IsRing (ring : Ring) : Type 0 where
  pub ordered : ring.head ≤ ring.tail
  pub tail_fits : ring.tail < 2 ^ 64
  pub bounded : ring.tail ≤ ring.head + ring.capacity
  pub capacity_fits : ring.capacity < 2 ^ 32

-- The items that were pushed from count `k` on.
unfoldable pub items : Ring → ℕ → ℕ → List ℕ
items ring k zero = []
items ring k (suc count) = ring.buffer (k % ring.capacity) ∷ items ring (k + 1) count

-- The queue, oldest first.
abbrev pub contents : Ring → List ℕ
contents ring = items ring ring.head (ring.tail - ring.head)

-- The first `count` items of an array, from `i` on.
unfoldable pub listing : (ℕ → ℕ) → ℕ → ℕ → List ℕ
listing out i zero = []
listing out i (suc count) = out i ∷ listing out (i + 1) count

items-append :
    (ring : Ring) (k a b : ℕ) → items ring k (a + b) ≡ items ring k a ++ items ring (k + a) b
unfolding items
items-append ring k zero b =
    let e : k ≡ k + 0 = omega arith in
    let f : 0 + b ≡ b = omega arith in ap (λ t. items ring k t) f ∙ ap (λ t. items ring t b) e
items-append ring k (suc a) b =
    let e : k + 1 + a ≡ k + suc a = omega arith in
    let f : suc a + b ≡ suc (a + b) = omega arith in
    ap (λ t. items ring k t) f
    ∙ ap (λ t. ring.buffer (k % ring.capacity) ∷ t)
        (items-append ring (k + 1) a b ∙ ap (λ t. items ring (k + 1) a ++ items ring t b) e)

length-items : (ring : Ring) (k count : ℕ) → length (items ring k count) ≡ count
unfolding items
length-items ring k zero = refl
length-items ring k (suc count) = omega (arith, length-items ring (k + 1) count)

items-congr :
    (ring : Ring) (head k count : ℕ)
    → items (record ring { head = head }) k count ≡ items ring k count
unfolding items
items-congr ring head k zero = refl
items-congr ring head k (suc count) =
    ap (λ t. ring.buffer (k % ring.capacity) ∷ t) (items-congr ring head (k + 1) count)

copy-listing :
    (threads : ℕ) (ring : Ring) (start granted : ℕ) (out : ℕ → ℕ) (i count : ℕ)
    → granted ≤ threads
    → i + count ≤ granted
    → start + granted < 2 ^ 64
    → listing (ring_pop_copy threads ring start granted out) i count ≡ items ring (start + i) count
unfolding listing items ring_pop_copy
copy-listing threads ring start granted out i zero m h f = refl
copy-listing threads ring start granted out i (suc count) m h f =
    let rest = copy-listing threads ring start granted out (i + 1) count m (omega arith) f in
    let inside : ltb i threads && ltb i granted ≡ true = ground arith in
    let at : add64 start i ≡ start + i = omega arith in
    let next : start + (i + 1) ≡ start + i + 1 = omega arith in
    rw (inside, at)
      (ap (λ t. ring.buffer ((start + i) % ring.capacity) ∷ t)
        (rest ∙ ap (λ t. items ring t count) next))

ring_pop_reserve_lem :
    (ring : Ring) (n : ℕ)
    → IsRing ring
    → n < 2 ^ 32
    → let g = min n (ring.tail - ring.head) in
      ring_pop_reserve ring n ≡ (record ring { head = ring.head + g }, ring.head, g)
unfolding ring_pop_reserve
ring_pop_reserve_lem ring n r small =
    let avail : sub64 ring.tail ring.head ≡ ring.tail - ring.head =
      omega (arith, r.ordered, r.tail_fits) in
    elim (Bool-cases (ltb (ring.tail - ring.head) n)) [
      | inl few ↦
          let g : (ring.tail - ring.head) % 2 ^ 32 ≡ min n (ring.tail - ring.head) = ground arith in
          let less : ltb (min n (ring.tail - ring.head)) n ≡ true = ground arith in
          let head : add64 (add64 ring.head n) (sub64 0 (n - min n (ring.tail - ring.head)))
              ≡ ring.head + min n (ring.tail - ring.head) =
            ground (arith, r.ordered, r.tail_fits) in
          rw (ring_pop_reserve, avail, few, g, less, head) refl
      | inr many ↦
          let g : n ≡ min n (ring.tail - ring.head) = ground arith in
          let same : ltb n n ≡ false = ground arith in
          let head : add64 ring.head n ≡ ring.head + n = ground (arith, r.ordered, r.tail_fits) in
          rw (← g, ring_pop_reserve, avail, many, same, head) refl
    ]

-- The popped items and the rest are the queue from before.
popped-append :
    (threads : ℕ) (ring : Ring) (g : ℕ) (out : ℕ → ℕ)
    → g ≤ threads
    → IsRing ring
    → g ≤ ring.tail - ring.head
    → let ring' = record ring { head = ring.head + g } in
      listing (ring_pop_copy threads ring' ring.head g out) 0 g ++ contents ring' ≡ contents ring
popped-append threads ring g out m r l =
    let ring' = record ring { head = ring.head + g } in
    let rest = ring.tail - (ring.head + g) in
    let start : ring.head + 0 ≡ ring.head = omega arith in
    let all : ring.tail - ring.head ≡ g + rest = omega (arith, r.ordered) in
    let popped : listing (ring_pop_copy threads ring' ring.head g out) 0 g
        ≡ items ring ring.head g =
      copy-listing threads ring' ring.head g out 0 g m (omega arith)
        (omega (arith, r.ordered, r.tail_fits))
      ∙ items-congr ring (ring.head + g) (ring.head + 0) g
      ∙ ap (λ t. items ring t g) start in
    ap (λ t. t ++ contents ring') popped
    ∙ ap (λ t. items ring ring.head g ++ t) (items-congr ring (ring.head + g) (ring.head + g) rest)
    ∙ sym (items-append ring ring.head g rest)
    ∙ ap (λ t. items ring ring.head t) (sym all)

-- On a ring within its bounds, a pop of `n` items, fewer than `2 ^ 32 - 255`, grants as many as there are, up to `n`: they are
-- the oldest ones in their order, the rest stays in the queue, the ring stays within its bounds, and
-- the output is unchanged past them.
pub launch_ring_pop_parallel_lem :
    (ring : Ring) (n : ℕ) (out : ℕ → ℕ)
    → IsRing ring
    → n + 255 < 2 ^ 32
    → let (ring', out', granted) = launch_ring_pop_parallel ring n out in
      (granted ≡ min n (length (contents ring)))
      × (listing out' 0 granted ++ contents ring' ≡ contents ring)
      × IsRing ring'
      × ((i : ℕ) → granted ≤ i → out' i ≡ out i)
unfolding launch_ring_pop_parallel listing ring_pop_copy
launch_ring_pop_parallel_lem ring n out r small =
    let g = min n (ring.tail - ring.head) in
    elim (Bool-cases (n == 0)) [
      | inl none ↦
          let z : n ≡ 0 = ==→eq n 0 none in
          rw (launch_ring_pop_parallel, none) (omega (arith, z), refl, r, λ i l. refl)
      | inr some ↦
          rw (launch_ring_pop_parallel, some, ring_pop_reserve_lem ring n r (omega arith))
            (
              omega (arith, length-items ring ring.head (ring.tail - ring.head)),
              popped-append (pop_threads n) ring g out (omega arith) r (omega arith),
              record {
                ordered = omega (arith, r.ordered);
                tail_fits = r.tail_fits;
                bounded = omega (arith, r.bounded);
                capacity_fits = r.capacity_fits;
              },
              λ i l. ground arith,
            )
    ]
