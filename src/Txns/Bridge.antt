-- ===== src/Txns/Bridge.antt =====
-- EGAD/txn_bridge.h: linking two arrays of transactions, and the copy between them.
use egad_code.Prelude.{
  All, List, ◌∷◌, leb, ◌≤◌, ◌^◌, ℕ, ◌+◌, ◌*◌, ◌<◌, ◌≡◌, refl, ap, ◌∙◌, Option, none, some, [], ltb,
  ◌==◌, arith, true, false, ne→==, ==_refl,
}
use native.Mathlib.Nat.{mul-le-mul}
use egad_code.Prelude.Words.{mul64}
use egad_code.Storage.{update}
use egad_code.Txns.{
  DeviceType, cpu, gpu, Memory, TxnBridge, Copy, is_inside, copy_bytes, allocate, initialized, link,
  Linked, run_copy, run_copies, start_transfer, finish_transfer,
}
use egad_code.Txns.Layout.{element_end}

-- A transaction's byte after the copy of a whole array.
copied :
    (mem : Memory) (size n h k index i : ℕ)
    → size * n < 2 ^ 64
    → index < n
    → i < size
    → (run_copy (copy_bytes k h (mul64 size n)) mem).bytes k (index * size + i)
      ≡ mem.bytes h (index * size + i)
unfolding run_copy
copied mem size n h k index i small l m =
    let end = element_end index n size l in
    let total : n * size ≡ size * n = omega arith in
    let within : ltb (index * size + i) (mul64 size n) ≡ true = ground (arith, end, total) in
    rw (==_refl k, within) refl

-- The destination has no buffer yet, or one with room for its transactions.
abbrev pub IsSized : Memory → ℕ → ℕ → Option ℕ → Type 0
IsSized mem size n none = Unit
IsSized mem size n (some k) = size * n ≤ mem.sizes k

abbrev pub AllInside : Memory → List Copy → Type 0
AllInside mem copies = All (λ c. is_inside mem c ≡ true) copies

products_le : (size n n' : ℕ) → n ≤ n' → size * n ≤ size * n'
products_le size n n' l =
    let m : n * size ≤ n' * size = mul-le-mul {m₁ = size} l (omega arith) in omega arith

module _ (size h n n' : ℕ) (mem : Memory) (bridge : TxnBridge) (valid : h < mem.next)
    (idle : bridge.pending ≡ []) where
  abbrev linked : DeviceType → DeviceType → Option ℕ → Linked
  linked src_device dest_device dest_txns =
      link size (record { txns = some h; num_txns = n; device = src_device })
        (record { txns = dest_txns; num_txns = n'; device = dest_device }) mem bridge

  fresh : {B : Type 0} (f : ℕ → B) (x : B) → update f mem.next x h ≡ f h
  fresh f x = let b : (h == mem.next) ≡ false = ne→== h mem.next (λ e. omega arith) in rw b refl

  module _ (room : size * n ≤ mem.sizes h) (enough : n ≤ n') (small : size * n' < 2 ^ 64) where
    Moves : DeviceType → DeviceType → Option ℕ → Type 0
    Moves src_device dest_device dest_txns =
        let l = linked src_device dest_device dest_txns in
        (b : TxnBridge) × (k : ℕ) × (start_transfer l.bridge ≡ some b)
        × (l.dest.txns ≡ some k)
        × AllInside l.mem b.pending
        × ((index i : ℕ)
            → index < n
            → i < size
            → (finish_transfer b l.mem).1.bytes k (index * size + i)
              ≡ mem.bytes h (index * size + i))

    -- The copy into a new buffer, and the copy into one that is there.
    inside_new :
        (mem' : Memory)
        → mem'.sizes ≡ update mem.sizes mem.next (mul64 size n')
        → is_inside mem' (copy_bytes mem.next h (mul64 size n)) ≡ true
    unfolding is_inside
    inside_new mem' e =
        let le = products_le size n n' enough in
        let new : update mem.sizes mem.next (mul64 size n') mem.next ≡ mul64 size n' =
          rw (==_refl mem.next) refl in
        rw e (ground (arith, fresh mem.sizes (mul64 size n'), new))

    inside_old :
        (k : ℕ) → size * n' ≤ mem.sizes k → is_inside mem (copy_bytes k h (mul64 size n)) ≡ true
    unfolding is_inside
    inside_old k sized = let le = products_le size n n' enough in ground arith

    bytes_fit : size * n < 2 ^ 64
    bytes_fit = let le = products_le size n n' enough in omega arith

    to_gpu : (dest_txns : Option ℕ) → IsSized mem size n' dest_txns → Moves cpu gpu dest_txns
    unfolding Moves link start_transfer finish_transfer initialized allocate run_copies
    to_gpu none sized = (
      _,
      mem.next,
      refl,
      refl,
      rw idle (inside_new _ refl, tt),
      λ index i l m. rw idle (
          copied _ size n h mem.next index i bytes_fit l m
          ∙ ap (λ f. f (index * size + i)) (fresh mem.bytes (λ j. 0))),
    )
    to_gpu (some k) sized = (
      _,
      k,
      refl,
      refl,
      rw idle (inside_old k sized, tt),
      λ index i l m. rw idle (copied mem size n h k index i bytes_fit l m),
    )

    to_cpu : (dest_txns : Option ℕ) → IsSized mem size n' dest_txns → Moves gpu cpu dest_txns
    unfolding Moves link start_transfer finish_transfer initialized allocate run_copies
    to_cpu none sized = (
      _,
      mem.next,
      refl,
      refl,
      rw idle (inside_new _ refl, tt),
      λ index i l m. rw idle (copied _ size n h mem.next index i bytes_fit l m),
    )
    to_cpu (some k) sized = (
      _,
      k,
      refl,
      refl,
      rw idle (inside_old k sized, tt),
      λ index i l m. rw idle (copied mem size n h k index i bytes_fit l m),
    )

    -- A source with a buffer of its transactions, and a destination on any device that is for at
    -- least as many, of a size in bytes below `2 ^ 64`, with no buffer yet or one of that size:
    -- `Link`, `StartTransfer` and `FinishTransfer` succeed, their copies stay within the buffers,
    -- and the destination then has a buffer in which every transaction of the source has the bytes
    -- that it had in the source's.
    pub link_start_finish :
        (src_device dest_device : DeviceType) (dest_txns : Option ℕ)
        → IsSized mem size n' dest_txns
        → let l = linked src_device dest_device dest_txns in
          (b : TxnBridge) × (k : ℕ) × (start_transfer l.bridge ≡ some b)
          × (l.dest.txns ≡ some k)
          × AllInside l.mem b.pending
          × ((index i : ℕ)
              → index < n
              → i < size
              → (finish_transfer b l.mem).1.bytes k (index * size + i)
                ≡ mem.bytes h (index * size + i))
    unfolding Moves link start_transfer finish_transfer initialized
    link_start_finish cpu cpu dest_txns sized = (_, h, refl, refl, rw idle tt, λ index i l m. refl)
    link_start_finish gpu gpu dest_txns sized = (_, h, refl, refl, rw idle tt, λ index i l m. refl)
    link_start_finish cpu gpu dest_txns sized = to_gpu dest_txns sized
    link_start_finish gpu cpu dest_txns sized = to_cpu dest_txns sized

  -- A destination without a buffer, on the device, for fewer transactions than the source on the
  -- host: `Link` and `StartTransfer` succeed, and the copy runs past the end of the new buffer.
  pub link_overruns :
      n' < n
      → 0 < size
      → size * n < 2 ^ 64
      → let l = linked cpu gpu none in
        (b : TxnBridge) × (c : Copy) × (start_transfer l.bridge ≡ some b)
        × (b.pending ≡ c ∷ [])
        × (is_inside l.mem c ≡ false)
  unfolding link start_transfer initialized allocate is_inside
  link_overruns few pos small =
      let le : (n' + 1) * size ≤ n * size = mul-le-mul {m₁ = size} (omega arith) (omega arith) in
      let new : update mem.sizes mem.next (mul64 size n') mem.next ≡ mul64 size n' =
        rw (==_refl mem.next) refl in
      let past : leb (mul64 size n) (mul64 size n') ≡ false = ground arith in
      (_, copy_bytes mem.next h (mul64 size n), refl, rw idle refl, rw (new, past) refl)
