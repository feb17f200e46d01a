-- ===== src/Tests/Arrays.antt =====
-- The arrays of transactions and their bridges on small data.
use egad_code.Prelude.{ℕ, ◌+◌, ◌*◌, ◌<◌, ◌≤◌, ◌≡◌, ◌⊎◌, refl, some, none, [], ◌∷◌, arith, false}
use egad_code.Txns.{
  DeviceType, cpu, gpu, Memory, TxnArray, TxnBridge, get_input_txn, create_input, Copy, is_inside,
  link, start_transfer, finish_transfer,
}
use egad_code.Txns.Layout.{get_input_txn_lem}
use egad_code.Txns.Bridge.{AllInside, link_start_finish, link_overruns}
use egad_code.Txns.Packed.{
  PackedTxnArray, PackedBridge, get_packed_txn, link_packed, start_packed, finish_packed,
}
use egad_code.Txns.PackedMoves.{packed_same_host}

-- Buffer 0 holds the bytes of the transactions, buffer 1 their offsets: 0, 8, 16 and the size 24.
abbrev memory : Memory
memory = record { next = 2; sizes = λ a. 24; bytes = λ a i. 100 * a + i; words = λ a i. 8 * i }

get_input_txn_lem_example :
    let (array, mem') = create_input 24 10 4 memory in
    (720 + 24 ≤ mem'.sizes array.txns)
    × ((◌≡◌ {A = ℕ} 3 1 × ◌≡◌ {A = ℕ} 0 9) ⊎ ((720 + 24 ≤ 456) ⊎ (456 + 24 ≤ 720)))
unfolding create_input get_input_txn
get_input_txn_lem_example =
    get_input_txn_lem 24 10 4 memory 3 0 720 1 9 456 (omega arith) (omega arith) refl refl

abbrev bridge : TxnBridge
bridge = record {
  src_type = cpu;
  dst_type = cpu;
  txn_size = 0;
  num_txns = 0;
  src_ptr = none;
  dest_ptr = none;
  copy_stream = false;
  pending = [];
}

abbrev on_host : TxnArray
on_host = record { txns = some 0; num_txns = 3; device = cpu }

abbrev on_device : TxnArray
on_device = record { txns = none; num_txns = 3; device = gpu }

abbrev two_on_device : TxnArray
two_on_device = record { txns = none; num_txns = 2; device = gpu }

link_start_finish_example :
    let l = link 8 on_host on_device memory bridge in
    (b : TxnBridge) × (k : ℕ) × (start_transfer l.bridge ≡ some b)
    × (l.dest.txns ≡ some k)
    × AllInside l.mem b.pending
    × ((index i : ℕ)
        → index < 3
        → i < 8
        → (finish_transfer b l.mem).1.bytes k (index * 8 + i) ≡ memory.bytes 0 (index * 8 + i))
link_start_finish_example =
    link_start_finish 8 0 3 3 memory bridge (omega arith) refl (omega arith) (omega arith)
      (omega arith) cpu gpu none tt

link_overruns_example :
    let l = link 8 on_host two_on_device memory bridge in
    (b : TxnBridge) × (c : Copy) × (start_transfer l.bridge ≡ some b)
    × (b.pending ≡ c ∷ [])
    × (is_inside l.mem c ≡ false)
link_overruns_example =
    link_overruns 8 0 3 2 memory bridge (omega arith) refl (omega arith) (omega arith) (omega arith)

abbrev packed_on : DeviceType → PackedTxnArray
packed_on device = record {
  buffers = some (0, 1);
  num_txns = 3;
  capacity = 24;
  size = 24;
  device = device;
}

abbrev empty_on_host : PackedTxnArray
empty_on_host = record { buffers = none; num_txns = 3; capacity = 24; size = 0; device = cpu }

packed_same_host_example :
    (b : PackedBridge) × (link_packed (packed_on cpu) empty_on_host memory ≡ some (b, memory))
    × (start_packed b memory ≡ some b)
    × (b.dest.buffers ≡ some (0, 1))
    × (get_packed_txn b.dest (finish_packed b memory).1 1 ≡ none)
packed_same_host_example = packed_same_host 0 1 3 24 24 24 1 none memory
