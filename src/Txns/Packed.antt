-- ===== src/Txns/Packed.antt =====
-- EGAD/txn.h and EGAD/txn_bridge.h: packed arrays of transactions, with an index of offsets and the
-- packed size, and their bridge.
--
-- The two pointers of an array, `txns` and `index`, are null together. `none` as a result is the
-- call of `exit`, the exception or the failed assertion.
use egad_code.Prelude.{
  ℕ, ◌*◌, Option, none, some, List, [], ◌∷◌, ◌++◌, ltb, ◌==◌, ◌&&◌, not, if◌then◌else◌,
}
use egad_code.Prelude.Words.{add32}
use egad_code.Txns.{
  DeviceType, is_gpu, same_device, Memory, Copy, copy_bytes, copy_words, allocate, run_copies,
}

pub record PackedTxnArray : Type 0 where
  pub buffers : Option (ℕ × ℕ)
  pub num_txns : ℕ
  pub capacity : ℕ
  pub size : ℕ
  pub device : DeviceType

-- The two allocations of the constructor and of `Initialize`; `num_txns` is a `uint32_t`, the size of
-- the offsets a `size_t`.
unfoldable pub allocate_packed : DeviceType → ℕ → ℕ → Memory → Memory × ℕ × ℕ
allocate_packed device capacity num_txns mem =
    let (mem1, txns) = allocate device capacity mem in
    let (mem2, index) = allocate device (add32 num_txns 1 * 4) mem1 in (mem2, txns, index)

unfoldable pub initialize_packed : PackedTxnArray → Memory → Option (PackedTxnArray × Memory)
initialize_packed array mem = elim array.buffers [
  | some b ↦ none
  | none ↦
      let (mem', txns, index) = allocate_packed array.device array.capacity array.num_txns mem in
      some (record array { buffers = some (txns, index) }, mem')
]

-- `getTxn`, the offset of a transaction: on the host only.
unfoldable pub get_packed_txn : PackedTxnArray → Memory → ℕ → Option ℕ
get_packed_txn array mem txn_id = elim array.buffers [
  | none ↦ none
  | some b ↦
      let offset = mem.words b.1 txn_id in
      if not (is_gpu array.device) && ltb txn_id array.num_txns && ltb offset array.size
      then some offset
      else none
]

-- The bridge between two arrays, with the objects whose sizes it points at.
pub record PackedBridge : Type 0 where
  pub src : PackedTxnArray
  pub dest : PackedTxnArray
  pub src_type : DeviceType
  pub dst_type : DeviceType
  pub num_txns : ℕ
  pub packed_size : ℕ
  pub src_ptrs : Option (ℕ × ℕ)
  pub dest_ptrs : Option (ℕ × ℕ)
  pub pending : List Copy

unfoldable pub initialized_packed : PackedTxnArray → Memory → PackedTxnArray × Memory
initialized_packed array mem = elim array.buffers [
  | some b ↦ (array, mem)
  | none ↦
      let (mem', txns, index) = allocate_packed array.device array.capacity array.num_txns mem in
      (record array { buffers = some (txns, index) }, mem')
]

-- `Link`; a difference of `num_txns` is an exception.
unfoldable pub link_packed :
    PackedTxnArray → PackedTxnArray → Memory → Option (PackedBridge × Memory)
link_packed src dest mem =
    let (src', mem1) = initialized_packed src mem in
    let (other, mem2) = initialized_packed dest mem1 in
    let same = same_device src.device dest.device in
    let dest' = if same then record dest { buffers = src'.buffers } else other in
    let bridge : PackedBridge = record {
      src = src';
      dest = dest';
      src_type = src.device;
      dst_type = dest.device;
      num_txns = src.num_txns;
      packed_size = 0;
      src_ptrs = src'.buffers;
      dest_ptrs = dest'.buffers;
      pending = [];
    } in
    if src.num_txns == dest.num_txns then some (bridge, if same then mem1 else mem2) else none

-- The copies of the packed bytes and of the offsets, from the source `s` to the destination `d`.
abbrev packed_copies : PackedBridge → ℕ → ℕ × ℕ → ℕ × ℕ → List Copy
packed_copies b packed_size d s =
    copy_bytes d.0 s.0 packed_size ∷ copy_words d.1 s.1 b.num_txns ∷ []

-- `StartTransfer`: a source on the device has its size behind the offsets of the transactions.
unfoldable pub start_packed : PackedBridge → Memory → Option PackedBridge
start_packed b mem = if same_device b.src_type b.dst_type then some b else elim b.dest_ptrs [
  | none ↦ none
  | some d ↦ elim b.src_ptrs [
    | none ↦ none
    | some s ↦
        let size = if is_gpu b.src_type then mem.words s.1 b.num_txns else b.src.size in
        some (record b {
          src = if is_gpu b.src_type then record b.src { size = size } else b.src;
          dest = record b.dest { size = size };
          packed_size = size;
          pending = b.pending ++ packed_copies b size d s;
        })
  ]
]

unfoldable pub finish_packed : PackedBridge → Memory → PackedBridge × Memory
finish_packed b mem =
    if same_device b.src_type b.dst_type
    then (b, mem)
    else (record b { pending = [] }, run_copies b.pending mem)
