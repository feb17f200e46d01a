-- ===== src/Txns.antt =====
-- EGAD/txn.h, EGAD/txn_bridge.h and EGAD/txn_bridge.cpp: arrays of transactions on the host or the
-- device, and the bridges that move them.
--
-- Memory is a set of buffers with handles; a null pointer is `none`. A buffer has its size and bytes, a
-- buffer of offsets its words. `none` as a result is the call of `exit`, the exception or the failed
-- assertion. A copy on a stream is pending from `StartTransfer` to `FinishTransfer`.
pub mod Layout
pub mod Bridge
pub mod Packed
pub mod PackedMoves
use egad_code.Prelude.{
  ℕ, ◌+◌, ◌*◌, Bool, true, false, Option, none, some, List, [], ◌∷◌, ◌++◌, ltb, leb, ◌==◌, ◌&&◌,
  if◌then◌else◌,
}
use egad_code.Prelude.Words.{add64, mul64}
use egad_code.Storage.{update}

pub data DeviceType : Type 0 where
  cpu gpu : DeviceType

abbrev pub is_gpu : DeviceType → Bool
is_gpu cpu = false
is_gpu gpu = true

abbrev pub same_device : DeviceType → DeviceType → Bool
same_device cpu cpu = true
same_device cpu gpu = false
same_device gpu cpu = false
same_device gpu gpu = true

pub record Memory : Type 0 where
  pub next : ℕ
  pub sizes : ℕ → ℕ
  pub bytes : ℕ → ℕ → ℕ
  pub words : ℕ → ℕ → ℕ

-- A new buffer of some bytes. `Malloc` leaves the contents open, `createGpuTxnArrayStorage` sets them
-- to zero.
unfoldable pub allocate : DeviceType → ℕ → Memory → Memory × ℕ
allocate cpu size mem =
    (record mem { next = mem.next + 1; sizes = update mem.sizes mem.next size }, mem.next)
allocate gpu size mem = (
  record {
    next = mem.next + 1;
    sizes = update mem.sizes mem.next size;
    bytes = update mem.bytes mem.next (λ i. 0);
    words = update mem.words mem.next (λ i. 0);
  },
  mem.next,
)

-- `sizeof(BaseTxn) + sizeof(Txn)`.
abbrev pub base_txn_size : ℕ → ℕ
base_txn_size txn_bytes = 4 + txn_bytes

pub record TxnArray : Type 0 where
  pub txns : Option ℕ
  pub num_txns : ℕ
  pub device : DeviceType

unfoldable pub initialize : ℕ → TxnArray → Memory → Option (TxnArray × Memory)
initialize size array mem = elim array.txns [
  | some h ↦ none
  | none ↦
      let (mem', h) = allocate array.device (mul64 size array.num_txns) mem in
      some (record array { txns = some h }, mem')
]

unfoldable pub destroy : TxnArray → Option TxnArray
destroy array = elim array.txns [ none ↦ none | some h ↦ some (record array { txns = none }) ]

-- The buffer and the offset of a transaction.
unfoldable pub get_txn : ℕ → TxnArray → ℕ → Option ℕ
get_txn size array index = if ltb index array.num_txns then some (index * size) else none

pub record TxnInputArray : Type 0 where
  pub txns : ℕ
  pub num_txns : ℕ
  pub epochs : ℕ

-- `TxnInputArray::TxnInputArray`
unfoldable pub create_input : ℕ → ℕ → ℕ → Memory → TxnInputArray × Memory
create_input size num_txns epochs mem =
    let (mem', h) = allocate cpu (mul64 (mul64 size num_txns) epochs) mem in
    (record { txns = h; num_txns = num_txns; epochs = epochs }, mem')

-- `TxnInputArray::getTxn`, the offset for a transaction of an epoch.
unfoldable pub get_input_txn : ℕ → TxnInputArray → ℕ → ℕ → Option ℕ
get_input_txn size array epoch index =
    if ltb index array.num_txns && ltb epoch array.epochs
    then some (mul64 (add64 (mul64 epoch array.num_txns) index) size)
    else none

-- A copy on the bridge's stream.
pub data Copy : Type 0 where
  copy_bytes copy_words : ℕ → ℕ → ℕ → Copy

-- The copy stays within its two buffers.
unfoldable pub is_inside : Memory → Copy → Bool
is_inside mem (copy_bytes dst src n) = leb n (mem.sizes dst) && leb n (mem.sizes src)
is_inside mem (copy_words dst src n) = leb (n * 4) (mem.sizes dst) && leb (n * 4) (mem.sizes src)

-- What a copy leaves that stays within its buffers.
unfoldable pub run_copy : Copy → Memory → Memory
run_copy (copy_bytes dst src n) mem = record mem {
  bytes = update mem.bytes dst (λ i. if ltb i n then mem.bytes src i else mem.bytes dst i);
}
run_copy (copy_words dst src n) mem = record mem {
  words = update mem.words dst (λ i. if ltb i n then mem.words src i else mem.words dst i);
}

unfoldable pub run_copies : List Copy → Memory → Memory
run_copies [] mem = mem
run_copies (c ∷ cs) mem = run_copies cs (run_copy c mem)

pub record TxnBridge : Type 0 where
  pub src_type : DeviceType
  pub dst_type : DeviceType
  pub txn_size : ℕ
  pub num_txns : ℕ
  pub src_ptr : Option ℕ
  pub dest_ptr : Option ℕ
  pub copy_stream : Bool
  pub pending : List Copy

-- `if (array.txns == nullptr) array.Initialize();`
unfoldable pub initialized : ℕ → TxnArray → Memory → TxnArray × Memory
initialized size array mem = elim array.txns [
  | some h ↦ (array, mem)
  | none ↦
      let (mem', h) = allocate array.device (mul64 size array.num_txns) mem in
      (record array { txns = some h }, mem')
]

pub record Linked : Type 0 where
  pub src : TxnArray
  pub dest : TxnArray
  pub mem : Memory
  pub bridge : TxnBridge

-- `Link`. A difference of `num_txns` is logged only.
unfoldable pub link : ℕ → TxnArray → TxnArray → Memory → TxnBridge → Linked
link size src dest mem bridge =
    let (src', mem1) = initialized size src mem in
    let (other, mem2) = initialized size dest mem1 in
    let same = same_device src.device dest.device in
    let dest' = if same then record dest { txns = src'.txns } else other in
    record {
      src = src';
      dest = dest';
      mem = if same then mem1 else mem2;
      bridge = record {
        src_type = src.device;
        dst_type = dest.device;
        txn_size = size;
        num_txns = src.num_txns;
        src_ptr = src'.txns;
        dest_ptr = dest'.txns;
        copy_stream =
            if is_gpu src.device
            then true
            else if is_gpu dest.device
            then true
            else bridge.copy_stream;
        pending = bridge.pending;
      };
    }

-- The copy between two pointers; a null pointer is the error of the transfer.
abbrev pub between : (ℕ → ℕ → Copy) → Option ℕ → Option ℕ → Option Copy
between copy (some dst) (some src) = some (copy dst src)
between copy (some dst) none = none
between copy none src = none

unfoldable pub start_transfer : TxnBridge → Option TxnBridge
start_transfer b =
    let copy =
      between (λ dst src. copy_bytes dst src (mul64 b.txn_size b.num_txns)) b.dest_ptr b.src_ptr in
    if same_device b.src_type b.dst_type
    then some b
    else elim copy [ none ↦ none | some c ↦ some (record b { pending = b.pending ++ (c ∷ []) }) ]

unfoldable pub finish_transfer : TxnBridge → Memory → TxnBridge × Memory
finish_transfer b mem =
    if same_device b.src_type b.dst_type
    then (b, mem)
    else (record b { pending = [] }, run_copies b.pending mem)
