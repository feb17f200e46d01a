-- ===== src/Txns/PackedMoves.antt =====
-- EGAD/txn_bridge.h: what the bridge of packed arrays moves, and what it leaves.
use egad_code.Prelude.{ℕ, ◌+◌, ◌*◌, ◌<◌, ◌≡◌, refl, Option, none, some, [], arith, ==_refl}
use egad_code.Prelude.Words.{add32}
use egad_code.Storage.{update}
use egad_code.Txns.{DeviceType, cpu, gpu, Memory}
use egad_code.Txns.Packed.{
  PackedTxnArray, PackedBridge, initialized_packed, get_packed_txn, link_packed, start_packed,
  finish_packed,
}

module _ (h hi n size size' capacity capacity' : ℕ) (mem : Memory) (valid : h < mem.next)
    (valid_index : hi < mem.next) where
  abbrev source : DeviceType → PackedTxnArray
  source device = record {
    buffers = some (h, hi);
    num_txns = n;
    capacity = capacity;
    size = size;
    device = device;
  }

  abbrev target : DeviceType → Option (ℕ × ℕ) → PackedTxnArray
  target device buffers = record {
    buffers = buffers;
    num_txns = n;
    capacity = capacity';
    size = size';
    device = device;
  }

  -- The linked bridge, and the one with its copies started.
  abbrev joined : DeviceType → DeviceType → ℕ × ℕ → PackedBridge
  joined src_type dst_type k = record {
    src = source src_type;
    dest = target dst_type (some k);
    src_type = src_type;
    dst_type = dst_type;
    num_txns = n;
    packed_size = 0;
    src_ptrs = some (h, hi);
    dest_ptrs = some k;
    pending = [];
  }

  Arrives : DeviceType → DeviceType → Option (ℕ × ℕ) → ℕ → ℕ → ℕ → Type 0
  Arrives src_type dst_type buffers packed_size txn_id i =
      (b : PackedBridge) × (linked : Memory) × (b' : PackedBridge) × (k : ℕ × ℕ) × (link_packed
          (source src_type) (target dst_type buffers) mem
        ≡ some (b, linked))
      × (start_packed b linked ≡ some b')
      × (b'.dest.buffers ≡ some k)
      × (b'.dest.size ≡ packed_size)
      × (b'.src.size ≡ packed_size)
      × ((finish_packed b' linked).1.words k.1 txn_id ≡ mem.words hi txn_id)
      × ((finish_packed b' linked).1.bytes k.0 (mem.words hi txn_id + i)
          ≡ mem.bytes h (mem.words hi txn_id + i))

  -- The memory with two cleared buffers.
  abbrev cleared : Memory
  cleared = record {
    next = mem.next + 1 + 1;
    sizes = update (update mem.sizes mem.next capacity') (mem.next + 1) (add32 n 1 * 4);
    bytes = update (update mem.bytes mem.next (λ j. 0)) (mem.next + 1) (λ j. 0);
    words = update (update mem.words mem.next (λ j. 0)) (mem.next + 1) (λ j. 0);
  }

-- The packed size of the source: on the device it stands behind the offsets.
abbrev pub size_of_source : DeviceType → ℕ → Memory → ℕ → ℕ → ℕ
size_of_source cpu size mem hi n = size
size_of_source gpu size mem hi n = mem.words hi n

-- Two arrays on the host: the bridge leaves the destination's size as it was, so when that is 0 no
-- transaction can be read there, although the destination has the source's buffers.
pub packed_same_host :
    (h hi n size capacity capacity' txn_id : ℕ) (buffers : Option (ℕ × ℕ)) (mem : Memory)
    → (b : PackedBridge) × (link_packed
          (record {
            buffers = some (h, hi);
            num_txns = n;
            capacity = capacity;
            size = size;
            device = cpu;
          })
          (record { buffers = buffers; num_txns = n; capacity = capacity'; size = 0; device = cpu })
          mem
        ≡ some (b, mem))
      × (start_packed b mem ≡ some b)
      × (b.dest.buffers ≡ some (h, hi))
      × (get_packed_txn b.dest (finish_packed b mem).1 txn_id ≡ none)
unfolding link_packed start_packed finish_packed initialized_packed get_packed_txn
packed_same_host h hi n size capacity capacity' txn_id buffers mem =
    let b : PackedBridge = record {
      src = record {
        buffers = some (h, hi);
        num_txns = n;
        capacity = capacity;
        size = size;
        device = cpu;
      };
      dest = record {
        buffers = some (h, hi);
        num_txns = n;
        capacity = capacity';
        size = 0;
        device = cpu;
      };
      src_type = cpu;
      dst_type = cpu;
      num_txns = n;
      packed_size = 0;
      src_ptrs = some (h, hi);
      dest_ptrs = some (h, hi);
      pending = [];
    } in
    (b, rw (==_refl n) refl, refl, refl, ground arith)
