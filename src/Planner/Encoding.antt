-- ===== src/Planner/Encoding.antt =====
-- The fields of an operation word, EGAD/execution_planner.h.
use Prim.Native.Nat.{bit_and, bit_or}
use native.Mathlib.Nat.{mul-div_left, one-le-pow}
use egad_code.Prelude.{ℕ, ◌+◌, ◌-◌, ◌*◌, ◌/◌, ◌%◌, ◌^◌, ◌<◌, ◌≡◌, ◌∙◌, ap, arith}
use egad_code.Prelude.Words.{shl64, bit_or_at, bit_and_shifted, bit_and_ones}
use egad_code.Planner.{create_op, get_record_id, get_txn_id, get_r_w, get_offset}

-- The ranges of the four fields.
pub record Fits (record_id txn_id r_w offset : ℕ) : Type 0 where
  pub record_fits : record_id < 2 ^ 32
  pub txn_fits : txn_id < 2 ^ 20
  pub r_w_fits : r_w < 2
  pub offset_fits : offset < 2 ^ 11

-- A field of `w` bits from bit `k` on, for the mask and the shift of the four macros.
field_lem : (x k w : ℕ) → bit_and x ((2 ^ w - 1) * 2 ^ k) / 2 ^ k ≡ (x / 2 ^ k) % 2 ^ w
field_lem x k w =
    ap (λ t. t / 2 ^ k) (bit_and_shifted k x (2 ^ w - 1))
    ∙ mul-div_left _ (one-le-pow k 2 (omega arith))
    ∙ bit_and_ones w (x / 2 ^ k)

module _ {record_id txn_id r_w offset : ℕ} (f : Fits record_id txn_id r_w offset) where
  create_op-eq-sum :
      create_op record_id txn_id r_w offset
      ≡ record_id * 2 ^ 32 + txn_id * 2 ^ 12 + r_w * 2 ^ 11 + offset
  unfolding create_op
  create_op-eq-sum =
      let r = shl64 record_id 32 in
      let t = shl64 txn_id 12 in
      let k = shl64 r_w 11 in
      let high : bit_or r t ≡ record_id * 2 ^ 32 + txn_id * 2 ^ 12 =
        bit_or_at 32 r t record_id (txn_id * 2 ^ 12) (omega arith) (omega arith) (omega arith) in
      let kind : bit_or (bit_or r t) k ≡ (record_id * 2 ^ 20 + txn_id) * 2 ^ 12 + r_w * 2 ^ 11 =
        bit_or_at 12 (bit_or r t) k (record_id * 2 ^ 20 + txn_id) (r_w * 2 ^ 11) (omega arith)
          (omega arith) (omega arith) in
      bit_or_at 11 (bit_or (bit_or r t) k) (shl64 offset 0) (record_id * 2 ^ 21 + txn_id * 2 + r_w)
        offset (omega arith) (omega arith) (omega arith)
      ∙ omega arith

  -- Fields that fit their widths are read back from the word: the record, the transaction, the kind
  -- and the offset.
  pub get-create_op :
      let op = create_op record_id txn_id r_w offset in
      (get_record_id op ≡ record_id)
      × (get_txn_id op ≡ txn_id)
      × (get_r_w op ≡ r_w)
      × (get_offset op ≡ offset)
  unfolding get_record_id get_txn_id get_r_w get_offset
  get-create_op =
      let op = create_op record_id txn_id r_w offset in
      let e = create_op-eq-sum in
      (
        field_lem op 32 32 ∙ omega (arith, e),
        field_lem op 12 20 ∙ omega (arith, e),
        field_lem op 11 1 ∙ omega (arith, e),
        field_lem op 0 11 ∙ omega (arith, e),
      )
