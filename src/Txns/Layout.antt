-- ===== src/Txns/Layout.antt =====
-- EGAD/txn.h: where the transactions of an array stand.
use native.Mathlib.Nat.{mul-le-mul}
use native.Mathlib.Decide.{ℕ_discrete, dec_lt}
use egad_code.Prelude.{
  or_else, sym, ap, ◌∙◌, ◌^◌, ==_refl, ℕ, zero, suc, ◌+◌, ◌*◌, ◌≤◌, ◌<◌, ◌≡◌, ◌⊎◌, inl, inr, some,
  true, ltb, ◌&&◌, arith,
}
use egad_code.Prelude.Words.{add64, mul64}
use egad_code.Txns.{Memory, TxnInputArray, create_input, get_input_txn, allocate}

-- The end of an element among `n` elements of `size` bytes.
pub element_end : (i n size : ℕ) → i < n → i * size + size ≤ n * size
element_end i n size l =
    let e : (i + 1) * size ≡ i * size + size = omega arith in
    let m : (i + 1) * size ≤ n * size = mul-le-mul {m₁ = size} (omega arith) (omega arith) in
    omega arith

-- A row and a column are determined by their position.
same_position : (n e i e' i' : ℕ) → i < n → i' < n → e * n + i ≡ e' * n + i' → (e ≡ e') × (i ≡ i')
same_position n e i e' i' l l' p = elim (ℕ_discrete e e') [
  | yes same ↦ (same, let products = ap (λ t. t * n) same in omega arith)
  | no differ ↦ elim (dec_lt e e') [
    | yes before ↦ absurd (let far = element_end e e' n before in omega arith)
    | no after ↦
        let later : e' < e = omega arith in
        absurd (let far = element_end e' e n later in omega arith)
  ]
]

-- The offset, while the array's bytes can be counted in 64 bits.
offset_at :
    (size num_txns epochs epoch index : ℕ)
    → size * num_txns * epochs < 2 ^ 64
    → 0 < size
    → index < num_txns
    → epoch < epochs
    → mul64 (add64 (mul64 epoch num_txns) index) size ≡ (epoch * num_txns + index) * size
offset_at size num_txns epochs epoch index small p l m =
    let row = element_end epoch epochs num_txns m in
    let end = element_end (epoch * num_txns + index) (epochs * num_txns) size (omega arith) in
    let total : epochs * num_txns * size ≡ size * num_txns * epochs = omega arith in
    let p' = epoch * num_txns + index in
    let least : p' * 1 ≤ p' * size = mul-le-mul {m₁ = 1} (omega arith) (omega arith) in
    let position : add64 (mul64 epoch num_txns) index ≡ epoch * num_txns + index = omega arith in
    ap (λ t. mul64 t size) position ∙ omega arith

get_input_txn-inside :
    (size epoch index offset : ℕ) (array : TxnInputArray)
    → size * array.num_txns * array.epochs < 2 ^ 64
    → 0 < size
    → get_input_txn size array epoch index ≡ some offset
    → (index < array.num_txns)
      × (epoch < array.epochs)
      × (offset ≡ (epoch * array.num_txns + index) * size)
unfolding get_input_txn
get_input_txn-inside size epoch index offset array small p e =
    let at : ltb index array.num_txns && ltb epoch array.epochs ≡ true = ground (arith, e) in
    let o : some (mul64 (add64 (mul64 epoch array.num_txns) index) size) ≡ some offset =
      rw at at e in
    let l : index < array.num_txns = ground (arith, at) in
    let m : epoch < array.epochs = ground (arith, at) in
    (
      l,
      m,
      sym (ap (λ x. or_else x 0) o)
          ∙ offset_at size array.num_txns array.epochs epoch index small p l m,
    )

total_bytes :
    (size num_txns epochs : ℕ)
    → size * num_txns * epochs < 2 ^ 64
    → mul64 (mul64 size num_txns) epochs ≡ size * num_txns * epochs
total_bytes size num_txns zero small = omega arith
total_bytes size num_txns (suc epochs) small =
    let step : size * num_txns * suc epochs ≡ size * num_txns * epochs + size * num_txns =
      omega arith in
    let inner : mul64 size num_txns ≡ size * num_txns = omega arith in
    ap (λ t. mul64 t (suc epochs)) inner ∙ omega arith

-- The bytes that the constructor allocates.
create_input-size :
    (size num_txns epochs : ℕ) (mem : Memory)
    → size * num_txns * epochs < 2 ^ 64
    → let (array, mem') = create_input size num_txns epochs mem in
      mem'.sizes array.txns ≡ size * num_txns * epochs
unfolding create_input allocate
create_input-size size num_txns epochs mem small =
    rw (==_refl mem.next) (total_bytes size num_txns epochs small)

-- An input array is created, of a size in bytes below `2 ^ 64`: two transactions of it lie within
-- the buffer that the constructor allocated, and are the same transaction of the same epoch or do
-- not overlap.
pub get_input_txn_lem :
    (size num_txns epochs : ℕ) (mem : Memory) (epoch index offset epoch' index' offset' : ℕ)
    → size * num_txns * epochs < 2 ^ 64
    → 0 < size
    → let (array, mem') = create_input size num_txns epochs mem in
      get_input_txn size array epoch index ≡ some offset
      → get_input_txn size array epoch' index' ≡ some offset'
      → (offset + size ≤ mem'.sizes array.txns)
        × (((epoch ≡ epoch') × (index ≡ index'))
            ⊎ ((offset + size ≤ offset') ⊎ (offset' + size ≤ offset)))
unfolding create_input
get_input_txn_lem size num_txns epochs mem epoch index offset epoch' index' offset' small pos e e' =
    let (array, mem') = create_input size num_txns epochs mem in
    let (l, m, o) = get_input_txn-inside size epoch index offset array small pos e in
    let (l', m', o') = get_input_txn-inside size epoch' index' offset' array small pos e' in
    let p = epoch * num_txns + index in
    let p' = epoch' * num_txns + index' in
    let row = element_end epoch epochs num_txns m in
    let end = element_end p (epochs * num_txns) size (omega arith) in
    let total : epochs * num_txns * size ≡ size * num_txns * epochs = omega arith in
    let allocated = create_input-size size num_txns epochs mem small in
    (
      omega arith,
      elim (ℕ_discrete p p') [
        | yes same ↦ inl (same_position num_txns epoch index epoch' index' l l' same)
        | no differ ↦ elim (dec_lt p p') [
          | yes before ↦ inr (inl (let gap = element_end p p' size before in omega arith))
          | no after ↦
              let later : p' < p = omega arith in
              inr (inr (let gap = element_end p' p size later in omega arith))
        ]
      ],
    )
