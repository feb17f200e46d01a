-- ===== src/Planner/Locations.antt =====
-- The locations that EGAD/gpu_execution_planner.cu plans, against the order of the operations.
use native.Mathlib.Decide.{ℕ_discrete, dec_lt}
use egad_code.Prelude.{
  ℕ, suc, ◌+◌, ◌-◌, ◌%◌, ◌^◌, ◌<◌, ◌≡◌, ◌≢◌, ◌⊎◌, inl, inr, Bool, true, false, none, some, ◌==◌,
  arith,
}
use egad_code.Storage.{loc_record_a, loc_record_b}
use egad_code.Planner.{
  Op, Array, Cub, write_op, get_record_id, get_r_w, sorted_ops, version_write_extractor,
  calc_operation_type, rw_location, rw_ops_type, rw_locations, write_ops_after, write_ops_before,
}
use egad_code.Planner.Scans.{
  writes, last_write, last_write-writes, last_write-none_after, ops_sorted, before_lem, after_lem,
  After, versions_le, versions_step, versions_mono, versions_const, version_writes, versions_before,
}

module _ (cub : Cub) (n : ℕ) (submitted : Array Op) (small : n < 2 ^ 32 - 2) where
  abbrev pub op : Array Op
  op = sorted_ops cub n submitted

  abbrev pub row : ℕ → ℕ
  row i = get_record_id (op i)

  abbrev pub loc : Array ℕ
  loc = rw_locations cub n submitted

  abbrev is_write : ℕ → Bool
  is_write i = get_r_w (op i) == write_op

  after : (i : ℕ) → i < n → After cub n submitted small i
  after i h = after_lem cub n submitted small (n - 1 - i) i (omega arith)

  abbrev vers : Array ℕ
  vers = versions_before cub n submitted small

  abbrev version_write? : Array ℕ
  version_write? = version_writes cub n submitted small

  -- What the kernels compute for one operation, from its kind and the three counts.
  write_b :
      (i : ℕ)
      → is_write i ≡ true
      → write_ops_after cub n submitted i ≡ 0
      → (loc i ≡ loc_record_b) × (version_write? i ≡ 0)
  unfolding rw_locations rw_location rw_ops_type calc_operation_type version_write_extractor
  write_b i w a = ground arith

  write_version :
      (i : ℕ)
      → is_write i ≡ true
      → 0 < write_ops_after cub n submitted i
      → (loc i ≡ vers i) × (version_write? i ≡ 1)
  unfolding rw_locations rw_location rw_ops_type calc_operation_type version_write_extractor
  write_version i w a = ground arith

  no_write : (i : ℕ) → is_write i ≡ false → version_write? i ≡ 0
  unfolding rw_ops_type calc_operation_type version_write_extractor
  no_write i w = ground arith

  read_a :
      (i : ℕ) → is_write i ≡ false → write_ops_before cub n submitted i ≡ 0 → loc i ≡ loc_record_a
  unfolding rw_locations rw_location rw_ops_type calc_operation_type
  read_a i w b = ground arith

  read_b :
      (i : ℕ)
      → is_write i ≡ false
      → 0 < write_ops_before cub n submitted i
      → write_ops_after cub n submitted i ≡ 0
      → loc i ≡ loc_record_b
  unfolding rw_locations rw_location rw_ops_type calc_operation_type
  read_b i w b a = ground arith

  read_version :
      (i : ℕ)
      → is_write i ≡ false
      → 0 < write_ops_before cub n submitted i
      → 0 < write_ops_after cub n submitted i
      → loc i ≡ (vers i + 2 ^ 32 - 1) % 2 ^ 32
  unfolding rw_locations rw_location rw_ops_type calc_operation_type
  read_version i w b a = ground arith

  -- Two writes of one record to its record B are one.
  pub write_b_unique :
      (i j : ℕ)
      → i < j
      → j < n
      → is_write i ≡ true
      → is_write j ≡ true
      → row i ≡ row j
      → loc i ≢ loc_record_b
  write_b_unique i j p h wi wj e = elim (after i (omega arith)) [
    | inl (z, l) ↦ absurd (ground (arith, l j p h))
    | inr (q, r) ↦
        ground (arith, write_version i wi q, versions_le cub n submitted small i (omega arith))
  ]

  -- The kinds of location of a write.
  write_cases :
      (i : ℕ)
      → i < n
      → is_write i ≡ true
      → ((loc i ≡ loc_record_b) × (version_write? i ≡ 0))
        ⊎ ((loc i ≡ vers i) × (version_write? i ≡ 1))
  write_cases i h w = elim (after i h) [
    | inl (z, l) ↦ inl (write_b i w z)
    | inr (q, r) ↦ inr (write_version i w q)
  ]

  -- In a batch of fewer than `2 ^ 32 - 2` operations, a write that is not planned for record B
  -- has a location that no later write of the batch has: two writes never share a scratch
  -- version.
  pub write_version_unique :
      (i j : ℕ)
      → i < j
      → j < n
      → is_write i ≡ true
      → is_write j ≡ true
      → loc i ≢ loc_record_b
      → loc i ≢ loc j
  write_version_unique i j p h wi wj ne = elim (write_cases i (omega arith) wi) [
    | inl (b, z) ↦ absurd (ne b)
    | inr (v, one) ↦
        let le = versions_mono cub n submitted small (suc i) j (omega arith) h in
        let st = versions_step cub n submitted small i (omega arith) in
        let lj = versions_le cub n submitted small i (omega arith) in
        elim (write_cases j h wj) [ inl (b, z) ↦ omega arith | inr (v', one') ↦ omega arith ]
  ]

  pub write_not_a : (i : ℕ) → i < n → is_write i ≡ true → loc i ≢ loc_record_a
  write_not_a i h w = elim (write_cases i h w) [
    | inl (b, z) ↦ omega arith
    | inr (v, one) ↦ omega (arith, versions_le cub n submitted small i h)
  ]

  -- Between the last write of the record and the operation there are reads of the record alone.
  between :
      (i j k : ℕ) → i < n → last_write op (row i) i ≡ some j → j < k → k < i → is_write k ≡ false
  between i j k h e p q = ground (
    arith,
    last_write-none_after op (row i) i j k e p q,
    last_write-writes op (row i) i j e,
    ops_sorted cub n submitted small j k (omega arith) (omega arith),
    ops_sorted cub n submitted small k i (omega arith) h,
  )

  -- The last write before a read with no later write has no later write either.
  none_after_source :
      (i j k : ℕ)
      → i < n
      → is_write i ≡ false
      → last_write op (row i) i ≡ some j
      → ((k : ℕ) → i < k → k < n → writes (op k) (row i) ≡ false)
      → j < k
      → k < n
      → writes (op k) (row j) ≡ false
  none_after_source i j k h w e later p q =
      let same = last_write-writes op (row i) i j e in
      elim (dec_lt k i) [
        | yes l ↦ ground (arith, between i j k h e p l)
        | no nl ↦ elim (ℕ_discrete k i) [
          | yes eq ↦ rw eq (ground arith)
          | no ne ↦ ground (arith, later k (omega arith) q)
        ]
      ]

  follows_b :
      (i j : ℕ)
      → i < n
      → is_write i ≡ false
      → last_write op (row i) i ≡ some j
      → ((k : ℕ) → i < k → k < n → writes (op k) (row i) ≡ false)
      → loc j ≡ loc_record_b
  follows_b i j h w e later =
      let source = last_write-writes op (row i) i j e in
      elim (after j (omega arith)) [
        | inl (z, l) ↦ (write_b j (ground arith) z).0
        | inr (q, (k, jk, kn, wk)) ↦
            absurd (ground (arith, none_after_source i j k h w e later jk kn))
      ]

  follows_version :
      (i j k : ℕ)
      → i < n
      → is_write i ≡ false
      → last_write op (row i) i ≡ some j
      → i < k
      → k < n
      → writes (op k) (row i) ≡ true
      → (loc j ≡ vers j) × (vers i ≡ vers j + 1)
  follows_version i j k h w e ik kn wk =
      let source = last_write-writes op (row i) i j e in
      let gap =
        versions_const cub n submitted small (suc j) i (omega arith) h
          (λ m p q. no_write m (between i j m h e (omega arith) q)) in
      elim (after j (omega arith)) [
        | inl (z, l) ↦ absurd (ground (arith, l k (omega arith) kn))
        | inr (q, later) ↦
            let v = write_version j (ground arith) q in
            (v.0, omega (arith, gap, versions_step cub n submitted small j (omega arith), v.1))
      ]

  -- Where a read that follows a write of its record looks, that write puts its value.
  follows :
      (i j : ℕ)
      → i < n
      → is_write i ≡ false
      → last_write op (row i) i ≡ some j
      → 0 < write_ops_before cub n submitted i
      → (loc j ≡ loc i) × (loc i ≢ loc_record_a)
  follows i j h w e b = elim (after i h) [
    | inl (z, later) ↦ omega (arith, follows_b i j h w e later, read_b i w b z)
    | inr (q, (k, ik, kn, wk)) ↦ omega (
      arith,
      follows_version i j k h w e ik kn wk,
      read_version i w b q,
      versions_le cub n submitted small i h,
    )
  ]

  -- In a batch of fewer than `2 ^ 32 - 2` operations, a read is planned for record A where no
  -- write of its record stands before it in the sorted order; otherwise it is planned for the
  -- location of the last such write, and that is not record A.
  pub read_location :
      (i : ℕ)
      → i < n
      → is_write i ≡ false
      → ((loc i ≡ loc_record_a) × (last_write op (row i) i ≡ none))
        ⊎ ((j : ℕ) × (last_write op (row i) i ≡ some j) × (loc j ≡ loc i) × (loc i ≢ loc_record_a))
  read_location i h w = elim (before_lem cub n submitted small i h) [
    | inl (z, l) ↦ inl (read_a i w z, l)
    | inr (p, (j, l)) ↦ let f = follows i j h w l p in inr (j, l, f.0, f.1)
  ]

  -- The last write of a record in the batch is planned for its record B.
  pub last_write-record_b : (r j : ℕ) → last_write op r n ≡ some j → loc j ≡ loc_record_b
  last_write-record_b r j e =
      let source = last_write-writes op r n j e in
      elim (after j (omega arith)) [
        | inl (z, l) ↦ (write_b j (ground arith) z).0
        | inr (q, (k, jk, kn, wk)) ↦
            absurd (ground (arith, last_write-none_after op r n j k e jk kn))
      ]
