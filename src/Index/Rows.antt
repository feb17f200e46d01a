-- ===== src/Index/Rows.antt =====
-- EGAD/hashtable_index.h and its siblings: the rows that an index has given to keys, and its free
-- list.
use egad_code.Prelude.{
  ℕ, zero, suc, ◌+◌, ◌≤◌, ◌<◌, ◌≡◌, ◌≢◌, ◌⊎◌, sym, ◌∙◌, ap, Option, none, some, List, [], ◌∷◌, ◌++◌,
  All, ◌==◌, arith, Bool-cases, inl, inr, ==→eq, true,
}
use egad_code.Storage.{update}
use egad_code.Index.{rows_from}

-- No row occurs twice.
pub Distinct : List ℕ → Type 0
Distinct [] = Unit
Distinct (r ∷ rs) = All (λ s. s ≢ r) rs × Distinct rs

-- Rows are below `max_row_id`, no row is free twice, no row that a key has is free, and no two keys
-- have the same row.
pub record IsAllocation (max_row_id : ℕ) (free : List ℕ) (row : ℕ → Option ℕ) : Type 0 where
  pub free_bounded : All (λ r. r < max_row_id) free
  pub free_distinct : Distinct free
  pub bounded : (k r : ℕ) → row k ≡ some r → r < max_row_id
  pub apart : (k r : ℕ) → row k ≡ some r → All (λ s. s ≢ r) free
  pub injective : (j k r : ℕ) → row j ≡ some r → row k ≡ some r → j ≡ k

some-injective : {a b : ℕ} → some a ≡ some b → a ≡ b
some-injective e = ap (λ o. elim o [ none ↦ 0 | some x ↦ x ]) e

none-some : {a : ℕ} → none ≡ some a → ⊥
none-some e = cc e

-- Where an entry of an updated map comes from.
update-some :
    (row : ℕ → Option ℕ) (key : ℕ) (v : Option ℕ) (k s : ℕ)
    → update row key v k ≡ some s
    → ((k ≡ key) × (v ≡ some s)) ⊎ (row k ≡ some s)
update-some row key v k s e = elim (Bool-cases (k == key)) [
  | inl same ↦ inl (==→eq k key same, (rw same at e))
  | inr other ↦ inr (rw other at e)
]

-- All of a list without an element, from the element's being apart.
All-snoc : (P : ℕ → Type 0) (rs : List ℕ) (r : ℕ) → All P rs → P r → All P (rs ++ (r ∷ []))
All-snoc P [] r a p = (p, tt)
All-snoc P (s ∷ rs) r a p = (a.0, All-snoc P rs r a.1 p)

Distinct-snoc :
    (rs : List ℕ) (r : ℕ) → Distinct rs → All (λ s. s ≢ r) rs → Distinct (rs ++ (r ∷ []))
unfolding Distinct
Distinct-snoc [] r d a = (tt, tt)
Distinct-snoc (s ∷ rs) r d a =
    (All-snoc (λ t. t ≢ s) rs r d.0 (λ e. a.0 (sym e)), Distinct-snoc rs r d.1 a.1)

module _ (max_row_id : ℕ) where
  -- The first free row is given to a key without one.
  pub take_row :
      (r : ℕ) (free : List ℕ) (row : ℕ → Option ℕ) (key : ℕ)
      → IsAllocation max_row_id (r ∷ free) row
      → row key ≡ none
      → IsAllocation max_row_id free (update row key (some r))
  unfolding Distinct
  take_row r free row key a new = record {
    free_bounded = a.free_bounded.1;
    free_distinct = a.free_distinct.1;
    bounded = λ k s e. elim (update-some row key (some r) k s e) [
      | inl at ↦ rw (← some-injective at.1) a.free_bounded.0
      | inr old ↦ a.bounded k s old
    ];
    apart = λ k s e. elim (update-some row key (some r) k s e) [
      | inl at ↦ rw (← some-injective at.1) a.free_distinct.0
      | inr old ↦ (a.apart k s old).1
    ];
    injective = λ j k s e e'. elim (update-some row key (some r) j s e) [
      | inl at ↦ elim (update-some row key (some r) k s e') [
        | inl at' ↦ at.0 ∙ sym at'.0
        | inr old' ↦ absurd ((a.apart k s old').0 (some-injective at.1))
      ]
      | inr old ↦ elim (update-some row key (some r) k s e') [
        | inl at' ↦ absurd ((a.apart j s old).0 (some-injective at'.1))
        | inr old' ↦ a.injective j k s old old'
      ]
    ];
  }

  -- The row of a key goes to the end of the free list.
  pub give_row :
      (r : ℕ) (free : List ℕ) (row : ℕ → Option ℕ) (key : ℕ)
      → IsAllocation max_row_id free row
      → row key ≡ some r
      → IsAllocation max_row_id (free ++ (r ∷ [])) (update row key none)
  give_row r free row key a has =
      let kept : (k s : ℕ) → update row key none k ≡ some s → (row k ≡ some s) × (r ≢ s) = λ k s e.
        elim (Bool-cases (k == key)) [
          | inl same ↦ absurd (none-some (rw same at e))
          | inr other ↦
              let old : row k ≡ some s = rw other at e in
              (
                old,
                λ e'.
                    let at = a.injective key k s (has ∙ ap some e') old in
                    let hit : (k == key) ≡ true = ground (arith, at) in ground (arith, hit, other),
              )
        ] in
      record {
        free_bounded = All-snoc (λ t. t < max_row_id) free r a.free_bounded (a.bounded key r has);
        free_distinct = Distinct-snoc free r a.free_distinct (a.apart key r has);
        bounded = λ k s e. a.bounded k s (kept k s e).0;
        apart = λ k s e. All-snoc (λ t. t ≢ s) free r (a.apart k s (kept k s e).0) (kept k s e).1;
        injective = λ j k s e e'. a.injective j k s (kept j s e).0 (kept k s e').0;
      }

  -- The same rows by another function.
  pub same_rows :
      (free : List ℕ) (row row' : ℕ → Option ℕ)
      → ((k : ℕ) → row' k ≡ row k)
      → IsAllocation max_row_id free row
      → IsAllocation max_row_id free row'
  same_rows free row row' same a = record {
    free_bounded = a.free_bounded;
    free_distinct = a.free_distinct;
    bounded = λ k s e. a.bounded k s (sym (same k) ∙ e);
    apart = λ k s e. a.apart k s (sym (same k) ∙ e);
    injective = λ j k s e e'. a.injective j k s (sym (same j) ∙ e) (sym (same k) ∙ e');
  }

rows_from-All :
    (P : ℕ → Type 0) (from n : ℕ)
    → ((r : ℕ) → from ≤ r → r < from + n → P r)
    → All P (rows_from from n)
unfolding rows_from
rows_from-All P from zero p = tt
rows_from-All P from (suc n) p = (
  p from (omega arith) (omega arith),
  rows_from-All P (from + 1) n (λ r l m. p r (omega arith) (omega arith)),
)

rows_from-Distinct : (from n : ℕ) → Distinct (rows_from from n)
unfolding rows_from Distinct
rows_from-Distinct from zero = tt
rows_from-Distinct from (suc n) = (
  rows_from-All (λ s. s ≢ from) (from + 1) n (λ r l m e. omega arith),
  rows_from-Distinct (from + 1) n,
)

-- A new index: all rows are free.
pub create-IsAllocation :
    (max_row_id : ℕ) (row : ℕ → Option ℕ)
    → ((k : ℕ) → row k ≡ none)
    → IsAllocation max_row_id (rows_from 0 max_row_id) row
create-IsAllocation max_row_id row empty = record {
  free_bounded = rows_from-All (λ r. r < max_row_id) 0 max_row_id (λ r l m. omega arith);
  free_distinct = rows_from-Distinct 0 max_row_id;
  bounded = λ k r e. absurd (none-some (sym (empty k) ∙ e));
  apart = λ k r e. absurd (none-some (sym (empty k) ∙ e));
  injective = λ j k r e e'. absurd (none-some (sym (empty k) ∙ e'));
}
