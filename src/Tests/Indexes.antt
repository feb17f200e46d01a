-- ===== src/Tests/Indexes.antt =====
-- The indexes of EGAD/hashtable_index.h and EGAD/std_map_index.h on small data.
use egad_code.Prelude.{
  ℕ, ◌≡◌, refl, true, Option, none, some, [], ◌∷◌, ◌++◌, ◌==◌, if◌then◌else◌, arith,
}
use egad_code.Prelude.Maps.{KeyedMap}
use egad_code.Index.{
  Element, RowIndex, rows_from, create, find_or_insert_row, delete_row, search_or_insert,
  unordered_search_or_insert, search,
}
use egad_code.Index.Rows.{IsAllocation, create-IsAllocation, take_row, same_rows}
use egad_code.Storage.{update}
use egad_code.Index.Hashtable.{rows, find_or_insert_row_lem, delete_row_lem}
use egad_code.Index.Plain.{search_or_insert_lem}

-- Maps as functions.
abbrev functions : (V : Type 0) → KeyedMap V
functions V = record {
  Map = ℕ → Option V;
  empty = λ k. none;
  find = λ m k. m k;
  emplace = λ m k v j. if k == j then elim (m k) [ none ↦ some v | some w ↦ some w ] else m j;
  assign = λ m k v j. if k == j then some v else m j;
  erase = λ m k j. if k == j then none else m j;
  find-empty = λ k. refl;
  find-emplace = λ m k v j. refl;
  find-assign = λ m k v j. refl;
  find-erase = λ m k j. refl;
}

-- Four rows; key 70 has row 0 since epoch 5, rows 1, 2 and 3 are free.
abbrev one_key : ℕ → Option Element
one_key k = if 70 == k then some (record { row_id = 0; epoch_id = 5 }) else none

created-IsAllocation : IsAllocation 4 (0 ∷ 1 ∷ 2 ∷ 3 ∷ []) (λ k. none)
unfolding rows_from
created-IsAllocation = create-IsAllocation 4 (λ k. none) (λ k. refl)

abbrev given : RowIndex (functions Element)
given = record { free_list = 1 ∷ 2 ∷ 3 ∷ []; map = one_key }

given_row : (k : ℕ) → rows (functions Element) one_key k ≡ update (λ j. none) 70 (some 0) k
given_row k = ground arith

given-IsAllocation : IsAllocation 4 given.free_list (rows (functions Element) given.map)
given-IsAllocation =
    same_rows 4 given.free_list (update (λ j. none) 70 (some 0)) _ given_row
      (take_row 4 0 (1 ∷ 2 ∷ 3 ∷ []) (λ j. none) 70 created-IsAllocation refl)

find_or_insert_row_lem_example :
    (index : RowIndex (functions Element)) × (find_or_insert_row (functions Element) given 80 6
      ≡ some (index, 1))
    × ((k : ℕ)
        → rows (functions Element) index.map k
          ≡ (if k == 80 then some 1 else rows (functions Element) one_key k))
    × IsAllocation 4 index.free_list (rows (functions Element) index.map)
find_or_insert_row_lem_example =
    find_or_insert_row_lem (functions Element) 4 1 (2 ∷ 3 ∷ []) one_key 80 6 given-IsAllocation

delete_row_lem_example :
    let index = delete_row (functions Element) given 70 5 in
    (index.free_list ≡ (1 ∷ 2 ∷ 3 ∷ []) ++ (0 ∷ []))
    × ((k : ℕ)
        → rows (functions Element) index.map k
          ≡ (if k == 70 then none else rows (functions Element) one_key k))
    × IsAllocation 4 index.free_list (rows (functions Element) index.map)
delete_row_lem_example =
    delete_row_lem (functions Element) 4 given 70 5 (record { row_id = 0; epoch_id = 5 })
      given-IsAllocation refl (omega arith)

search_or_insert_lem_example :
    (index : RowIndex (functions ℕ)) × (search_or_insert (functions ℕ) (create (functions ℕ) 4) 80
      ≡ some (index, 0, true))
    × (unordered_search_or_insert (functions ℕ) (create (functions ℕ) 4) 80 ≡ some (index, 0, true))
    × (search (functions ℕ) index 80 ≡ 0)
    × ((k : ℕ) → index.map k ≡ (if k == 80 then some 0 else none))
    × IsAllocation 4 index.free_list index.map
    × (search_or_insert (functions ℕ) (record { free_list = []; map = λ k. none }) 80 ≡ none)
unfolding rows_from
search_or_insert_lem_example =
    search_or_insert_lem (functions ℕ) 4 0 (1 ∷ 2 ∷ 3 ∷ []) (λ k. none) 80 created-IsAllocation
