-- ===== src/Index.antt =====
-- EGAD/hashtable_index.h, EGAD/std_unordered_map_index.h and EGAD/std_map_index.h: indexes that give
-- each key a row from a list of free rows.
--
-- The maps of the standard library are a parameter. `none` is the exception that `StdMapIndex`
-- throws when no row is free, and for the other two the call of `front()` on an empty queue, which
-- the standard leaves undefined.
pub mod Rows
pub mod Hashtable
pub mod Plain
use mathlib.Core.Option
use egad_code.Prelude.{
  is_none, or_else, ℕ, zero, suc, ◌+◌, Bool, true, false, Option, none, some, List, [], ◌∷◌, ◌++◌,
  ltb, ◌==◌, if◌then◌else◌,
}
use egad_code.Prelude.Words.{absent}
use egad_code.Prelude.Maps.{KeyedMap}

-- A row with the epoch that used it last.
pub record Element : Type 0 where
  pub row_id : ℕ
  pub epoch_id : ℕ

-- An index over a map with values of type `V`.
pub record RowIndex {V : Type 0} (api : KeyedMap V) : Type 0 where
  pub free_list : List ℕ
  pub map : KeyedMap.Map api

-- `for (i = from; i < from + n; i++) free_list.push(i);`
unfoldable pub rows_from : ℕ → ℕ → List ℕ
rows_from from zero = []
rows_from from (suc n) = from ∷ rows_from (from + 1) n

module _ {V : Type 0} (api : KeyedMap V) where
  -- The constructors.
  abbrev pub create : ℕ → RowIndex api
  create max_row_id = record { free_list = rows_from 0 max_row_id; map = api.empty }

module _ (api : KeyedMap Element) where
  unfoldable pub find_or_insert_row : RowIndex api → ℕ → ℕ → Option (RowIndex api × ℕ)
  find_or_insert_row index key epoch_id = elim index.free_list [
    | [] ↦ none
    | row ∷ rest ↦
        let element : Element = record { row_id = row; epoch_id = epoch_id } in
        let inserted = is_none (api.find index.map key) in
        let map = api.emplace index.map key element in
        let entry = or_else (api.find map key) element in
        let map' =
          if entry.epoch_id == epoch_id
          then map
          else api.assign map key (record { row_id = entry.row_id; epoch_id = epoch_id }) in
        some
          (record { free_list = if inserted then rest else row ∷ rest; map = map' }, entry.row_id)
  ]

  unfoldable pub find_row : RowIndex api → ℕ → ℕ → RowIndex api × ℕ
  find_row index key epoch_id = elim (api.find index.map key) [
    | none ↦ (index, absent)
    | some entry ↦
        let map' =
          if entry.epoch_id == epoch_id
          then index.map
          else api.assign index.map key (record { row_id = entry.row_id; epoch_id = epoch_id }) in
        (record index { map = map' }, entry.row_id)
  ]

  unfoldable pub delete_row : RowIndex api → ℕ → ℕ → RowIndex api
  delete_row index key epoch_id = elim (api.find index.map key) [
    | none ↦ index
    | some entry ↦ if ltb epoch_id entry.epoch_id then index else record {
      free_list = index.free_list ++ (entry.row_id ∷ []);
      map = api.erase index.map key;
    }
  ]

module _ (api : KeyedMap ℕ) where
  -- `searchOrInsert` of `StdMapIndex`, with the flag of its second form.
  unfoldable pub search_or_insert : RowIndex api → ℕ → Option (RowIndex api × ℕ × Bool)
  search_or_insert index key = elim index.free_list [
    | [] ↦ none
    | value ∷ rest ↦
        let inserted = is_none (api.find index.map key) in
        let map = api.emplace index.map key value in
        some (
          record { free_list = if inserted then rest else value ∷ rest; map = map },
          or_else (api.find map key) value,
          inserted,
        )
  ]

  -- `search` of both; the value for a missing key is the default of the base class.
  unfoldable pub search : RowIndex api → ℕ → ℕ
  search index key = or_else (api.find index.map key) absent

  -- `searchOrInsert` of `StdUnorderedMapIndex`, which takes the front of the queue unasked.
  unfoldable pub unordered_search_or_insert : RowIndex api → ℕ → Option (RowIndex api × ℕ × Bool)
  unordered_search_or_insert index key =
      let inserted = is_none (api.find index.map key) in
      elim index.free_list [
        | [] ↦ none
        | value ∷ rest ↦
            let map = api.emplace index.map key value in
            let row = or_else (api.find map key) value in
            some (
              record { free_list = if inserted then rest else value ∷ rest; map = map },
              row,
              inserted,
            )
      ]
