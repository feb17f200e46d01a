-- ===== src/Index/Plain.antt =====
-- EGAD/std_map_index.h and EGAD/std_unordered_map_index.h as allocations of rows to keys.
use egad_code.Prelude.{
  is_none, or_else, ℕ, ◌≡◌, refl, sym, ◌∙◌, ap, none, some, List, [], ◌∷◌, ◌==◌, if◌then◌else◌,
  arith, Bool-cases, Option-cases, inl, inr, true, false, ==_refl, ==→eq,
}
use egad_code.Prelude.Maps.{KeyedMap}
use egad_code.Storage.{update}
use egad_code.Index.{RowIndex, search_or_insert, unordered_search_or_insert, search}
use egad_code.Index.Rows.{IsAllocation, take_row, same_rows}

module _ (api : KeyedMap ℕ) where
  kept :
      (m : KeyedMap.Map api) (key row value k : ℕ)
      → api.find m key ≡ some value
      → api.find (api.emplace m key row) k ≡ api.find m k
  kept m key row value k e = elim (Bool-cases (key == k)) [
    | inl at ↦
        api.find-emplace m key row k ∙ rw (at, e) (sym (ap (api.find m) (sym (==→eq key k at)) ∙ e))
    | inr away ↦ api.find-emplace m key row k ∙ rw away refl
  ]

  added :
      (m : KeyedMap.Map api) (key row k : ℕ)
      → api.find m key ≡ none
      → api.find (api.emplace m key row) k ≡ update (api.find m) key (some row) k
  added m key row k e = elim (Bool-cases (key == k)) [
    | inl at ↦
        let flip : (k == key) ≡ true = ground (arith, at) in
        rw (api.find-emplace m key row k, at, e, flip) refl
    | inr away ↦
        let flip : (k == key) ≡ false = ground (arith, away) in
        rw (api.find-emplace m key row k, away, flip) refl
  ]

  own :
      (m : KeyedMap.Map api) (key row value k : ℕ)
      → api.find m key ≡ some value
      → api.find m k ≡ (if k == key then some (or_else (api.find m key) row) else api.find m k)
  own m key row value k e = elim (Bool-cases (k == key)) [
    | inl at ↦ rw at (ap (api.find m) (==→eq k key at) ∙ rw e refl)
    | inr away ↦ rw away refl
  ]

  -- `searchOrInsert` of both indexes when a row is free: a key that has a row keeps it, another one gets the first
  -- free row and the flag says so; `search` then gives that row, no other key's row changes, and
  -- rows stay below the bound, given to one key each and apart from the free ones. When no row is
  -- free, that of `StdMapIndex` fails, also for a key that has a row.
  pub search_or_insert_lem :
      (max_row_id row : ℕ) (rest : List ℕ) (m : KeyedMap.Map api) (key : ℕ)
      → IsAllocation max_row_id (row ∷ rest) (api.find m)
      → let given = or_else (api.find m key) row in
        (index : RowIndex api) × (search_or_insert api
            (record { free_list = row ∷ rest; map = m })
            key
          ≡ some (index, given, is_none (api.find m key)))
        × (unordered_search_or_insert api (record { free_list = row ∷ rest; map = m }) key
            ≡ some (index, given, is_none (api.find m key)))
        × (search api index key ≡ given)
        × ((k : ℕ) → api.find index.map k ≡ (if k == key then some given else api.find m k))
        × IsAllocation max_row_id index.free_list (api.find index.map)
        × (search_or_insert api (record { free_list = []; map = m }) key ≡ none)
  unfolding search_or_insert unordered_search_or_insert search
  search_or_insert_lem max_row_id row rest m key a = elim (Option-cases (api.find m key)) [
    | inr there ↦
        let (value, e) = there in
        let same : (k : ℕ) → api.find (api.emplace m key row) k ≡ api.find m k =
          λ k. kept m key row value k e in
        (
          record { free_list = row ∷ rest; map = api.emplace m key row },
          rw (e, same key, e) refl,
          rw (e, same key, e) refl,
          rw (same key, e) refl,
          λ k. same k ∙ own m key row value k e,
          same_rows max_row_id (row ∷ rest) (api.find m) _ same a,
          refl,
        )
    | inl missing ↦
        let new : (k : ℕ)
            → api.find (api.emplace m key row) k ≡ update (api.find m) key (some row) k =
          λ k. added m key row k missing in
        let found : api.find (api.emplace m key row) key ≡ some row =
          new key ∙ rw (==_refl key) refl in
        (
          record { free_list = rest; map = api.emplace m key row },
          rw (missing, found) refl,
          rw (missing, found) refl,
          rw (found, missing) refl,
          λ k. new k ∙ rw missing refl,
          same_rows max_row_id rest (update (api.find m) key (some row)) _ new
              (take_row max_row_id row rest (api.find m) key a missing),
          refl,
        )
  ]
