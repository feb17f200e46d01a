-- ===== src/Index/Hashtable.antt =====
-- EGAD/hashtable_index.h: `StdHashtableIndex` as an allocation of rows to keys.
use mathlib.Core.Option
use egad_code.Prelude.{
  or_else, ℕ, ◌≤◌, ◌≡◌, refl, sym, ◌∙◌, ap, Option, none, some, List, [], ◌∷◌, ◌++◌, ◌==◌, ltb,
  if◌then◌else◌, arith, Bool-cases, Option-cases, inl, inr, true, false, ==_refl, ==→eq,
}
use egad_code.Prelude.Maps.{KeyedMap}
use egad_code.Prelude.Words.{absent}
use egad_code.Storage.{update}
use egad_code.Index.{Element, RowIndex, find_or_insert_row, find_row, delete_row}
use egad_code.Index.Rows.{IsAllocation, take_row, give_row, same_rows}

module _ (api : KeyedMap Element) where
  -- The row that a key has.
  abbrev pub rows : KeyedMap.Map api → ℕ → Option ℕ
  rows m k = Option.map Element.row_id (api.find m k)

  -- Noting the epoch changes no row.
  noted :
      (m : KeyedMap.Map api) (key epoch_id : ℕ) (entry : Element) (k : ℕ)
      → api.find m key ≡ some entry
      → rows
          (if entry.epoch_id == epoch_id
            then m
            else api.assign m key (record { row_id = entry.row_id; epoch_id = epoch_id }))
          k
        ≡ rows m k
  noted m key epoch_id entry k e = elim (Bool-cases (entry.epoch_id == epoch_id)) [
    | inl same ↦ rw same refl
    | inr other ↦
        let new : Element = record { row_id = entry.row_id; epoch_id = epoch_id } in
        let found = api.find-assign m key new k in
        elim (Bool-cases (key == k)) [
          | inl at ↦
              let k_is : key ≡ k = ==→eq key k at in
              rw (other, found, at)
                (sym (ap (Option.map Element.row_id) (ap (api.find m) (sym k_is) ∙ e)))
          | inr away ↦ rw (other, found, away) refl
        ]
  ]

  -- An emplaced key has its old row, or the new one.
  emplaced_old :
      (m : KeyedMap.Map api) (key : ℕ) (element entry : Element) (k : ℕ)
      → api.find m key ≡ some entry
      → api.find (api.emplace m key element) k ≡ api.find m k
  emplaced_old m key element entry k e = elim (Bool-cases (key == k)) [
    | inl at ↦
        let k_is : key ≡ k = ==→eq key k at in
        api.find-emplace m key element k ∙ rw (at, e) (sym (ap (api.find m) (sym k_is) ∙ e))
    | inr away ↦ api.find-emplace m key element k ∙ rw away refl
  ]

  emplaced_new :
      (m : KeyedMap.Map api) (key : ℕ) (element : Element) (k : ℕ)
      → api.find m key ≡ none
      → api.find (api.emplace m key element) k ≡ (if key == k then some element else api.find m k)
  emplaced_new m key element k e = api.find-emplace m key element k ∙ rw e refl

  own_row :
      (m : KeyedMap.Map api) (key row : ℕ) (entry : Element) (k : ℕ)
      → api.find m key ≡ some entry
      → rows m k ≡ (if k == key then some (or_else (rows m key) row) else rows m k)
  own_row m key row entry k e = elim (Bool-cases (k == key)) [
    | inl at ↦ rw at (ap (rows m) (==→eq k key at) ∙ rw e refl)
    | inr away ↦ rw away refl
  ]

  new_row :
      (m : KeyedMap.Map api) (key : ℕ) (element : Element) (k : ℕ)
      → api.find m key ≡ none
      → rows (api.emplace m key element) k ≡ update (rows m) key (some element.row_id) k
  new_row m key element k missing = elim (Bool-cases (key == k)) [
    | inl at ↦
        let flip : (k == key) ≡ true = ground (arith, at) in
        rw (emplaced_new m key element k missing, at, flip) refl
    | inr away ↦
        let flip : (k == key) ≡ false = ground (arith, away) in
        rw (emplaced_new m key element k missing, away, flip) refl
  ]

  -- The final map of an insertion, whose key's element is `entry`.
  abbrev after : KeyedMap.Map api → ℕ → ℕ → Element → Element → KeyedMap.Map api
  after m key epoch_id element entry =
      let map = api.emplace m key element in
      if entry.epoch_id == epoch_id
      then map
      else api.assign map key (record { row_id = entry.row_id; epoch_id = epoch_id })

  -- An insertion when a row is free: a key that has a row keeps it, another one gets the first free
  -- row; no other key's row changes, and rows stay below the bound, given to one key each and apart
  -- from the free ones.
  pub find_or_insert_row_lem :
      (max_row_id row : ℕ) (rest : List ℕ) (m : KeyedMap.Map api) (key epoch_id : ℕ)
      → IsAllocation max_row_id (row ∷ rest) (rows m)
      → let given = or_else (rows m key) row in
        (index : RowIndex api) × (find_or_insert_row api
            (record { free_list = row ∷ rest; map = m })
            key
            epoch_id
          ≡ some (index, given))
        × ((k : ℕ) → rows index.map k ≡ (if k == key then some given else rows m k))
        × IsAllocation max_row_id index.free_list (rows index.map)
  unfolding find_or_insert_row
  find_or_insert_row_lem max_row_id row rest m key epoch_id a =
      let element : Element = record { row_id = row; epoch_id = epoch_id } in
      elim (Option-cases (api.find m key)) [
        | inr there ↦
            let (entry, e) = there in
            let found = emplaced_old m key element entry key e ∙ e in
            let same : (k : ℕ) → rows (after m key epoch_id element entry) k ≡ rows m k = λ k.
              noted (api.emplace m key element) key epoch_id entry k found
              ∙ ap (Option.map Element.row_id) (emplaced_old m key element entry k e) in
            (
              record { free_list = row ∷ rest; map = after m key epoch_id element entry },
              rw (e, found) refl,
              λ k. same k ∙ own_row m key row entry k e,
              same_rows max_row_id (row ∷ rest) (rows m) _ same a,
            )
        | inl missing ↦
            let found = emplaced_new m key element key missing ∙ rw (==_refl key) refl in
            let new : (k : ℕ)
                → rows (after m key epoch_id element element) k ≡ update (rows m) key (some row) k =
              λ k.
                noted (api.emplace m key element) key epoch_id element k found
                ∙ new_row m key element k missing in
            (
              record { free_list = rest; map = after m key epoch_id element element },
              rw (missing, found) refl,
              λ k. new k ∙ rw missing refl,
              same_rows max_row_id rest (update (rows m) key (some row)) _ new
                  (take_row max_row_id row rest (rows m) key a (rw missing refl)),
            )
      ]

  erased :
      (m : KeyedMap.Map api) (key k : ℕ) → rows (api.erase m key) k ≡ update (rows m) key none k
  erased m key k = elim (Bool-cases (key == k)) [
    | inl at ↦
        let flip : (k == key) ≡ true = ground (arith, at) in
        rw (api.find-erase m key k, at, flip) refl
    | inr away ↦
        let flip : (k == key) ≡ false = ground (arith, away) in
        rw (api.find-erase m key k, away, flip) refl
  ]

  delete_row-old :
      (index : RowIndex api) (key epoch_id : ℕ) (entry : Element)
      → api.find index.map key ≡ some entry
      → entry.epoch_id ≤ epoch_id
      → delete_row api index key epoch_id ≡ record {
        free_list = index.free_list ++ (entry.row_id ∷ []);
        map = api.erase index.map key;
      }
  unfolding delete_row
  delete_row-old index key epoch_id entry e old =
      let kept : ltb epoch_id entry.epoch_id ≡ false = ground arith in rw (delete_row, e, kept) refl

  find_row-there :
      (index : RowIndex api) (key epoch_id : ℕ) (entry : Element)
      → api.find index.map key ≡ some entry
      → find_row api index key epoch_id ≡ (
        record index {
          map =
              if entry.epoch_id == epoch_id
              then index.map
              else api.assign index.map key (record { row_id = entry.row_id; epoch_id = epoch_id });
        },
        entry.row_id,
      )
  unfolding find_row
  find_row-there index key epoch_id entry e = rw (find_row, e) refl

  find_row-missing :
      (index : RowIndex api) (key epoch_id : ℕ)
      → api.find index.map key ≡ none
      → find_row api index key epoch_id ≡ (index, absent)
  unfolding find_row
  find_row-missing index key epoch_id e = rw (find_row, e) refl

  -- A deletion of a key whose element was used last in the given epoch or before it: the key's row
  -- goes to the end of the free list and the key has none, no other key's row changes, and rows stay
  -- below the bound, given to one key each and apart from the free ones.
  pub delete_row_lem :
      (max_row_id : ℕ) (index : RowIndex api) (key epoch_id : ℕ) (entry : Element)
      → IsAllocation max_row_id index.free_list (rows index.map)
      → api.find index.map key ≡ some entry
      → entry.epoch_id ≤ epoch_id
      → let index' = delete_row api index key epoch_id in
        (index'.free_list ≡ index.free_list ++ (entry.row_id ∷ []))
        × ((k : ℕ) → rows index'.map k ≡ (if k == key then none else rows index.map k))
        × IsAllocation max_row_id index'.free_list (rows index'.map)
  delete_row_lem max_row_id index key epoch_id entry a e old =
      let given =
        give_row max_row_id entry.row_id index.free_list (rows index.map) key a (rw e refl) in
      rw (delete_row-old index key epoch_id entry e old) (
        refl,
        erased index.map key,
        same_rows max_row_id (index.free_list ++ (entry.row_id ∷ []))
            (update (rows index.map) key none) _ (erased index.map key) given,
      )

  -- A lookup changes no row.
  pub find_row_lem :
      (max_row_id : ℕ) (index : RowIndex api) (key epoch_id : ℕ)
      → IsAllocation max_row_id index.free_list (rows index.map)
      → let index' = (find_row api index key epoch_id).0 in
        ((find_row api index key epoch_id).1 ≡ or_else (rows index.map key) absent)
        × ((k : ℕ) → rows index'.map k ≡ rows index.map k)
        × IsAllocation max_row_id index'.free_list (rows index'.map)
  find_row_lem max_row_id index key epoch_id a = elim (Option-cases (api.find index.map key)) [
    | inl missing ↦ rw (find_row-missing index key epoch_id missing, missing) (refl, λ k. refl, a)
    | inr there ↦
        let (entry, e) = there in
        let same : (k : ℕ)
            → rows
                (if entry.epoch_id == epoch_id
                  then index.map
                  else api.assign index.map key
                      (record { row_id = entry.row_id; epoch_id = epoch_id }))
                k
              ≡ rows index.map k =
          λ k. noted index.map key epoch_id entry k e in
        rw (find_row-there index key epoch_id entry e, e)
          (refl, same, same_rows max_row_id index.free_list (rows index.map) _ same a)
  ]
