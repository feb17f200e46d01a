-- ===== src/Tests/MapInstances.antt =====
-- Maps and sets as association lists.
use egad_code.Prelude.{
  ℕ, ◌≡◌, refl, Bool, true, false, none, some, List, [], ◌∷◌, ◌==◌, if◌then◌else◌, arith,
}
use egad_code.Prelude.Maps.{lookup, MapApi, SetApi}

abbrev remove : List (ℕ × ℕ) → ℕ → List (ℕ × ℕ)
remove [] k = []
remove ((j, v) ∷ es) k = let rest = remove es k in if j == k then rest else (j, v) ∷ rest

pub lookup-remove :
    (es : List (ℕ × ℕ)) (k j : ℕ) → lookup j (remove es k) ≡ (if k == j then none else lookup j es)
unfolding lookup
lookup-remove [] k j = ground arith
lookup-remove ((i, v) ∷ es) k j = ground (arith, lookup-remove es k j)

abbrev put_new : List (ℕ × ℕ) → ℕ → ℕ → List (ℕ × ℕ)
put_new es k v = elim (lookup k es) [ none ↦ (k, v) ∷ es | some w ↦ es ]

pub lookup-put_new :
    (es : List (ℕ × ℕ)) (k v j : ℕ)
    → lookup j (put_new es k v)
      ≡ (if k == j then elim (lookup k es) [ none ↦ some v | some w ↦ some w ] else lookup j es)
unfolding lookup
lookup-put_new es k v j = ground arith

pub lookup-cons :
    (es : List (ℕ × ℕ)) (k v j : ℕ)
    → lookup j ((k, v) ∷ es) ≡ (if k == j then some v else lookup j es)
unfolding lookup
lookup-cons es k v j = refl

pub lookup-empty : (j : ℕ) → lookup j [] ≡ none
unfolding lookup
lookup-empty j = refl

abbrev pub list_maps : MapApi
list_maps = record {
  Map = List (ℕ × ℕ);
  empty = [];
  find = λ m k. lookup k m;
  emplace = put_new;
  assign = λ m k v. (k, v) ∷ m;
  erase = remove;
  entries = λ m. m;
  find-empty = lookup-empty;
  find-emplace = lookup-put_new;
  find-assign = lookup-cons;
  find-erase = lookup-remove;
  find-entries = λ m k. refl;
}

abbrev member : List ℕ → ℕ → Bool
member [] k = false
member (x ∷ xs) k = let rest = member xs k in if x == k then true else rest

abbrev discard : List ℕ → ℕ → List ℕ
discard [] k = []
discard (x ∷ xs) k = let rest = discard xs k in if x == k then rest else x ∷ rest

pub member-discard :
    (xs : List ℕ) (k j : ℕ) → member (discard xs k) j ≡ (if k == j then false else member xs j)
member-discard [] k j = ground arith
member-discard (x ∷ xs) k j = ground (arith, member-discard xs k j)

abbrev pub list_sets : SetApi
list_sets = record {
  Set = List ℕ;
  empty = [];
  contains = member;
  insert = λ s k. k ∷ s;
  erase = discard;
  contains-empty = λ k. refl;
  contains-insert = λ s k j. refl;
  contains-erase = member-discard;
}
