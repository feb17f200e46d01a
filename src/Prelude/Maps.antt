-- ===== src/Prelude/Maps.antt =====
-- The hash maps and sets of `ankerl::unordered_dense`, which the repository vendors: their
-- documented behaviour, as interfaces.
use Prim.Native.Nat.{ℕ}
use mathlib.Core.Path.{◌≡◌}
use mathlib.Core.Bool.{Bool, true, false}
use mathlib.Core.Option.{Option, none, some}
use mathlib.Core.List.{List, [], ◌∷◌}
use egad_code.Prelude.Tests.{◌==◌, if◌then◌else◌}

-- The value of the first entry with the key.
unfoldable pub lookup : ℕ → List (ℕ × ℕ) → Option ℕ
lookup k [] = none
lookup k ((j, v) ∷ es) = if j == k then some v else lookup k es

-- `map<uint32_t, uint32_t>`: `emplace` and `try_emplace` keep an entry that is there, `m[k] = v` is
-- `assign`, and `entries` is what an iteration visits.
pub record MapApi : Type 1 where
  pub Map : Type 0
  pub empty : Map
  pub find : Map → ℕ → Option ℕ
  pub emplace : Map → ℕ → ℕ → Map
  pub assign : Map → ℕ → ℕ → Map
  pub erase : Map → ℕ → Map
  pub entries : Map → List (ℕ × ℕ)
  pub find-empty : (k : ℕ) → find empty k ≡ none
  pub find-emplace :
      (m : Map) (k v j : ℕ)
      → find (emplace m k v) j
        ≡ (if k == j then elim (find m k) [ none ↦ some v | some w ↦ some w ] else find m j)
  pub find-assign :
      (m : Map) (k v j : ℕ) → find (assign m k v) j ≡ (if k == j then some v else find m j)
  pub find-erase : (m : Map) (k j : ℕ) → find (erase m k) j ≡ (if k == j then none else find m j)
  pub find-entries : (m : Map) (k : ℕ) → find m k ≡ lookup k (entries m)

-- `set<uint32_t>`.
pub record SetApi : Type 1 where
  pub Set : Type 0
  pub empty : Set
  pub contains : Set → ℕ → Bool
  pub insert : Set → ℕ → Set
  pub erase : Set → ℕ → Set
  pub contains-empty : (k : ℕ) → contains empty k ≡ false
  pub contains-insert :
      (s : Set) (k j : ℕ) → contains (insert s k) j ≡ (if k == j then true else contains s j)
  pub contains-erase :
      (s : Set) (k j : ℕ) → contains (erase s k) j ≡ (if k == j then false else contains s j)

-- `std::unordered_map` and `std::map` with keys of an integer type and values of type `V`: `emplace`
-- keeps an entry that is there, and an assignment through an iterator is `assign`.
pub record KeyedMap (V : Type 0) : Type 1 where
  pub Map : Type 0
  pub empty : Map
  pub find : Map → ℕ → Option V
  pub emplace : Map → ℕ → V → Map
  pub assign : Map → ℕ → V → Map
  pub erase : Map → ℕ → Map
  pub find-empty : (k : ℕ) → find empty k ≡ none
  pub find-emplace :
      (m : Map) (k : ℕ) (v : V) (j : ℕ)
      → find (emplace m k v) j
        ≡ (if k == j then elim (find m k) [ none ↦ some v | some w ↦ some w ] else find m j)
  pub find-assign :
      (m : Map) (k : ℕ) (v : V) (j : ℕ)
      → find (assign m k v) j ≡ (if k == j then some v else find m j)
  pub find-erase : (m : Map) (k j : ℕ) → find (erase m k) j ≡ (if k == j then none else find m j)
