-- ===== src/Tests/Radix.antt =====
-- A concrete `Cub`: an insertion sort of the positions by record, and the sums by recursion.
use native.Mathlib.Decide.{ℕ_discrete, dec_lt}
use egad_code.Prelude.{
  ◌≢◌, sym, ℕ, zero, suc, ◌≤◌, ◌<◌, ◌≡◌, ◌⊎◌, refl, List, [], ◌∷◌, if◌then◌else◌, ltb, arith,
  length, get_or, All, Bool-cases, inl, inr,
}
use egad_code.Prelude.Words.{add32}
use egad_code.Planner.{Op, Array, Cub, get_record_id, same_row}

-- Position `x` stands before position `y`.
abbrev IsLower : Array Op → ℕ → ℕ → Type 0
IsLower a x y =
    (get_record_id (a x) < get_record_id (a y))
    ⊎ ((get_record_id (a x) ≡ get_record_id (a y)) × (x < y))

abbrev IsOrdered : Array Op → List ℕ → Type 0
IsOrdered a [] = Unit
IsOrdered a (x ∷ xs) = All (IsLower a x) xs × IsOrdered a xs

abbrev insert_position : Array Op → ℕ → List ℕ → List ℕ
insert_position a x [] = x ∷ []
insert_position a x (y ∷ ys) =
    let rest = insert_position a x ys in
    if ltb (get_record_id (a x)) (get_record_id (a y)) then x ∷ y ∷ ys else y ∷ rest

abbrev positions : ℕ → Array Op → List ℕ
positions zero a = []
positions (suc n) a = insert_position a n (positions n a)

insert-All :
    (P : ℕ → Type 0) (a : Array Op) (x : ℕ) (ys : List ℕ)
    → P x
    → All P ys
    → All P (insert_position a x ys)
insert-All P a x [] px h = (px, tt)
insert-All P a x (y ∷ ys) px (py, h) =
    elim (Bool-cases (ltb (get_record_id (a x)) (get_record_id (a y)))) [
      | inl b ↦ rw b (px, (py, h))
      | inr b ↦ rw b (py, insert-All P a x ys px h)
    ]

IsLower-All :
    (a : Array Op) (x y : ℕ) (ys : List ℕ)
    → get_record_id (a x) < get_record_id (a y)
    → All (IsLower a y) ys
    → All (IsLower a x) ys
IsLower-All a x y [] l h = tt
IsLower-All a x y (z ∷ zs) l (hz, h) = (
  elim hz [ inl p ↦ inl (omega arith) | inr p ↦ inl (omega (arith, p.0)) ],
  IsLower-All a x y zs l h,
)

insert-IsOrdered :
    (a : Array Op) (x : ℕ) (ys : List ℕ)
    → All (λ y. y < x) ys
    → IsOrdered a ys
    → IsOrdered a (insert_position a x ys)
insert-IsOrdered a x [] below h = (tt, tt)
insert-IsOrdered a x (y ∷ ys) (lt, below) (hy, h) =
    elim (Bool-cases (ltb (get_record_id (a x)) (get_record_id (a y)))) [
      | inl b ↦ rw b ((inl (ground arith), IsLower-All a x y ys (ground arith) hy), (hy, h))
      | inr b ↦
          rw b (insert-All (IsLower a y) a x ys (ground arith) hy, insert-IsOrdered a x ys below h)
    ]

insert-length :
    (a : Array Op) (x : ℕ) (ys : List ℕ) → length (insert_position a x ys) ≡ suc (length ys)
insert-length a x [] = refl
insert-length a x (y ∷ ys) = ground (arith, insert-length a x ys)

All-mono : (n : ℕ) (ys : List ℕ) → All (λ y. y < n) ys → All (λ y. y < suc n) ys
All-mono n [] h = tt
All-mono n (y ∷ ys) (hy, h) = (omega arith, All-mono n ys h)

positions_below : (n : ℕ) (a : Array Op) → All (λ y. y < n) (positions n a)
positions_below zero a = tt
positions_below (suc n) a =
    insert-All (λ y. y < suc n) a n (positions n a) (omega arith)
      (All-mono n (positions n a) (positions_below n a))

positions-length : (n : ℕ) (a : Array Op) → length (positions n a) ≡ n
positions-length zero a = refl
positions-length (suc n) a = omega (arith, insert-length a n (positions n a), positions-length n a)

positions-IsOrdered : (n : ℕ) (a : Array Op) → IsOrdered a (positions n a)
positions-IsOrdered zero a = tt
positions-IsOrdered (suc n) a =
    insert-IsOrdered a n (positions n a) (positions_below n a) (positions-IsOrdered n a)

get_or-All : (P : ℕ → Type 0) (xs : List ℕ) (i : ℕ) → i < length xs → All P xs → P (get_or xs i 0)
get_or-All P [] i l h = absurd (omega arith)
get_or-All P (x ∷ xs) zero l h = h.0
get_or-All P (x ∷ xs) (suc i) l h = get_or-All P xs i (omega arith) h.1

get_or-IsLower :
    (a : Array Op) (xs : List ℕ) (i j : ℕ)
    → i < j
    → j < length xs
    → IsOrdered a xs
    → IsLower a (get_or xs i 0) (get_or xs j 0)
get_or-IsLower a [] i j l h o = absurd (omega arith)
get_or-IsLower a (x ∷ xs) zero zero l h o = absurd (omega arith)
get_or-IsLower a (x ∷ xs) zero (suc j) l h o = get_or-All (IsLower a x) xs j (omega arith) o.0
get_or-IsLower a (x ∷ xs) (suc i) zero l h o = absurd (omega arith)
get_or-IsLower a (x ∷ xs) (suc i) (suc j) l h o =
    get_or-IsLower a xs i j (omega arith) (omega arith) o.1

abbrev origin : ℕ → Array Op → ℕ → ℕ
origin n a i = get_or (positions n a) i 0

origin-IsLower :
    (n : ℕ) (a : Array Op) (i j : ℕ) → i < j → j < n → IsLower a (origin n a i) (origin n a j)
origin-IsLower n a i j l h =
    get_or-IsLower a (positions n a) i j l (omega (arith, positions-length n a))
      (positions-IsOrdered n a)

pub origin-sorted :
    (n : ℕ) (a : Array Op) (i j : ℕ)
    → i ≤ j
    → j < n
    → get_record_id (a (origin n a i)) ≤ get_record_id (a (origin n a j))
origin-sorted n a i j l h = elim (ℕ_discrete i j) [
  | yes e ↦ rw e (omega arith)
  | no ne ↦ elim (origin-IsLower n a i j (omega arith) h) [
    | inl p ↦ omega arith
    | inr p ↦ omega (arith, p.0)
  ]
]

pub origin_lt : (n : ℕ) (a : Array Op) (i : ℕ) → i < n → origin n a i < n
origin_lt n a i l =
    get_or-All (λ y. y < n) (positions n a) i (omega (arith, positions-length n a))
      (positions_below n a)

origin_ne : (n : ℕ) (a : Array Op) (i j : ℕ) → i < j → j < n → origin n a i ≢ origin n a j
origin_ne n a i j l h e = elim (origin-IsLower n a i j l h) [
  | inl p ↦ ground arith
  | inr p ↦ omega (arith, p.1)
]

pub origin_injective :
    (n : ℕ) (a : Array Op) (i j : ℕ) → i < n → j < n → origin n a i ≡ origin n a j → i ≡ j
origin_injective n a i j p q e = elim (dec_lt i j) [
  | yes l ↦ absurd (origin_ne n a i j l q e)
  | no nl ↦ elim (dec_lt j i) [
    | yes r ↦ absurd (origin_ne n a j i r p (sym e))
    | no nr ↦ omega arith
  ]
]

pub origin_stable :
    (n : ℕ) (a : Array Op) (i j : ℕ)
    → i < j
    → j < n
    → get_record_id (a (origin n a i)) ≡ get_record_id (a (origin n a j))
    → origin n a i < origin n a j
origin_stable n a i j l h e = elim (origin-IsLower n a i j l h) [
  | inl p ↦ absurd (omega arith)
  | inr p ↦ p.1
]

abbrev sum_by_key : Array Op → Array ℕ → ℕ → ℕ
sum_by_key keys vals zero = 0
sum_by_key keys vals (suc i) =
    let before = sum_by_key keys vals i in
    if same_row (keys i) (keys (suc i)) then add32 before (vals i) else 0

abbrev sum : Array ℕ → ℕ → ℕ
sum vals zero = 0
sum vals (suc i) = add32 (sum vals i) (vals i)

abbrev pub radix : Cub
radix = record {
  sort = λ n a i. a (origin n a i);
  origin = origin;
  exclusive_sum_by_key = λ n keys vals. sum_by_key keys vals;
  exclusive_sum = λ n vals. sum vals;
  sort_sorted = origin-sorted;
  sort-origin = λ n a i l. refl;
  origin_lt = origin_lt;
  origin_injective = origin_injective;
  origin_stable = origin_stable;
  sum_by_key_zero = λ n keys vals l. refl;
  sum_by_key_suc = λ n keys vals i l. refl;
  sum_zero = λ n vals l. refl;
  sum_suc = λ n vals i l. refl;
}
