-- ===== src/OrderedSet.antt =====
-- `std::set` of pointers with a comparator, as Timer.h uses it: the list of its elements in order.
-- Pointers are addresses. The laws of the operations are in the modules below.
pub mod Order
pub mod Laws
pub mod Ext
pub mod Filter
use my_coroutine.Common.{
  ℕ, zero, suc, Bool, true, false, ◌||◌, Option, none, some, List, [], ◌∷◌, ◌==◌, if◌then◌else◌,
}

-- Is the address among the elements?
abbrev pub member : ℕ → List ℕ → Bool
member a [] = false
member a (x ∷ xs) = a == x || member a xs

module _ (less : ℕ → ℕ → Bool) where
  -- `insert`: nothing changes where an equivalent element stands already.
  unfoldable pub insert : ℕ → List ℕ → List ℕ
  insert x [] = x ∷ []
  insert x (y ∷ ys) = if less x y then x ∷ y ∷ ys else if less y x then y ∷ insert x ys else y ∷ ys

  -- The position of the iterator that `insert(x).first` is; `begin()` is position 0.
  unfoldable pub insert_position : ℕ → List ℕ → ℕ
  insert_position x [] = 0
  insert_position x (y ∷ ys) =
      if less x y then 0 else if less y x then suc (insert_position x ys) else 0

  -- `find`: the element equivalent to `x`, `none` for `end()`.
  unfoldable pub find : ℕ → List ℕ → Option ℕ
  find x [] = none
  find x (y ∷ ys) = if less x y then none else if less y x then find x ys else some y

  -- `erase(find(x))`, where `find` is not `end()`.
  unfoldable pub erase : ℕ → List ℕ → List ℕ
  erase x [] = []
  erase x (y ∷ ys) = if less x y then y ∷ ys else if less y x then y ∷ erase x ys else ys

  -- `lower_bound(x)` as the elements before it.
  unfoldable pub before_bound : ℕ → List ℕ → List ℕ
  before_bound x [] = []
  before_bound x (y ∷ ys) = if less y x then y ∷ before_bound x ys else []

  -- `lower_bound(x)` as the elements from it on.
  unfoldable pub from_bound : ℕ → List ℕ → List ℕ
  from_bound x [] = []
  from_bound x (y ∷ ys) = if less y x then from_bound x ys else y ∷ ys
