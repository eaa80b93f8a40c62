-- ===== src/OrderedSet/Filter.antt =====
-- A part of a sorted set, picked by a test.
use my_coroutine.Common.{ℕ, Bool, ◌≡◌, true, ◌&&◌, List, [], ◌∷◌, arith, filter, ◌==◌}
use my_coroutine.OrderedSet.{member}
use my_coroutine.OrderedSet.Order.{IsSorted, After}

pub member-filter :
    (q : ℕ → Bool) (b : ℕ) (xs : List ℕ) → member b (filter q xs) ≡ (q b && member b xs)
member-filter q b [] = ground arith
member-filter q b (x ∷ xs) = ground (arith, member-filter q b xs, ==-cong q b x)
  where
    ==-cong : (q : ℕ → Bool) (b x : ℕ) → (b == x) ≡ true → q b ≡ q x
    ==-cong q b x h = ground arith

module _ (less : ℕ → ℕ → Bool) (q : ℕ → Bool) where
  After-filter : (a : ℕ) (xs : List ℕ) → After less a xs → After less a (filter q xs)
  After-filter a [] t = tt
  After-filter a (x ∷ xs) t = ground (arith, After-filter a xs t.1)

  pub filter-IsSorted : (xs : List ℕ) → IsSorted less xs → IsSorted less (filter q xs)
  filter-IsSorted [] s = tt
  filter-IsSorted (x ∷ xs) s = ground (arith, filter-IsSorted xs s.1, After-filter x xs s.0)
