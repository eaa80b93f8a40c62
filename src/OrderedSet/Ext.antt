-- ===== src/OrderedSet/Ext.antt =====
-- Sorted lists under two comparators that agree on their elements.
use my_coroutine.Common.{ℕ, Bool, ◌≡◌, true, List, [], ◌∷◌, arith}
use my_coroutine.OrderedSet.{member}
use my_coroutine.OrderedSet.Order.{After, IsSorted}

-- On the elements of a list, `less` implies `less'`.
abbrev pub Agrees : (ℕ → ℕ → Bool) → (ℕ → ℕ → Bool) → List ℕ → Type 0
Agrees less less' xs =
    (a b : ℕ) → member a xs ≡ true → member b xs ≡ true → less a b ≡ true → less' a b ≡ true

module _ (less less' : ℕ → ℕ → Bool) where
  After-ext :
      (x : ℕ) (xs : List ℕ)
      → ((b : ℕ) → member b xs ≡ true → less x b ≡ true → less' x b ≡ true)
      → After less x xs
      → After less' x xs
  After-ext x [] h t = tt
  After-ext x (y ∷ ys) h t =
      (h y (ground arith) t.0, After-ext x ys (λ b i l. h b (ground arith) l) t.1)

  pub IsSorted-ext : (xs : List ℕ) → Agrees less less' xs → IsSorted less xs → IsSorted less' xs
  IsSorted-ext [] h s = tt
  IsSorted-ext (x ∷ xs) h s = (
    After-ext x xs (λ b i l. h x b (ground arith) (ground arith) l) s.0,
    IsSorted-ext xs (λ a b i j l. h a b (ground arith) (ground arith) l) s.1,
  )
