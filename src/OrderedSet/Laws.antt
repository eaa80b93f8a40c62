-- ===== src/OrderedSet/Laws.antt =====
-- The operations of a sorted set: the order, and the members.
use my_coroutine.Common.{
  ℕ, Bool, ◌≡◌, refl, not, ◌&&◌, ◌||◌, true, false, some, none, List, [], ◌∷◌, arith, ◌==◌,
  if◌then◌else◌,
}
use my_coroutine.OrderedSet.{member, insert, find, erase}
use my_coroutine.OrderedSet.Order.{IsStrictOrder, After, IsSorted}

module _ (less : ℕ → ℕ → Bool) (o : IsStrictOrder less) where
  pub After-trans : (x y : ℕ) (xs : List ℕ) → less x y ≡ true → After less y xs → After less x xs
  After-trans x y [] h t = tt
  After-trans x y (z ∷ zs) h t = (o.trans x y z h t.0, After-trans x y zs h t.1)

  pub After-insert :
      (a x : ℕ) (xs : List ℕ) → less a x ≡ true → After less a xs → After less a (insert less x xs)
  unfolding insert
  After-insert a x [] h t = (h, tt)
  After-insert a x (y ∷ ys) h t = ground (arith, After-insert a x ys h t.1)

  pub insert-IsSorted : (x : ℕ) (xs : List ℕ) → IsSorted less xs → IsSorted less (insert less x xs)
  unfolding insert
  insert-IsSorted x [] s = (tt, tt)
  insert-IsSorted x (y ∷ ys) s = ground (
    arith,
    insert-IsSorted x ys s.1,
    λ (h : less x y ≡ true). After-trans x y ys h s.0,
    λ (h : less y x ≡ true). After-insert y x ys h s.0,
  )

  pub member-insert :
      (a x : ℕ) (xs : List ℕ) → member a (insert less x xs) ≡ (a == x || member a xs)
  unfolding insert
  member-insert a x [] = ground arith
  member-insert a x (y ∷ ys) = ground (arith, member-insert a x ys, o.total x y)

  pub not-member_of_After : (x : ℕ) (xs : List ℕ) → After less x xs → member x xs ≡ false
  not-member_of_After x [] t = refl
  not-member_of_After x (y ∷ ys) t = ground (arith, not-member_of_After x ys t.1, o.irrefl x)

  pub find-member :
      (x : ℕ) (xs : List ℕ)
      → IsSorted less xs
      → find less x xs ≡ (if member x xs then some x else none)
  unfolding find
  find-member x [] s = refl
  find-member x (y ∷ ys) s = ground (
    arith,
    find-member x ys s.1,
    o.total x y,
    o.irrefl x,
    λ (h : less x y ≡ true). not-member_of_After x ys (After-trans x y ys h s.0),
  )

  pub After-erase : (a x : ℕ) (xs : List ℕ) → After less a xs → After less a (erase less x xs)
  unfolding erase
  After-erase a x [] t = tt
  After-erase a x (y ∷ ys) t = ground (arith, After-erase a x ys t.1)

  pub erase-IsSorted : (x : ℕ) (xs : List ℕ) → IsSorted less xs → IsSorted less (erase less x xs)
  unfolding erase
  erase-IsSorted x [] s = tt
  erase-IsSorted x (y ∷ ys) s = ground (arith, erase-IsSorted x ys s.1, After-erase y x ys s.0)

  pub member-erase :
      (a x : ℕ) (xs : List ℕ)
      → IsSorted less xs
      → member a (erase less x xs) ≡ (not (a == x) && member a xs)
  unfolding erase
  member-erase a x [] s = ground arith
  member-erase a x (y ∷ ys) s = ground (
    arith,
    member-erase a x ys s.1,
    o.total x y,
    o.irrefl x,
    not-member_of_After y ys s.0,
    λ (h : less x y ≡ true). not-member_of_After x ys (After-trans x y ys h s.0),
  )
