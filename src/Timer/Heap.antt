-- ===== src/Timer/Heap.antt =====
-- Writes to the memory of the timers, and the order of `m_timers`.
use my_coroutine.Common.{ℕ, ◌≡◌, true, false, List, [], ◌∷◌, arith, ◌==◌}
use my_coroutine.OrderedSet.{member}
use my_coroutine.OrderedSet.Order.{IsSorted}
use my_coroutine.OrderedSet.Ext.{IsSorted-ext}
use my_coroutine.Timer.{less, put}
use my_coroutine.Timer.Comparator.{Timer, comparator}

not_same_member :
    (a b : ℕ) (xs : List ℕ) → member a xs ≡ false → member b xs ≡ true → (a == b) ≡ false
not_same_member a b [] out i = cc
not_same_member a b (x ∷ xs) out i = ground (arith, not_same_member a b xs)

pub put-ne :
    (heap : ℕ → Timer) (a b : ℕ) (t : Timer) (xs : List ℕ)
    → member a xs ≡ false
    → member b xs ≡ true
    → put heap a t b ≡ heap b
put-ne heap a b t xs out i = rw (not_same_member a b xs out i)

pub put_self : (heap : ℕ → Timer) (a : ℕ) (t : Timer) → put heap a t a ≡ t
put_self heap a t = ground arith

pub put_other-IsSorted :
    (heap : ℕ → Timer) (a : ℕ) (t : Timer) (xs : List ℕ)
    → member a xs ≡ false
    → IsSorted (less heap) xs
    → IsSorted (less (put heap a t)) xs
unfolding comparator
put_other-IsSorted heap a t xs out s =
    IsSorted-ext (less heap) (less (put heap a t)) xs
      (λ b c i j l. rw (put-ne heap a b t xs out i, put-ne heap a c t xs out j, comparator) l) s

pub put_same-IsSorted :
    (heap : ℕ → Timer) (a : ℕ) (t : Timer) (xs : List ℕ)
    → t.next ≡ (heap a).next
    → IsSorted (less heap) xs
    → IsSorted (less (put heap a t)) xs
unfolding comparator
put_same-IsSorted heap a t xs same s =
    IsSorted-ext (less heap) (less (put heap a t)) xs (λ b c i j l. ground arith) s
