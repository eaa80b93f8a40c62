-- ===== src/Timer/Deadlines.antt =====
-- The deadlines that getNextTimer and addTimer's notification are about.
use my_coroutine.Common.{
  ℕ, Bool, ◌≡◌, ◌≢◌, refl, true, false, Option, some, none, List, [], ◌∷◌, arith, ◌==◌,
}
use my_coroutine.Common.Int.{ℤ, pos, ◌<ℤ◌, ◌≤ℤ◌, ◌+ℤ◌, ◌-ℤ◌, +ℤ_parts, -ℤ_parts, eq_of_parts}
use my_coroutine.Callback.{Callback}
use my_coroutine.OrderedSet.{member, insert, insert_position}
use my_coroutine.OrderedSet.Order.{IsSorted}
use my_coroutine.Timer.{
  TimerManager, less, put, new_timer, no_timer, next_timeout, add_timer, get_next_timer,
}
use my_coroutine.Timer.Comparator.{Timer}
use my_coroutine.Timer.Heap.{put-ne}
use my_coroutine.Timer.Validity.{IsValid}
use my_coroutine.Timer.Due.{NotBefore, NotBefore-After}

-- What a wait of `r` milliseconds from `now` has to be, for the deadlines in the set.
pub record IsNextWait (heap : ℕ → Timer) (timers : List ℕ) (now r : ℤ) : Type 0 where
  pub idle : timers ≡ [] → r ≡ no_timer
  pub nonneg : timers ≢ [] → pos 0 ≤ℤ r
  pub overdue : (a : ℕ) → member a timers ≡ true → (heap a).next ≤ℤ now → r ≡ pos 0
  pub in_time : (a : ℕ) → member a timers ≡ true → now <ℤ (heap a).next → now +ℤ r ≤ℤ (heap a).next
  pub exact :
      timers ≢ []
      → ((a : ℕ) → member a timers ≡ true → now <ℤ (heap a).next)
      → (a : ℕ) × (member a timers ≡ true) × (now +ℤ r ≡ (heap a).next)

add-sub : (x y : ℤ) → y +ℤ (x -ℤ y) ≡ x
add-sub x y = eq_of_parts _ _ (omega (arith, +ℤ_parts y (x -ℤ y), -ℤ_parts x y))

NotBefore-member :
    (heap : ℕ → Timer) (t : ℤ) (a : ℕ) (xs : List ℕ)
    → NotBefore heap t xs
    → member a xs ≡ true
    → t ≤ℤ (heap a).next
NotBefore-member heap t a [] n i = cc
NotBefore-member heap t a (x ∷ xs) n i = ground (arith, NotBefore-member heap t a xs n.1)

next_timeout-IsNextWait :
    (heap : ℕ → Timer) (timers : List ℕ) (now : ℤ)
    → IsSorted (less heap) timers
    → IsNextWait heap timers now (next_timeout heap timers now)
next_timeout-IsNextWait heap [] now s = record {
  idle = λ e. refl;
  nonneg = λ e. absurd (e refl);
  overdue = λ a i h. cc;
  in_time = λ a i h. cc;
  exact = λ e. absurd (e refl);
}
next_timeout-IsNextWait heap (x ∷ xs) now s = record {
  idle = λ e. cc;
  nonneg = λ e. ground (arith, -ℤ_parts (heap x).next now);
  overdue = λ a i h. ground (arith, first a i);
  in_time = λ a i h. ground (
    arith,
    first a i,
    -ℤ_parts (heap x).next now,
    +ℤ_parts now (pos 0),
    +ℤ_parts now ((heap x).next -ℤ now),
  );
  exact = λ e coming.
      (x, ground arith, ground (arith, coming x (ground arith), add-sub (heap x).next now));
}
  where
    first : (a : ℕ) → member a (x ∷ xs) ≡ true → (heap x).next ≤ℤ (heap a).next
    first a i =
        NotBefore-member heap (heap x).next a (x ∷ xs) (omega arith, NotBefore-After heap x xs s.0)
          i

-- On a valid manager getNextTimer returns -1 if there is no timer, 0 if some timer is due, and else
-- a wait that is over exactly at the deadline of a timer in the set, and no later than any other
-- deadline.
pub get_next_timer-IsNextWait :
    (now : ℤ) (m : TimerManager)
    → IsValid m
    → IsNextWait m.heap m.timers now (get_next_timer now m).0
unfolding get_next_timer
get_next_timer-IsNextWait now m v = next_timeout-IsNextWait m.heap m.timers now v.sorted

-- The first deadline of a set, if there is one.
abbrev pub first_deadline : (ℕ → Timer) → List ℕ → Option ℤ
first_deadline heap [] = none
first_deadline heap (a ∷ _) = some (heap a).next

not_front-first :
    (heap : ℕ → Timer) (a : ℕ) (t : Timer) (xs : List ℕ)
    → member a xs ≡ false
    → (insert_position (less (put heap a t)) a xs == 0) ≡ false
    → first_deadline (put heap a t) (insert (less (put heap a t)) a xs) ≡ first_deadline heap xs
unfolding insert insert_position
not_front-first heap a t [] out h = cc
not_front-first heap a t (x ∷ xs) out h = ground (arith, put-ne heap a x t (x ∷ xs) out)

-- A new timer, at a fresh address, that addTimer does not announce while no announcement is pending
-- leaves the first deadline as it was.
add_timer_announced :
    (a : ℕ) (ms : ℤ) (cb : Option Callback) (recurring : Bool) (now : ℤ) (m : TimerManager)
    → member a m.timers ≡ false
    → m.tickled ≡ false
    → (add_timer a ms cb recurring now m).0 ≡ false
    → first_deadline
        (add_timer a ms cb recurring now m).1.heap
        (add_timer a ms cb recurring now m).1.timers
      ≡ first_deadline m.heap m.timers
unfolding add_timer
add_timer_announced a ms cb recurring now m fresh untickled silent =
    not_front-first m.heap a (new_timer ms cb recurring now) m.timers fresh (ground arith)
