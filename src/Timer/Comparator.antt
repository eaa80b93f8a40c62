-- ===== src/Timer/Comparator.antt =====
-- class Timer (Timer.h) and Timer::Comparator (Timer.cpp). The manager that a timer points to is the
-- one at hand, so the pointer is left out. A `shared_ptr` that may be null is an optional address.
use my_coroutine.Common.{ℕ, Bool, true, false, Option, none, some, arith, ltb, if◌then◌else◌}
use my_coroutine.Common.Int.{ℤ, ltb_ℤ}
use my_coroutine.Callback.{Callback}
use my_coroutine.OrderedSet.Order.{IsStrictOrder}

pub record Timer : Type 0 where
  pub recurring : Bool
  pub ms : ℤ
  pub next : ℤ
  pub cb : Option Callback

unfoldable pub comparator : (ℕ → Timer) → Option ℕ → Option ℕ → Bool
comparator heap none none = false
comparator heap none (some b) = true
comparator heap (some a) none = false
comparator heap (some a) (some b) =
    if ltb_ℤ (heap a).next (heap b).next
    then true
    else if ltb_ℤ (heap b).next (heap a).next
    then false
    else ltb a b

-- On pointers that are not null the comparator of the timers is a strict order that tells distinct
-- timers apart.
pub comparator-IsStrictOrder :
    (heap : ℕ → Timer) → IsStrictOrder (λ a b. comparator heap (some a) (some b))
unfolding comparator
comparator-IsStrictOrder heap = record {
  irrefl = λ a. ground arith;
  trans = λ a b c h k. ground arith;
  total = λ a b h k. ground arith;
}
