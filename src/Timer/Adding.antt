-- ===== src/Timer/Adding.antt =====
-- What addTimer of TimerManager (Timer.cpp) adds.
use my_coroutine.Common.{ℕ, Bool, ◌≡◌, ◌==◌, ◌||◌, Option, arith}
use my_coroutine.Common.Int.{ℤ, ◌+ℤ◌}
use my_coroutine.Callback.{Callback}
use my_coroutine.OrderedSet.{member}
use my_coroutine.OrderedSet.Laws.{member-insert}
use my_coroutine.Timer.{TimerManager, less, insert_timer, add_timer, put, new_timer}
use my_coroutine.Timer.Comparator.{Timer, comparator-IsStrictOrder}

-- The timers of `r` are those of `m`, and the timer `a` with this period, deadline and callback.
pub record IsAdded (a : ℕ) (ms : ℤ) (cb : Option Callback) (recurring : Bool) (deadline : ℤ)
    (m r : TimerManager) : Type 0 where
  pub timer : r.heap a ≡ record { recurring = recurring; ms = ms; next = deadline; cb = cb }
  pub members : (b : ℕ) → member b r.timers ≡ (b == a || member b m.timers)

pub add_timer-IsAdded :
    (a : ℕ) (ms : ℤ) (cb : Option Callback) (recurring : Bool) (now : ℤ) (m : TimerManager)
    → IsAdded a ms cb recurring (now +ℤ ms) m (add_timer a ms cb recurring now m).1
unfolding add_timer insert_timer
add_timer-IsAdded a ms cb recurring now m =
    let heap : ℕ → Timer = put m.heap a (new_timer ms cb recurring now) in
    record {
      timer = ground arith;
      members = λ b. member-insert (less heap) (comparator-IsStrictOrder heap) b a m.timers;
    }
