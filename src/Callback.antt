-- ===== src/Callback.antt =====
-- The `std::function<void()>` values that the program stores: closures are named by their data.
-- An empty function is `none` of `Option Callback`.
use my_coroutine.Common.{ℕ, Option, none, some, Bool, if◌then◌else◌}
use my_coroutine.Common.Int.{ℤ}

pub data Callback : Type 0 where
  -- a function of the client
  user : ℕ → Callback
  -- `std::bind(&OnTimer, weak_cond, cb)` of Timer.cpp; the condition is named by an address
  on_timer : ℕ → Callback → Callback
  -- the closure that do_io and connect_with_timeout (Hook.cpp) give to a timer: the address of its
  -- timer_info, the descriptor, and the event as a number
  io_timeout : ℕ → ℤ → ℕ → Callback
  -- the closure that sleep (Hook.cpp) gives to a timer: it schedules the fiber at an address
  wake_fiber : ℕ → Callback

-- OnTimer (Timer.cpp): the callback that it calls, `none` where the condition has expired. `lock`
-- says which weak pointers can still be locked.
unfoldable pub on_timer_calls : (ℕ → Bool) → ℕ → Callback → Option Callback
on_timer_calls lock weak_cond cb = if lock weak_cond then some cb else none
