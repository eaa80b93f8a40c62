-- ===== src/Timer/History.antt =====
-- Any sequence of calls on a TimerManager, as a step relation.
use my_coroutine.Common.{ℕ, Bool, ◌≡◌, false, true, none, Option, ok, is_some, if◌then◌else◌}
use my_coroutine.Common.Int.{ℤ}
use my_coroutine.Callback.{Callback}
use my_coroutine.OrderedSet.{member}
use my_coroutine.Timer.{
  TimerManager, timer_manager, add_timer, add_condition_timer, cancel, refresh, reset,
  get_next_timer, list_expired_cb,
}
use my_coroutine.Timer.Comparator.{Timer}
use my_coroutine.Timer.Validity.{
  IsValid, timer_manager-IsValid, add_timer-IsValid, refresh-IsValid, reset-IsValid, cancel-IsValid,
  get_next_timer-IsValid, cancel_total, cancelled,
}
use my_coroutine.Timer.Fires.{list_expired_cb-IsValid}

-- One call. The allocator gives a new timer an address that no timer in the set has.
pub data Step (m : TimerManager) : TimerManager → Type 0 where
  adds :
      (a : ℕ) (ms : ℤ) (cb : Option Callback) (recurring : Bool) (now : ℤ)
      → member a m.timers ≡ false
      → Step m (add_timer a ms cb recurring now m).1
  adds_condition :
      (a : ℕ) (ms : ℤ) (cb : Callback) (weak_cond : ℕ) (recurring : Bool) (now : ℤ)
      → member a m.timers ≡ false
      → Step m (add_condition_timer a ms cb weak_cond recurring now m).1
  cancels : (a : ℕ) (done : Bool) {n : TimerManager} → cancel a m ≡ ok (done, n) → Step m n
  refreshes : (a : ℕ) (now : ℤ) → Step m (refresh a now m).1
  resets : (a : ℕ) (ms : ℤ) (from_now : Bool) (now : ℤ) → Step m (reset a ms from_now now m).2
  asks_next : (now : ℤ) → Step m (get_next_timer now m).1
  expires : (p : ℕ) (now : ℤ) → member p m.timers ≡ false → Step m (list_expired_cb p now m).1

-- The managers that calls lead to from a new one, in a memory that holds no armed timer.
pub data Reach (heap : ℕ → Timer) (start : ℤ) : TimerManager → Type 0 where
  here : Reach heap start (timer_manager heap start)
  later : {m n : TimerManager} → Reach heap start m → Step m n → Reach heap start n

-- Every call keeps the invariant.
pub Step-IsValid : {m n : TimerManager} → Step m n → IsValid m → IsValid n
unfolding add_condition_timer
Step-IsValid {m} (adds a ms cb recurring now fresh) v =
    add_timer-IsValid a ms cb recurring now m fresh v
Step-IsValid {m} (adds_condition a ms cb weak_cond recurring now fresh) v =
    add_timer-IsValid a ms _ recurring now m fresh v
Step-IsValid {m} (cancels a done e) v = rw e at (cancel-IsValid a m v)
Step-IsValid {m} (refreshes a now) v = refresh-IsValid a now m v
Step-IsValid {m} (resets a ms from_now now) v = reset-IsValid a ms from_now now m v
Step-IsValid {m} (asks_next now) v = get_next_timer-IsValid now m v
Step-IsValid {m} (expires p now fresh) v = list_expired_cb-IsValid p now m fresh v

-- In every manager that calls lead to from a new one, in a memory that holds no armed timer, the
-- set is in order and each timer that has a callback is in it.
pub Reach-IsValid :
    {heap : ℕ → Timer} {start : ℤ} {m : TimerManager}
    → ((a : ℕ) → (heap a).cb ≡ none)
    → Reach heap start m
    → IsValid m
Reach-IsValid {heap} {start} blank here = timer_manager-IsValid heap start blank
Reach-IsValid blank (later r s) = Step-IsValid s (Reach-IsValid blank r)

-- After any history of calls on a new manager, in a memory that holds no armed timer, cancel
-- returns: it disarms a timer that has a callback and takes it out of the set, refuses any other,
-- and never erases end().
pub reachable_cancel :
    {heap : ℕ → Timer} {start : ℤ} {m : TimerManager}
    → ((a : ℕ) → (heap a).cb ≡ none)
    → Reach heap start m
    → (a : ℕ)
    → cancel a m ≡ (if is_some (m.heap a).cb then ok (true, cancelled a m) else ok (false, m))
reachable_cancel {m = m} blank r a = cancel_total a m (Reach-IsValid blank r)
