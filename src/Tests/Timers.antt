-- ===== src/Tests/Timers.antt =====
-- Two timers of one manager: a recurring one each 5 ms from time 0 at the address 1, and one that
-- expires once, at time 4, at the address 2.
use my_coroutine.Common.{ℕ, true, false, ◌≡◌, ◌==◌, ◌||◌, refl, some, [], ◌∷◌, ok, arith}
use my_coroutine.Common.Int.{pos, ◌+ℤ◌, ◌-ℤ◌, ◌<ℤ◌}
use my_coroutine.Callback.{user}
use my_coroutine.OrderedSet.{member, insert, insert_position}
use my_coroutine.Timer.{
  TimerManager, timer_manager, deadline_timer, add_timer, cancel, reset, get_next_timer,
  list_expired_cb, detect_clock_rollover, callbacks,
}
use my_coroutine.Timer.Comparator.{Timer, comparator}
use my_coroutine.Timer.Validity.{IsValid, cancelled}
use my_coroutine.Timer.Fires.{list_expired_cb-callbacks}
use my_coroutine.Timer.Deadlines.{IsNextWait, get_next_timer-IsNextWait}
use my_coroutine.Timer.Reset.{reset_armed, none_due_left}
use my_coroutine.Timer.Abstract.{view, replay}
use my_coroutine.Timer.Refinement.{view-replay}
use my_coroutine.Timer.History.{Reach, here, later, adds, expires, Reach-IsValid, reachable_cancel}

abbrev pub blank : ℕ → Timer
blank _ = deadline_timer (pos 0)

abbrev pub no_timers : TimerManager
no_timers = timer_manager blank (pos 0)

abbrev one_timer : TimerManager
one_timer = (add_timer 1 (pos 5) (some (user 7)) true (pos 0) no_timers).1

abbrev pub two_timers : TimerManager
two_timers = (add_timer 2 (pos 3) (some (user 8)) false (pos 1) one_timer).1

two_timers-Reach : Reach blank (pos 0) two_timers
unfolding timer_manager add_timer insert_position insert comparator ◌+ℤ◌
two_timers-Reach =
    later (later here (adds 1 (pos 5) (some (user 7)) true (pos 0) refl))
      (adds 2 (pos 3) (some (user 8)) false (pos 1) refl)

pub two_timers-IsValid : IsValid two_timers
two_timers-IsValid = Reach-IsValid (λ a. refl) two_timers-Reach

-- At time 4 only the second timer is due.
list_expired_cb-callbacks_example : (list_expired_cb 9 (pos 4) two_timers).0 ≡ some (user 8) ∷ []
unfolding timer_manager add_timer insert_position insert comparator ◌+ℤ◌ ◌-ℤ◌ detect_clock_rollover
    callbacks
list_expired_cb-callbacks_example =
    list_expired_cb-callbacks 9 (pos 4) two_timers refl two_timers-IsValid

-- The second timer has expired and is gone; the first is still there.
expired-Reach : Reach blank (pos 0) (list_expired_cb 9 (pos 4) two_timers).1
unfolding timer_manager add_timer insert_position insert comparator ◌+ℤ◌
expired-Reach = later two_timers-Reach (expires 9 (pos 4) refl)

view-replay_example : view (list_expired_cb 9 (pos 4) two_timers).1 2 ≡ replay expired-Reach 2
view-replay_example = view-replay (λ a. refl) expired-Reach 2

reachable_cancel_example : cancel 2 two_timers ≡ ok (true, cancelled 2 two_timers)
unfolding timer_manager add_timer
reachable_cancel_example = reachable_cancel (λ a. refl) two_timers-Reach 2

none_due_left_example : pos 6 <ℤ ((list_expired_cb 9 (pos 6) two_timers).1.heap 1).next
unfolding timer_manager add_timer insert_position insert comparator ◌+ℤ◌ list_expired_cb
none_due_left_example =
    none_due_left 9 (pos 6) two_timers refl two_timers-IsValid 1 refl (λ h. omega arith)

-- Half the period, and not from now: the deadline stays 5.
reset_armed_example :
    let r = (reset 1 (pos 2) false (pos 1) two_timers).2 in
    ((reset 1 (pos 2) false (pos 1) two_timers).0 ≡ true)
    × (r.heap 1 ≡ record { recurring = true; ms = pos 2; next = pos 5; cb = some (user 7) })
    × ((b : ℕ) → (1 == b) ≡ false → r.heap b ≡ two_timers.heap b)
    × ((b : ℕ) → member b r.timers ≡ member b two_timers.timers)
    × (r.previous_time ≡ two_timers.previous_time)
    × (r.tickled ≡ (two_timers.tickled || (reset 1 (pos 2) false (pos 1) two_timers).1))
unfolding timer_manager add_timer ◌+ℤ◌
reset_armed_example = reset_armed 1 two_timers two_timers-IsValid refl (pos 2) false (pos 1) refl

get_next_timer-IsNextWait_example :
    IsNextWait two_timers.heap two_timers.timers (pos 2) (get_next_timer (pos 2) two_timers).0
get_next_timer-IsNextWait_example = get_next_timer-IsNextWait (pos 2) two_timers two_timers-IsValid
