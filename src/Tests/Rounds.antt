-- ===== src/Tests/Rounds.antt =====
-- A round of the idle fiber with the two timers, and the end with no timer.
use my_coroutine.Common.{true, false, ◌≡◌, refl, some, [], ◌∷◌, ok}
use my_coroutine.Common.Int.{pos, ◌≤ℤ◌, ◌+ℤ◌, ◌-ℤ◌}
use my_coroutine.Callback.{user}
use my_coroutine.OrderedSet.{insert, insert_position}
use my_coroutine.Scheduler.{any_thread, cb_task}
use my_coroutine.Timer.{timer_manager, add_timer, list_expired_cb}
use my_coroutine.Timer.Comparator.{comparator}
use my_coroutine.Timer.Validity.{IsValid, timer_manager-IsValid}
use my_coroutine.IoManager.{io_manager}
use my_coroutine.IoManager.Idle.{
  Loop, Answers, from_context, io_stopping, idle_round, wait_time, epoll_timeout,
}
use my_coroutine.IoManager.Idle.Rounds.{idle_round_continues, epoll_timeout_bounds}
use my_coroutine.Tests.Timers.{blank, no_timers, two_timers, two_timers-IsValid}
use my_coroutine.Tests.Pool.{empty_pool}

abbrev pub idle_loop : Loop
idle_loop = record {
  sched = record empty_pool { idle = 1 };
  timers = two_timers;
  io = io_manager;
  tickled = 0;
}

-- The timers are asked at time 1, a signal interrupts epoll_wait once, and epoll returns at time 4
-- with one event.
abbrev pub answers : Answers
answers = record {
  asked_at = pos 1;
  woken_at = pos 4;
  now_timer = 9;
  interrupts = 1;
  epoll = true;
  wrote = true;
  reports =
      from_context (record { index = 3; epoll_in = true; epoll_out = false; err_or_hup = false })
      ∷ [];
}

idle_round_continues_example :
    (u : Loop) × (idle_round answers idle_loop ≡ ok (some (pos 0), u))
    × (u.io ≡ io_manager)
    × (u.timers ≡ (list_expired_cb 9 (pos 4) (io_stopping (pos 1) idle_loop).2.timers).1)
    × (u.sched ≡ record empty_pool { idle = 1; tasks = cb_task (some (user 8)) any_thread ∷ [] })
unfolding io_stopping timer_manager add_timer insert_position insert comparator ◌+ℤ◌ ◌-ℤ◌
    list_expired_cb
idle_round_continues_example = idle_round_continues answers idle_loop refl refl

pub no_timers-IsValid : IsValid no_timers
no_timers-IsValid = timer_manager-IsValid blank (pos 0) (λ a. refl)

abbrev pub last_loop : Loop
last_loop = record {
  sched = record empty_pool { is_stopping = true };
  timers = no_timers;
  io = io_manager;
  tickled = 0;
}

epoll_timeout_bounds_example :
    (pos 0 ≤ℤ epoll_timeout (wait_time (io_stopping (pos 1) idle_loop).1))
    × (epoll_timeout (wait_time (io_stopping (pos 1) idle_loop).1) ≤ℤ pos 5)
epoll_timeout_bounds_example = epoll_timeout_bounds (pos 1) idle_loop two_timers-IsValid
