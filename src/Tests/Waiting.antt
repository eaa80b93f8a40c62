-- ===== src/Tests/Waiting.antt =====
-- A callback that waits for the descriptor 3, and is handed out when the event is cancelled.
use my_coroutine.Common.{true, false, Bool, ◌≡◌, ◌+◌, refl, some, [], ◌∷◌, ok, set}
use my_coroutine.Common.Int.{pos}
use my_coroutine.Common.Family.{update}
use my_coroutine.Callback.{user}
use my_coroutine.Scheduler.{cb_task, any_thread, stopping}
use my_coroutine.Timer.{timer_manager}
use my_coroutine.IoManager.{IoManager, io_manager, add_event, cancel_event, EpollEvent}
use my_coroutine.IoManager.FdContexts.{read, no_events, new_context}
use my_coroutine.IoManager.Validity.{Valid}
use my_coroutine.IoManager.Idle.{Loop, io_stopping}
use my_coroutine.IoManager.Firing.{addressed}
use my_coroutine.IoManager.Waiters.{Waiter, tally, waiting}
use my_coroutine.IoManager.Waiters.Adding.{waiter}
use my_coroutine.IoManager.Waiters.System.{
  System, Reach, start, next, adds, cancels, waiters_balance, stopping_strands_none,
}
use my_coroutine.IoManager.Teardown.{IoEffects}
use my_coroutine.Scheduler.Owner.{Owner}
use my_coroutine.Tests.Pool.{empty_pool}
use my_coroutine.Tests.Events.{caller, reading}
use my_coroutine.Tests.Rounds.{last_loop}

-- After the event has been cancelled.
abbrev cancelled_io : IoManager
cancelled_io = record io_manager {
  contexts = set reading.contexts 3 (new_context 3);
  watched = update reading.watched 3 no_events;
  pending = 0;
  scheduled = (1, cb_task (some (user 4)) any_thread) ∷ [];
}

abbrev the_waiter : Waiter
the_waiter = waiter caller (some (user 4))

abbrev one_waiter : System
one_waiter = record { io = cancelled_io; added = the_waiter ∷ []; deleted = [] }

one_waiter-Reach : Reach one_waiter
unfolding io_manager add_event cancel_event
one_waiter-Reach =
    next (next start (adds true caller (pos 3) read (some (user 4)) true reading refl refl))
      (cancels true true (pos 3) read true cancelled_io refl)

waiters_balance_example :
    Valid cancelled_io
    × ((q : Waiter → Bool)
        → tally q (the_waiter ∷ [])
          ≡ waiting q cancelled_io.contexts
            + tally q (addressed cancelled_io.scheduled)
            + tally q [])
waiters_balance_example = waiters_balance one_waiter-Reach

-- The last loop, with the manager that the event was cancelled in.
abbrev cancelled_loop : Loop
cancelled_loop = record last_loop { io = cancelled_io }

stopping_strands_none_example :
    ((q : Waiter → Bool) → waiting q cancelled_loop.io.contexts ≡ 0)
    × ((q : Waiter → Bool)
        → tally q (the_waiter ∷ []) ≡ tally q (addressed cancelled_loop.io.scheduled) + tally q [])
unfolding io_stopping stopping timer_manager
stopping_strands_none_example = stopping_strands_none (pos 2) cancelled_loop one_waiter-Reach refl

abbrev input : EpollEvent
input = record { index = 3; epoll_in = true; epoll_out = false; err_or_hup = false }

-- The other threads let the callback wait no more, and end.
abbrev effects : IoEffects
effects = record { wrote = λ l. true; resume_root = λ l. ok l; join = λ ids l. ok cancelled_loop }

-- A manager with an event that is waited for.
abbrev waiting_loop : Loop
waiting_loop = record last_loop { sched = record empty_pool { threads = 7 ∷ [] }; io = reading }
