-- ===== src/Tests/Executing.antt =====
-- A thread that runs a callback, which schedules another one.
use my_coroutine.Common.{none, some, ok}
use my_coroutine.Callback.{user}
use my_coroutine.Scheduler.{Scheduler, schedule_no_lock, cb_task, any_thread}
use my_coroutine.Scheduler.Execute.{Worker, Code}
use my_coroutine.Tests.Fibers.{main_thread}
use my_coroutine.Tests.Pool.{empty_pool}

abbrev worker : Worker
worker = record {
  thread = record main_thread { t_scheduler_fiber = some 10 };
  sched = record empty_pool { active = 1 };
  cb_fiber = none;
}

abbrev body : Code
body (thread, sched) = ok (thread, (schedule_no_lock (cb_task (some (user 2)) any_thread) sched).1)

-- The fiber's task has been taken.
abbrev busy : Scheduler → Scheduler
busy sched = record sched { active = 1 }
