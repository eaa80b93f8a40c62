-- ===== src/Scheduler/Execute/Fibers.antt =====
-- How run executes the task of a fiber that has yielded before.
use my_coroutine.Common.{ℕ, ◌≡◌, refl, Bool, true, some, ok}
use my_coroutine.Callback.{Callback}
use my_coroutine.Fiber.{Fiber, Thread, resume}
use my_coroutine.Scheduler.{Scheduler, fiber_task}
use my_coroutine.Scheduler.Execute.{Worker, Code, resume_until_back, less_active, release, execute}

-- The steps of a fiber's task
pub execute_fiber :
    (code : ℕ → Code) (shared : ℕ → Bool) (p idle_fiber thread f : ℕ) (w : Worker)
    (entered : Thread) (back : Thread × Scheduler) (left : Worker)
    → resume f w.thread ≡ ok entered
    → code f (entered, w.sched) ≡ ok back
    → release
        (shared f)
        f
        (record { thread = back.0; sched = less_active back.1; cb_fiber = w.cb_fiber })
      ≡ ok left
    → execute code shared p idle_fiber (fiber_task (some f) thread) w ≡ ok (true, left)
unfolding execute resume_until_back
execute_fiber code shared p idle_fiber thread f w entered back left e₁ e₂ e₃ =
    rw (execute, resume_until_back, e₁, e₂, e₃) refl
