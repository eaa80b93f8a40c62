-- ===== src/Scheduler/Execute.antt =====
-- The loop of Scheduler::run from the task that it has taken on: resume of its fiber, or of a new one for
-- a callback, or of the idle fiber, with the switches and the destructor of Fiber.cpp.
pub mod Steps
pub mod Callbacks
pub mod Fibers
use my_coroutine.Common.{
  ℕ, ◌+◌, ◌-◌, ◌^◌, Bool, true, false, not, ◌||◌, Option, none, some, is_some, if◌then◌else◌,
  Result, ok, err, ◌>>=◌, ◌>>◌,
}
use my_coroutine.Callback.{Callback}
use my_coroutine.Fiber.{
  Thread, new_fiber, reset, resume, yield, main_func_end, destroy, is_term, u64,
}
use my_coroutine.Scheduler.{ScheduleTask, Scheduler}

-- A thread in `run`, with the scheduler, and its cb_fiber.
pub record Worker : Type 0 where
  pub thread : Thread
  pub sched : Scheduler
  pub cb_fiber : Option ℕ

-- What a fiber runs between a resume and the switch back, with what the other threads do to the
-- scheduler meanwhile.
abbrev pub Code : Type 0
Code = Thread × Scheduler → Result (Thread × Scheduler)

-- The code of a fiber in its last stretch: what the callback does, `body`, and the end of MainFunc.
unfoldable pub to_the_end : ℕ → Code → Code
to_the_end f body start = do
  (thread, sched) ← body start
  ended ← main_func_end f thread
  ok (ended, sched)

-- The code of a fiber up to a yield
unfoldable pub to_a_yield : ℕ → Code → Code
to_a_yield f body start = do
  (thread, sched) ← body start
  parked ← yield f thread
  ok (parked, sched)

-- resume of `f`, and what follows until control is back in `run`
unfoldable pub resume_until_back : Code → ℕ → Worker → Result Worker
resume_until_back code f w = do
  resumed ← resume f w.thread
  (thread, sched) ← code (resumed, w.sched)
  ok (record w { thread = thread; sched = sched })

-- --m_activeThreadCount and --m_idleThreadCount
abbrev pub counted_down : ℕ → ℕ
counted_down n = u64 (n + (2 ^ 64 - 1))

abbrev pub less_active : Scheduler → Scheduler
less_active s = record s { active = counted_down s.active }

-- A shared pointer to `f` is dropped: the fiber ends with the last one. `shared` says whether something
-- else keeps it; until its callback has returned, its own MainFunc does.
unfoldable pub release : Bool → ℕ → Worker → Result Worker
release shared f w =
    if shared || not (is_term (w.thread.heap f).state)
    then ok w
    else do left ← destroy f w.thread; ok (record w { thread = left })

-- The fiber for a callback: cb_fiber again, or a new one at the address `p`
unfoldable pub callback_fiber : ℕ → Option Callback → Worker → Result (ℕ × Worker)
callback_fiber p cb w = elim w.cb_fiber [
  | some f ↦ do given ← reset f cb w.thread; ok (f, record w { thread = given })
  | none ↦ ok (p, record w { thread = new_fiber p cb 0 true w.thread; cb_fiber = some p })
]

-- The rest of the loop body for the task that has been taken: whether the loop goes on. `code` is what
-- each fiber runs when it is resumed, `shared` which of them
-- something besides `run` and the fiber keeps.
unfoldable pub execute :
    (ℕ → Code) → (ℕ → Bool) → ℕ → ℕ → ScheduleTask → Worker → Result (Bool × Worker)
unfolding resume_until_back release callback_fiber
execute code shared p idle_fiber task w = elim task.fiber [
  | some f ↦ do
    back ← resume_until_back (code f) f w
    left ← release (shared f) f (record back { sched = less_active back.sched })
    ok (true, left)
  | none ↦
      if is_some task.cb
      then (do
        (f, made) ← callback_fiber p task.cb w
        back ← resume_until_back (code f) f made
        left ← release (shared f) f (record back { sched = less_active back.sched })
        ok (true, record left { cb_fiber = none }))
      else if is_term (w.thread.heap idle_fiber).state
      then ok (false, w)
      else (do
        let counted = record w { sched = record w.sched { idle = u64 (w.sched.idle + 1) } }
        back ← resume_until_back (code idle_fiber) idle_fiber counted
        ok (
          true,
          record back { sched = record back.sched { idle = counted_down back.sched.idle } },
        ))
]
