-- ===== src/Scheduler/Run.antt =====
-- Scheduler::run as a whole, its loop counted in rounds, and Scheduler::idle, on the fibers of a thread
-- (Scheduler.cpp).
pub mod Idling
pub mod Ending
use my_coroutine.Common.{
  ℕ, zero, suc, Bool, true, false, Option, none, some, if◌then◌else◌, Result, ok, ◌>>=◌,
}
use my_coroutine.Fiber.{State, Thread, get_this, new_fiber, yield, main_func_end, destroy}
use my_coroutine.Callback.{Callback}
use my_coroutine.Scheduler.{ScheduleTask, no_task, Scheduler, stopping, fetch}
use my_coroutine.Scheduler.Execute.{Worker, Code, execute}

-- The states of the fibers
abbrev pub states : Thread → ℕ → State
states t f = (t.heap f).state

-- What a fiber does up to its next switch, with what the other threads do meanwhile: the flag says whether
-- its callback has returned, and else it yields.
abbrev pub Body : Type 0
Body = Thread × Scheduler → Result (Bool × Thread × Scheduler)

-- The fiber `f` from where it is resumed to where it switches back
unfoldable pub stretch : ℕ → Body → Code
stretch f body start = do
  (ends, thread, sched) ← body start
  switched ← if ends then main_func_end f thread else yield f thread
  ok (switched, sched)

-- Scheduler::idle from where it is resumed to its next switch: `meanwhile` is what the other threads do
-- before the test.
unfoldable pub scheduler_idle : Code → Body
unfolding stopping
scheduler_idle meanwhile start = do
  (thread, sched) ← meanwhile start
  ok (stopping sched, thread, sched)

-- The code of the fibers
abbrev pub codes : (ℕ → Body) → ℕ → Code
codes body f = stretch f (body f)

abbrev pub or_no_task : Option ScheduleTask → ScheduleTask
or_no_task none = no_task
or_no_task (some t) = t

-- A round of the loop, on the thread `me`: whether the loop goes on. `tickle` is left out: it changes
-- nothing of the scheduler.
unfoldable pub run_round : (ℕ → Code) → (ℕ → Bool) → ℕ → ℕ → ℕ → Worker → Result (Bool × Worker)
unfolding fetch execute
run_round code shared me p idle_fiber w =
    let (task, tickle_me, sched) = fetch me (states w.thread) w.sched in
    execute code shared p idle_fiber (or_no_task task) (record w { sched = sched })

-- for(;;), `k` rounds of it at most. Each round has its own code of the fibers and its own address for a
-- new fiber, and they are numbered down. The flag says whether the loop would go on.
unfoldable pub run_loop :
    (ℕ → ℕ → Code) → (ℕ → Bool) → ℕ → (ℕ → ℕ) → ℕ → ℕ → Worker → Result (Bool × Worker)
unfolding run_round
run_loop code shared me fresh idle_fiber zero w = ok (true, w)
run_loop code shared me fresh idle_fiber (suc k) w = do
  (goes_on, left) ← run_round (code k) shared me (fresh k) idle_fiber w
  elim goes_on [ true ↦ run_loop code shared me fresh idle_fiber k left | false ↦ ok (false, left) ]

-- run up to its loop, on the fibers: `is_root` says whether it is the thread of use_caller, `q` is the
-- address for a main fiber that has to be made, and `cb` is the bound Scheduler::idle.
unfoldable pub run_enters : Bool → ℕ → ℕ → Option Callback → Thread → Thread
unfolding get_this new_fiber
run_enters is_root q idle_fiber cb t =
    let (main, made) = get_this q t in
    new_fiber idle_fiber cb 0 true
      (if is_root then t else record made { t_scheduler_fiber = some main })

-- The thread at the head of the loop
abbrev pub enter : Bool → ℕ → ℕ → Option Callback → Thread → Scheduler → Worker
enter is_root q idle_fiber cb t sched = record {
  thread = run_enters is_root q idle_fiber cb t;
  sched = sched;
  cb_fiber = none;
}

-- After the loop the idle fiber is destroyed.
unfoldable pub after_loop : ℕ → Bool × Worker → Result (Bool × Worker)
after_loop idle_fiber (true, w) = ok (true, w)
after_loop idle_fiber (false, w) = do
  ended ← destroy idle_fiber w.thread
  ok (false, record w { thread = ended })

-- Scheduler::run, `k` rounds of its loop at most
unfoldable pub run :
    (ℕ → ℕ → Code)
    → (ℕ → Bool)
    → ℕ
    → (ℕ → ℕ)
    → Bool
    → ℕ
    → ℕ
    → Option Callback
    → ℕ
    → Thread
    → Scheduler
    → Result (Bool × Worker)
unfolding run_loop after_loop
run code shared me fresh is_root q idle_fiber cb k t sched =
    run_loop code shared me fresh idle_fiber k (enter is_root q idle_fiber cb t sched)
    >>= after_loop idle_fiber
