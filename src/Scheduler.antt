-- ===== src/Scheduler.antt =====
-- Scheduler.h and Scheduler.cpp: the task queue, what `run` does with it under the lock, and the
-- tests that end it. The threads that run it together are in Scheduler.Workers.
pub mod Pick
pub mod Workers
pub mod Owner
pub mod LifeCycle
pub mod Execute
pub mod Run
use my_coroutine.Common.{
  ℕ, zero, suc, ◌+◌, ◌-◌, ◌^◌, Bool, true, false, not, ◌&&◌, ◌||◌, Option, none, some, List, [],
  ◌∷◌, ◌++◌, ◌==◌, ltb, is_some, if◌then◌else◌, Result, ok, err, guard, ◌>>=◌, ◌>>◌,
}
use my_coroutine.Callback.{Callback}
use my_coroutine.Fiber.{State, is_running}

-- std::thread::id(-1): any thread
abbrev pub any_thread : ℕ
any_thread = 2 ^ 64 - 1

pub record ScheduleTask : Type 0 where
  pub fiber : Option ℕ
  pub cb : Option Callback
  pub thread : ℕ

-- ScheduleTask(Fiber::ptr, id)
abbrev pub fiber_task : Option ℕ → ℕ → ScheduleTask
fiber_task f thread = record { fiber = f; cb = none; thread = thread }

-- ScheduleTask(Fiber::ptr *, id): the task, and what is left in the pointer
abbrev pub swapped_task : Option ℕ → ℕ → ScheduleTask × Option ℕ
swapped_task f thread = (record { fiber = f; cb = none; thread = thread }, none)

-- ScheduleTask(std::function<void()>, id)
abbrev pub cb_task : Option Callback → ℕ → ScheduleTask
cb_task cb thread = record { fiber = none; cb = cb; thread = thread }

-- ScheduleTask(), and what `reset` makes of a task
abbrev pub no_task : ScheduleTask
no_task = record { fiber = none; cb = none; thread = any_thread }

pub record Scheduler : Type 0 where
  pub tasks : List ScheduleTask
  pub threads : List ℕ  -- the ids of m_threads
  pub thread_ids : List ℕ
  pub thread_count : ℕ
  pub active : ℕ
  pub idle : ℕ
  pub use_caller : Bool
  pub root_fiber : Option ℕ
  pub root_thread : ℕ
  pub is_stopping : Bool

abbrev pub is_empty {ℓ} : {A : Type ℓ} → List A → Bool
is_empty [] = true
is_empty (_ ∷ _) = false

-- Scheduler(threads, use_caller), on the thread `self` whose current scheduler is `t_scheduler`; the
-- root fiber gets the address `p`.
unfoldable pub scheduler : ℕ → Bool → ℕ → Option ℕ → ℕ → Result Scheduler
scheduler threads use_caller self t_scheduler p = do
  guard (ltb 0 threads)
  guard (not use_caller || not (is_some t_scheduler))
  ok (record {
    tasks = [];
    threads = [];
    thread_ids = if use_caller then self ∷ [] else [];
    thread_count = if use_caller then threads - 1 else threads;
    active = 0;
    idle = 0;
    use_caller = use_caller;
    root_fiber = if use_caller then some p else none;
    root_thread = if use_caller then self else any_thread;
    is_stopping = false;
  })

-- The ids of the threads that `start` makes, numbered from 0.
abbrev pub new_threads : (ℕ → ℕ) → ℕ → List ℕ
new_threads id zero = []
new_threads id (suc n) = new_threads id n ++ id n ∷ []

-- start; `id` names the thread that is made in each round.
unfoldable pub start : (ℕ → ℕ) → Scheduler → Result Scheduler
start id s = if s.is_stopping then ok s else do
  guard (is_empty s.threads)
  ok (record s {
    threads = new_threads id s.thread_count;
    thread_ids = s.thread_ids ++ new_threads id s.thread_count;
  })

-- scheduleNoLock: whether to tickle, and the scheduler
unfoldable pub schedule_no_lock : ScheduleTask → Scheduler → Bool × Scheduler
schedule_no_lock task s = (
  is_empty s.tasks,
  if is_some task.fiber || is_some task.cb then record s { tasks = s.tasks ++ task ∷ [] } else s,
)

-- Scheduler::stopping
unfoldable pub stopping : Scheduler → Bool
stopping s = s.is_stopping && is_empty s.tasks && (s.active == 0)

-- hasIdleThreads
unfoldable pub has_idle_threads : Scheduler → Bool
has_idle_threads s = ltb 0 s.idle

-- stop, up to the wait for the other threads; `this_is_mine` is `GetThis() == this`. The flag says
-- whether the rest of `stop` follows.
unfoldable pub begin_stop : Bool → Scheduler → Result (Bool × Scheduler)
unfolding stopping
begin_stop this_is_mine s = if stopping s then ok (false, s) else do
  guard (if s.use_caller then this_is_mine else not this_is_mine)
  ok (true, record s { is_stopping = true })

-- The two tests of the loop over the tasks in `run`: another thread's task, and a running fiber.
abbrev pub is_foreign : ℕ → ScheduleTask → Bool
is_foreign me t = not (t.thread == any_thread) && not (t.thread == me)

abbrev pub fiber_running : (ℕ → State) → Option ℕ → Bool
fiber_running state none = false
fiber_running state (some f) = is_running (state f)

abbrev pub is_busy : (ℕ → State) → ScheduleTask → Bool
is_busy state t = fiber_running state t.fiber

-- while(it != m_tasks.end()): the task that is taken, the queue, and `tickle_me` with the test that
-- follows the loop
unfoldable pub pick :
    ℕ → (ℕ → State) → List ScheduleTask → Option ScheduleTask × List ScheduleTask × Bool
pick me state [] = (none, [], false)
pick me state (t ∷ ts) =
    let (task, rest, tickle_me) = pick me state ts in
    if is_foreign me t
    then (task, t ∷ rest, true)
    else if is_busy state t
    then (task, t ∷ rest, tickle_me)
    else (some t, ts, not (is_empty ts))

-- The critical section of one round of `run`: a task that is found makes the thread active.
unfoldable pub fetch : ℕ → (ℕ → State) → Scheduler → Option ScheduleTask × Bool × Scheduler
unfolding pick
fetch me state s =
    let (task, rest, tickle_me) = pick me state s.tasks in
    (
      task,
      tickle_me,
      record s { tasks = rest; active = if is_some task then s.active + 1 else s.active },
    )
