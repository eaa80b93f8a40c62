-- ===== src/Scheduler/Workers.antt =====
-- The threads of the pool, each in its own round of `run`, interleaved in any order. A step is what a
-- thread does up to its next access to what the threads share.
pub mod Counts
pub mod Safety
use my_coroutine.Common.{
  ℕ, ◌+◌, ◌-◌, ◌<◌, ◌≡◌, Bool, true, false, not, ◌||◌, Option, none, some, List, [], ◌∷◌, is_some,
  if◌then◌else◌,
}
use my_coroutine.Common.Family.{update}
use my_coroutine.Fiber.{State, ready, running, term, is_running}
use my_coroutine.Scheduler.{ScheduleTask, Scheduler, schedule_no_lock, stopping, fetch}

-- Where a thread stands in `run`.
pub data Phase : Type 0 where
  -- at the head of the loop
  fetching : Phase
  -- after the critical section, with a task
  taken : ScheduleTask → Phase
  -- in `resume` of the fiber, after the test of its state
  checked : ScheduleTask → ℕ → Phase
  -- in the fiber that runs the task
  executing : ScheduleTask → ℕ → Phase
  -- in the last `yield` of the fiber, where its state is written and the switch is not yet made
  leaving : ScheduleTask → Phase
  -- after the critical section, without a task
  empty_handed : Phase
  -- counted as idle, before `resume` of the idle fiber
  counted : Phase
  -- in the idle fiber
  idling : Phase
  -- in the `yield` of the idle fiber, where its state is written and the switch is not yet made
  resting : Phase
  -- out of the loop
  ended : Phase

-- `state` is the state of each fiber, and `idle_fiber` the address of the idle fiber of each thread;
-- `idle_ended` says of which threads the idle fiber has written TERM. `added` and `completed` record the
-- tasks that went into the queue, and those that a thread is done with.
pub record System : Type 0 where
  pub sched : Scheduler
  pub phase : ℕ → Phase
  pub state : ℕ → State
  pub idle_fiber : ℕ → ℕ
  pub idle_ended : ℕ → Bool
  pub added : List ScheduleTask
  pub completed : List ScheduleTask

abbrev pub has_work : ScheduleTask → Bool
has_work t = is_some t.fiber || is_some t.cb

-- One step of the thread `i`, whose id is `me`.
pub data Move (me i : ℕ) (s : System) : System → Type 0 where
  takes :
      (t : ScheduleTask)
      → s.phase i ≡ fetching
      → (fetch me s.state s.sched).0 ≡ some t
      → Move me i s
          (record s { sched = (fetch me s.state s.sched).2; phase = update s.phase i (taken t) })
  -- The test of `resume` stops the program unless the fiber of the task is ready. Another thread can come
  -- in before the fiber is set to RUNNING.
  checks :
      (t : ScheduleTask) (f : ℕ)
      → s.phase i ≡ taken t
      → t.fiber ≡ some f
      → s.state f ≡ ready
      → Move me i s (record s { phase = update s.phase i (checked t f) })
  -- The task of a callback gets a new fiber, at an address where no fiber is running.
  makes :
      (t : ScheduleTask) (f : ℕ)
      → s.phase i ≡ taken t
      → t.fiber ≡ none
      → is_some t.cb ≡ true
      → is_running (s.state f) ≡ false
      → Move me i s
          (record s { state = update s.state f ready; phase = update s.phase i (checked t f) })
  enters :
      (t : ScheduleTask) (f : ℕ)
      → s.phase i ≡ checked t f
      → Move me i s
          (record s { state = update s.state f running; phase = update s.phase i (executing t f) })
  -- The fiber yields, or MainFunc ends it: the state is written before the switch, so that from here on
  -- another thread can resume a fiber that has been queued.
  leaves :
      (t : ScheduleTask) (f : ℕ) (left : State)
      → s.phase i ≡ executing t f
      → is_running left ≡ false
      → Move me i s
          (record s { state = update s.state f left; phase = update s.phase i (leaving t) })
  -- back in `run`
  finishes :
      (t : ScheduleTask)
      → s.phase i ≡ leaving t
      → Move me i s (record s {
        sched = record s.sched { active = s.sched.active - 1 };
        phase = update s.phase i fetching;
        completed = t ∷ s.completed;
      })
  misses :
      s.phase i ≡ fetching
      → (fetch me s.state s.sched).0 ≡ none
      → Move me i s (record s { phase = update s.phase i empty_handed })
  starves :
      s.phase i ≡ empty_handed
      → s.idle_ended i ≡ false
      → Move me i s (record s {
        sched = record s.sched { idle = s.sched.idle + 1 };
        phase = update s.phase i counted;
      })
  -- the thread goes into its idle fiber, which stops the program unless that is ready
  sleeps :
      s.phase i ≡ counted
      → s.state (s.idle_fiber i) ≡ ready
      → Move me i s (record s {
        state = update s.state (s.idle_fiber i) running;
        phase = update s.phase i idling;
      })
  -- The idle fiber yields or ends, `over`: it ends only where Scheduler::stopping says yes, which `idle`
  -- tests once each time that it is resumed, and IOManager::stopping asks for more.
  rests :
      (over : Bool)
      → s.phase i ≡ idling
      → (over ≡ true → stopping s.sched ≡ true)
      → Move me i s (record s {
        state = update s.state (s.idle_fiber i) (if over then term else ready);
        phase = update s.phase i resting;
        idle_ended = update s.idle_ended i over;
      })
  wakes :
      s.phase i ≡ resting
      → Move me i s (record s {
        sched = record s.sched { idle = s.sched.idle - 1 };
        phase = update s.phase i fetching;
      })
  quits :
      s.phase i ≡ empty_handed
      → s.idle_ended i ≡ true
      → Move me i s (record s { phase = update s.phase i ended })

-- A thread moves, somebody schedules a task, or `stop` sets its flag.
pub data Step (n : ℕ) (id : ℕ → ℕ) (s : System) : System → Type 0 where
  moves : (i : ℕ) {t : System} → i < n → Move (id i) i s t → Step n id s t
  schedules :
      (t : ScheduleTask)
      → Step n id s (record s {
        sched = (schedule_no_lock t s.sched).1;
        added = if has_work t then t ∷ s.added else s.added;
      })
  stops : Step n id s (record s { sched = record s.sched { is_stopping = true } })

-- The pool at the start: no task, and every thread at the head of its loop.
pub data Start : System → Type 0 where
  fresh :
      (s : System)
      → s.sched.tasks ≡ []
      → s.sched.active ≡ 0
      → s.sched.idle ≡ 0
      → s.sched.is_stopping ≡ false
      → s.phase ≡ (λ _. fetching)
      → s.idle_ended ≡ (λ _. false)
      → s.added ≡ []
      → s.completed ≡ []
      → Start s

pub data Reach (n : ℕ) (id : ℕ → ℕ) : System → Type 0 where
  begin : {s : System} → Start s → Reach n id s
  later : {s t : System} → Reach n id s → Step n id s t → Reach n id t
