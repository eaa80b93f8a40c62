-- ===== src/Tests/Pool.antt =====
-- One worker thread, with id 7, that runs one task, and then the pool stops.
use my_coroutine.Common.{ℕ, true, false, ◌≡◌, ◌+◌, refl, none, some, [], ◌∷◌, arith, ok}
use my_coroutine.Fiber.{ready, term}
use my_coroutine.Scheduler.{
  ScheduleTask, Scheduler, fiber_task, any_thread, schedule_no_lock, stopping, fetch, start,
}
use my_coroutine.Scheduler.Owner.{Owner, new_scheduler, destroy_scheduler, Effects, stop}
use my_coroutine.Scheduler.LifeCycle.{IsOrderly, life_cycle}
use my_coroutine.Scheduler.Workers.{
  fetching, executing, System, fresh, Reach, begin, later, moves, schedules, stops, takes, checks,
  enters, leaves, finishes,
}
use my_coroutine.Scheduler.Workers.Counts.{Inv, count}
use my_coroutine.Scheduler.Workers.Safety.{Reach-Inv, stopping_complete}

abbrev pub empty_pool : Scheduler
empty_pool = record {
  tasks = [];
  threads = [];
  thread_ids = [];
  thread_count = 1;
  active = 0;
  idle = 0;
  use_caller = false;
  root_fiber = none;
  root_thread = any_thread;
  is_stopping = false;
}

abbrev pub start_system : System
start_system = record {
  sched = empty_pool;
  phase = λ _. fetching;
  state = λ _. ready;
  idle_fiber = λ i. i + 30;
  idle_ended = λ _. false;
  added = [];
  completed = [];
}

abbrev pub id : ℕ → ℕ
id i = i + 7

abbrev task : ScheduleTask
task = fiber_task (some 3) any_thread

start-Reach : Reach 1 id start_system
start-Reach = begin (fresh start_system refl refl refl refl refl refl refl refl)

stopped-Reach :
    (s : System) × Reach 1 id s × (stopping s.sched ≡ true) × (count (λ _. true) s.added ≡ 1)
unfolding schedule_no_lock fetch stopping count
stopped-Reach = (
  _,
  later
      (later
        (later
          (later
            (later
              (later (later start-Reach (schedules task))
                (moves 0 (omega arith) (takes task refl refl)))
              (moves 0 (omega arith) (checks task 3 refl refl refl)))
            (moves 0 (omega arith) (enters task 3 refl)))
          (moves 0 (omega arith) (leaves task 3 term refl refl)))
        (moves 0 (omega arith) (finishes task refl)))
      stops,
  refl,
  refl,
)

-- The same fiber is queued twice, and two threads pass the test of resume before either has set its state.
one_fiber-Reach :
    (s : System) × Reach 2 id s × (s.phase 0 ≡ executing task 3) × (s.phase 1 ≡ executing task 3)
unfolding schedule_no_lock fetch
one_fiber-Reach = (
  _,
  later
      (later
        (later
          (later
            (later
              (later
                (later
                  (later (begin (fresh start_system refl refl refl refl refl refl refl refl))
                    (schedules task))
                  (schedules task))
                (moves 0 (omega arith) (takes task refl refl)))
              (moves 1 (omega arith) (takes task refl refl)))
            (moves 0 (omega arith) (checks task 3 refl refl refl)))
          (moves 1 (omega arith) (checks task 3 refl refl refl)))
        (moves 0 (omega arith) (enters task 3 refl)))
      (moves 1 (omega arith) (enters task 3 refl)),
  refl,
  refl,
)

Reach-Inv_example : Inv 1 stopped-Reach.0
Reach-Inv_example = Reach-Inv stopped-Reach.1

stopping_complete_example :
    count (λ _. true) stopped-Reach.0.added ≡ count (λ _. true) stopped-Reach.0.completed
stopping_complete_example = stopping_complete stopped-Reach.1 stopped-Reach.2 (λ _. true)

-- The threads, and the root fiber, run the queue empty.
abbrev emptying : Effects
emptying = record {
  tickle = λ s. ok s;
  resume_root = λ s. ok (record s { tasks = [] });
  join = λ ids s. ok (record s { tasks = [] });
}

emptying-IsOrderly : IsOrderly emptying
emptying-IsOrderly = record {
  tickle = λ s. (s, refl, record { is_stopping = refl; threads = refl; root_fiber = refl });
  resume_root = λ s. (
    record s { tasks = [] },
    refl,
    record { is_stopping = refl; threads = refl; root_fiber = refl },
  );
  join = λ ids s. (
    record s { tasks = [] },
    refl,
    record { is_stopping = refl; threads = refl; root_fiber = refl },
  );
}

abbrev pub no_owner : Owner
no_owner = record { t_scheduler = none; t_scheduler_fiber = none }

-- Three threads, one of them the caller's.
life_cycle_example :
    (s : Scheduler) × (owner : Owner) × (new_scheduler 100 3 true 5 30 no_owner ≡ ok (s, owner))
    × (running : Scheduler) × (start id s ≡ ok running)
    × (stopped : Scheduler) × (stop emptying 100 owner running ≡ ok (7 ∷ 8 ∷ [], stopped))
    × (stopped.threads ≡ [])
    × (rest : Owner) × (destroy_scheduler 100 stopped owner ≡ ok rest)
    × (rest.t_scheduler ≡ none)
    × (rest.t_scheduler_fiber ≡ some 30)
life_cycle_example =
    life_cycle 100 3 5 30 true id emptying no_owner (omega arith) refl emptying-IsOrderly
