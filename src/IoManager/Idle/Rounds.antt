-- ===== src/IoManager/Idle/Rounds.antt =====
-- One round of the loop in IOManager::idle, and the test that ends it.
use my_coroutine.Common.{
  append_nil, ℕ, ◌+◌, ◌≡◌, refl, ap, sym, ◌∙◌, zero, suc, true, false, inl, inr, Option, none, some,
  List, [], ◌∷◌, ◌++◌, ok, arith, Bool-cases,
}
use my_coroutine.Common.Int.{ℤ, pos, ◌≤ℤ◌}
use my_coroutine.Callback.{Callback}
use my_coroutine.Scheduler.{
  ScheduleTask, Scheduler, any_thread, cb_task, has_idle_threads, schedule_no_lock, stopping,
}
use my_coroutine.Timer.{TimerManager, get_next_timer, list_expired_cb}
use my_coroutine.Timer.Validity.{IsValid}
use my_coroutine.Timer.Deadlines.{get_next_timer-IsNextWait}
use my_coroutine.IoManager.Idle.{
  Loop, Answers, tickle, schedule, io_stopping, schedule_all, idle_round, wait_time, wait_times,
  epoll_timeout,
}

-- The tasks for the callbacks that are not empty.
abbrev pub cb_tasks : List (Option Callback) → List ScheduleTask
cb_tasks [] = []
cb_tasks (none ∷ cbs) = cb_tasks cbs
cb_tasks (some cb ∷ cbs) = cb_task (some cb) any_thread ∷ cb_tasks cbs

-- The queue has grown by these tasks; the timers, the contexts and the rest of the scheduler are as
-- they were.
pub record Queued (ts : List ScheduleTask) (l u : Loop) : Type 0 where
  pub sched : u.sched ≡ record l.sched { tasks = l.sched.tasks ++ ts }
  pub timers : u.timers ≡ l.timers
  pub io : u.io ≡ l.io

append_one {ℓ} :
    {A : Type ℓ} (xs : List A) (y : A) (zs : List A) → (xs ++ y ∷ []) ++ zs ≡ xs ++ y ∷ zs
append_one [] y zs = refl
append_one (x ∷ xs) y zs = ap (◌∷◌ x) (append_one xs y zs)

pub tickle_returns : (l : Loop) → (k : ℕ) × (tickle true l ≡ ok (record l { tickled = k }))
unfolding tickle
tickle_returns l = elim (Bool-cases (has_idle_threads l.sched)) [
  | inl e ↦ (l.tickled + 1, rw (tickle, e) refl)
  | inr e ↦ (l.tickled, rw (tickle, e) refl)
]

pub schedule_returns :
    (task : ScheduleTask) (l : Loop)
    → (k : ℕ) × (schedule true task l
        ≡ ok (record l { sched = (schedule_no_lock task l.sched).1; tickled = k }))
unfolding schedule
schedule_returns task l = elim (Bool-cases (schedule_no_lock task l.sched).0) [
  | inl e ↦
      let queued : Loop = record l { sched = (schedule_no_lock task l.sched).1 } in
      let (k, t) = tickle_returns queued in (k, rw (schedule, e, t) refl)
  | inr e ↦ (l.tickled, rw (schedule, e) refl)
]

pub queue_more :
    (cb : Option Callback) (cbs : List (Option Callback)) (s : Scheduler)
    → let queued : Scheduler = (schedule_no_lock (cb_task cb any_thread) s).1 in
      record queued { tasks = queued.tasks ++ cb_tasks cbs }
      ≡ record s { tasks = s.tasks ++ cb_tasks (cb ∷ cbs) }
unfolding schedule_no_lock
queue_more none cbs s = refl
queue_more (some cb) cbs s =
    ap (λ ts. record s { tasks = ts })
      (append_one s.tasks (cb_task (some cb) any_thread) (cb_tasks cbs))

-- The loop of `idle` over the callbacks returns, and queues them in their order.
schedule_all-Queued :
    (cbs : List (Option Callback)) (l : Loop)
    → (u : Loop) × (schedule_all true cbs l ≡ ok u) × Queued (cb_tasks cbs) l u
unfolding schedule_all
schedule_all-Queued [] l = (
  l,
  refl,
  record {
    sched = ap (λ ts. record l.sched { tasks = ts }) (sym (append_nil l.sched.tasks));
    timers = refl;
    io = refl;
  },
)
schedule_all-Queued (cb ∷ cbs) l =
    let (k, e) = schedule_returns (cb_task cb any_thread) l in
    let next : Loop = record l {
      sched = (schedule_no_lock (cb_task cb any_thread) l.sched).1;
      tickled = k;
    } in
    let (u, e', q) = schedule_all-Queued cbs next in
    (
      u,
      rw (schedule_all, e, e') refl,
      record { sched = rw q.sched (queue_more cb cbs l.sched); timers = q.timers; io = q.io },
    )

wait_time_twice : (next : ℤ) → wait_time (wait_time next) ≡ wait_time next
wait_time_twice next = ground arith

-- The interrupts do not change the timeout.
wait_times_lem : (interrupts : ℕ) (next : ℤ) → wait_times interrupts next ≡ wait_time next
unfolding wait_times
wait_times_lem zero next = refl
wait_times_lem (suc k) next = wait_times_lem k (wait_time next) ∙ wait_time_twice next

-- If stopping of an IOManager with valid timers answers yes, then no timer is left, no event is
-- pending, stop has been called, no task is queued and no thread has one.
pub io_stopping_complete :
    (now : ℤ) (l : Loop)
    → IsValid l.timers
    → (io_stopping now l).0 ≡ true
    → (l.timers.timers ≡ [])
      × (l.io.pending ≡ 0)
      × (l.sched.is_stopping ≡ true)
      × (l.sched.tasks ≡ [])
      × (l.sched.active ≡ 0)
unfolding io_stopping stopping
io_stopping_complete now l v h = ground (arith, h, get_next_timer-IsNextWait now l.timers v)

-- With valid timers the timeout that idle passes to epoll_wait is from 0 to 5.
pub epoll_timeout_bounds :
    (now : ℤ) (l : Loop)
    → IsValid l.timers
    → (pos 0 ≤ℤ epoll_timeout (wait_time (io_stopping now l).1))
      × (epoll_timeout (wait_time (io_stopping now l).1) ≤ℤ pos 5)
unfolding io_stopping get_next_timer
epoll_timeout_bounds now l v = ground (arith, get_next_timer-IsNextWait now l.timers v)

-- A round of the loop of idle that is not the last, where tickle can write to the pipe, returns
-- with the timeout that epoll_wait gets, which no number of interrupts changes: the callbacks of
-- the expired timers that are not empty are queued, in their order and for any thread, the timers
-- are as listExpiredCb leaves them, and the event contexts are as they were, whatever epoll
-- reports.
pub idle_round_continues :
    (a : Answers) (l : Loop)
    → a.wrote ≡ true
    → (io_stopping a.asked_at l).0 ≡ false
    → (u : Loop) × (idle_round a l
        ≡ ok (some (epoll_timeout (wait_time (io_stopping a.asked_at l).1)), u))
      × (u.io ≡ l.io)
      × (u.timers ≡ (list_expired_cb a.now_timer a.woken_at (io_stopping a.asked_at l).2.timers).1)
      × (u.sched ≡ record l.sched {
        tasks =
            l.sched.tasks
            ++ cb_tasks
                (list_expired_cb a.now_timer a.woken_at (io_stopping a.asked_at l).2.timers).0;
      })
unfolding idle_round
idle_round_continues a l h go =
    let asked : Loop = (io_stopping a.asked_at l).2 in
    let expired : List (Option Callback) × TimerManager =
      list_expired_cb a.now_timer a.woken_at asked.timers in
    let (u, e, q) = schedule_all-Queued expired.0 (record asked { timers = expired.1 }) in
    (
      u,
      rw (idle_round, h, go, e, wait_times_lem a.interrupts (io_stopping a.asked_at l).1) refl,
      q.io,
      q.timers,
      q.sched,
    )
