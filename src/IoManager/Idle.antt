-- ===== src/IoManager/Idle.antt =====
-- IOManager.cpp: the idle fiber of the IOManager, with tickle and stopping. Here the three parts that
-- an IOManager consists of meet: its scheduler, its timers and its event contexts.
pub mod Rounds
pub mod Waiting
use my_coroutine.Common.{
  ℕ, zero, suc, ◌+◌, ◌-◌, ◌/◌, Bool, true, false, not, ◌&&◌, Option, none, some, List, [], ◌∷◌,
  ◌==◌, if◌then◌else◌, Result, ok, err, guard, ◌>>=◌, ◌>>◌,
}
use my_coroutine.Common.Int.{ℤ, pos, negsuc, eqb_ℤ, ltb_ℤ}
use my_coroutine.Callback.{Callback}
use my_coroutine.Scheduler.{
  ScheduleTask, Scheduler, any_thread, cb_task, has_idle_threads, schedule_no_lock, stopping,
}
use my_coroutine.Timer.{TimerManager, get_next_timer, no_timer, list_expired_cb}
use my_coroutine.IoManager.{IoManager, EpollEvent, handle_event}

-- `tickled` counts the bytes that have been written to the pipe.
pub record Loop : Type 0 where
  pub sched : Scheduler
  pub timers : TimerManager
  pub io : IoManager
  pub tickled : ℕ

-- IOManager::tickle, which onTimerInsertedAtFront calls too; `wrote` says whether `write` returns 1.
unfoldable pub tickle : Bool → Loop → Result Loop
unfolding has_idle_threads
tickle wrote l =
    if not (has_idle_threads l.sched)
    then ok l
    else do guard wrote; ok (record l { tickled = l.tickled + 1 })

-- Scheduler::schedule, of an IOManager
unfoldable pub schedule : Bool → ScheduleTask → Loop → Result Loop
unfolding schedule_no_lock tickle
schedule wrote task l =
    let queued = record l { sched = (schedule_no_lock task l.sched).1 } in
    if (schedule_no_lock task l.sched).0 then tickle wrote queued else ok queued

-- IOManager::stopping(timeout): its value, the timeout that it sets, and the state
unfoldable pub io_stopping : ℤ → Loop → Bool × ℤ × Loop
unfolding get_next_timer stopping
io_stopping now l =
    let (timeout, asked) = get_next_timer now l.timers in
    (
      eqb_ℤ timeout no_timer && (l.io.pending == 0) && stopping l.sched,
      timeout,
      record l { timers = asked },
    )

abbrev pub max_timeout : ℤ
max_timeout = pos 5000

-- The wait that `idle` makes of the time to the next timer.
abbrev pub wait_time : ℤ → ℤ
wait_time next =
    if not (eqb_ℤ next no_timer)
    then (if ltb_ℤ max_timeout next then max_timeout else next)
    else max_timeout

-- The same after `interrupts` calls of epoll_wait that a signal has interrupted: each time round the
-- inner loop it is made again.
unfoldable pub wait_times : ℕ → ℤ → ℤ
wait_times zero next = wait_time next
wait_times (suc interrupts) next = wait_times interrupts (wait_time next)

-- count() / 1000, which rounds towards 0: the timeout that epoll_wait gets, which takes it as
-- milliseconds
abbrev pub epoll_timeout : ℤ → ℤ
epoll_timeout (pos n) = pos (n / 1000)
epoll_timeout (negsuc n) = if (n + 1) / 1000 == 0 then pos 0 else negsuc ((n + 1) / 1000 - 1)

-- for(auto &cb : cbs) schedule(cb);
unfoldable pub schedule_all : Bool → List (Option Callback) → Loop → Result Loop
unfolding schedule
schedule_all wrote [] l = ok l
schedule_all wrote (cb ∷ cbs) l = do
  next ← schedule wrote (cb_task cb any_thread) l
  schedule_all wrote cbs next

-- What epoll reports: something to read in the pipe, or an event of a context.
pub data Report : Type 0 where
  from_pipe : Report
  from_context : EpollEvent → Report

-- for(int i = 0; i < rt; ++i): the first `rt` reports; the pipe is only emptied.
unfoldable pub handle_reports : ℕ → Bool → Bool → List Report → IoManager → Result IoManager
unfolding handle_event
handle_reports zero epoll wrote reports io = ok io
handle_reports (suc rt) epoll wrote [] io = ok io
handle_reports (suc rt) epoll wrote (from_pipe ∷ reports) io =
    handle_reports rt epoll wrote reports io
handle_reports (suc rt) epoll wrote (from_context e ∷ reports) io = do
  handled ← handle_event epoll wrote e io
  handle_reports rt epoll wrote reports handled

-- The answers of the system in one round: the clock in getNextTimer and in listExpiredCb, the address
-- of now_timer, how often a signal interrupts epoll_wait, whether epoll_ctl and `write` succeed, and what epoll_wait reports.
pub record Answers : Type 0 where
  pub asked_at : ℤ
  pub woken_at : ℤ
  pub now_timer : ℕ
  pub interrupts : ℕ
  pub epoll : Bool
  pub wrote : Bool
  pub reports : List Report

-- The `rt` that bounds the loop over the reports: epoll_wait's result goes into another `rt`, which
-- the inner block declares.
abbrev pub outer_rt : ℕ
outer_rt = 0

-- One round of the loop in `idle`, up to the yield: `none` where the loop ends, and else the timeout
-- that epoll_wait gets at last.
unfoldable pub idle_round : Answers → Loop → Result (Option ℤ × Loop)
unfolding io_stopping list_expired_cb schedule_all handle_reports wait_times
idle_round a l =
    let (stop, timeout, asked) = io_stopping a.asked_at l in
    let (cbs, timers) = list_expired_cb a.now_timer a.woken_at asked.timers in
    if stop then ok (none, asked) else do
      woken ← schedule_all a.wrote cbs (record asked { timers = timers })
      io ← handle_reports outer_rt a.epoll a.wrote a.reports woken.io
      ok (some (epoll_timeout (wait_times a.interrupts timeout)), record woken { io = io })

-- One time round the loop in `idle`: the answers of the system, and what happens between the yield
-- and the next resume of the idle fiber.
pub record Round : Type 0 where
  pub answers : Answers
  pub meanwhile : Loop → Loop

-- The loop in `idle`, as far as the rounds go: whether it has ended, and the state.
unfoldable pub idle_rounds : List Round → Loop → Result (Bool × Loop)
unfolding idle_round
idle_rounds [] l = ok (false, l)
idle_rounds (r ∷ rounds) l = idle_round r.answers l >>= λ (timeout, next). elim timeout [
  | none ↦ ok (true, next)
  | some _ ↦ idle_rounds rounds (r.meanwhile next)
]
