-- ===== src/Scheduler/Run/Ending.antt =====
-- Scheduler::run (Scheduler.cpp) on a thread that finds no task, up to its end.
use my_coroutine.Common.{
  ℕ, zero, suc, ◌+◌, ◌-◌, ◌^◌, ◌≡◌, ◌∙◌, refl, Bool, true, false, Option, none, some, List, [], ◌∷◌,
  ◌==◌, arith, ok,
}
use my_coroutine.Callback.{Callback}
use my_coroutine.Fiber.{Thread, term, get_this, main_fiber, set_this, new_fiber, destroy, u64}
use my_coroutine.Scheduler.{Scheduler, ScheduleTask, stopping, is_empty}
use my_coroutine.Scheduler.Execute.{Worker, execute}
use my_coroutine.Scheduler.Run.{run, run_loop, run_round, run_enters, enter, after_loop}
use my_coroutine.Scheduler.Run.Idling.{
  idles, counted_idle, after_idle, IsWaiting, IsOver, idle_round, last_idle_round, empty_round,
}

-- No task comes for the thread, the idle fiber finds `k` times that the scheduler does not stop, and
-- then that it does. The other threads do `others j` in the round `j`; the rounds are numbered down, and
-- in the round 0 the idle fiber has ended.
abbrev pub StopsAfter : (ℕ → Scheduler → Scheduler) → ℕ → Scheduler → Type 0
StopsAfter others zero s = (s.tasks ≡ []) × (stopping (others 1 (counted_idle s)) ≡ true)
StopsAfter others (suc k) s =
    (s.tasks ≡ [])
    × (stopping (others (suc (suc k)) (counted_idle s)) ≡ false)
    × StopsAfter others k (after_idle (others (suc (suc k))) s)

-- The scheduler after these rounds
abbrev pub left_after : (ℕ → Scheduler → Scheduler) → ℕ → Scheduler → Scheduler
left_after others zero s = after_idle (others 1) s
left_after others (suc k) s = left_after others k (after_idle (others (suc (suc k))) s)

no_tasks : (ts : List ScheduleTask) → is_empty ts ≡ true → ts ≡ []
no_tasks [] h = refl
no_tasks (t ∷ ts) h = cc

stopping-tasks : (s : Scheduler) → stopping s ≡ true → s.tasks ≡ []
unfolding stopping
stopping-tasks s h = no_tasks s.tasks (ground arith)

stopping-idle :
    (s : Scheduler) (k : ℕ) → stopping s ≡ true → stopping (record s { idle = k }) ≡ true
unfolding stopping
stopping-idle s k h = h

module _ (shared : ℕ → Bool) (me : ℕ) (fresh : ℕ → ℕ) (f q : ℕ)
    (others : ℕ → Scheduler → Scheduler) where
  -- The round that finds the idle fiber ended
  over_round :
      (w : Worker)
      → w.sched.tasks ≡ []
      → IsOver f q w.thread
      → run_round (idles (others 0)) shared me (fresh 0) f w ≡ ok (false, w)
  unfolding execute
  over_round w empty over =
      empty_round (idles (others 0)) shared me (fresh 0) f w empty
      ∙ rw (execute, over.finished.state) refl

  one_round :
      (k : ℕ) (w u : Worker)
      → run_round (idles (others k)) shared me (fresh k) f w ≡ ok (true, u)
      → run_loop (λ j. idles (others j)) shared me fresh f (suc k) w
        ≡ run_loop (λ j. idles (others j)) shared me fresh f k u
  unfolding run_loop
  one_round k w u e = rw e refl

  loop_ends :
      (k : ℕ) (w : Worker)
      → StopsAfter others k w.sched
      → IsWaiting f q w.thread
      → (t : Thread) × (run_loop (λ j. idles (others j)) shared me fresh f (suc (suc k)) w
          ≡ ok (false, record w { thread = t; sched = left_after others k w.sched }))
        × IsOver f q t
        × (stopping (left_after others k w.sched) ≡ true)
  unfolding run_loop
  loop_ends zero w (empty, stops) waits =
      let (t, e, over) = last_idle_round shared me (fresh 1) f q (others 1) w empty waits stops in
      let u : Worker = record w { thread = t; sched = after_idle (others 1) w.sched } in
      (
        t,
        one_round 1 w u e
            ∙ rw (over_round u (stopping-tasks (others 1 (counted_idle w.sched)) stops) over) refl,
        over,
        stopping-idle (others 1 (counted_idle w.sched)) _ stops,
      )
  loop_ends (suc k) w (empty, on, rest) waits =
      let (t, e, still) =
        idle_round shared me (fresh (suc (suc k))) f q (others (suc (suc k))) w empty waits on in
      let u : Worker = record w { thread = t; sched = after_idle (others (suc (suc k))) w.sched } in
      let (t', e', over, stops) = loop_ends k u rest still in
      (t', one_round (suc (suc k)) w u e ∙ e', over, stops)

entered-IsWaiting :
    (q f : ℕ) (cb : Option Callback) (t : Thread)
    → t.t_fiber ≡ none
    → (f == q) ≡ false
    → IsWaiting f q (run_enters false q f cb t)
unfolding run_enters get_this main_fiber set_this new_fiber
entered-IsWaiting q f cb t new apart = rw new (record {
  parked = record {
    side = ground arith;
    here = refl;
    apart = apart;
    parked = ground arith;
    own = ground arith;
  };
  stack = ground arith;
})

-- A thread other than the caller of use_caller, without a fiber, that enters run with its idle
-- fiber at another address than its main fiber, where the queue is empty whenever it looks, and
-- where the idle fiber finds k times, any number, that stopping answers no and then that it answers
-- yes, after whatever the other threads do to the scheduler in each of these rounds: run returns
-- after k + 2 rounds and without a fault, in the code of its main fiber, with the idle fiber
-- finished, stopping still answering yes, and the scheduler as the other threads have made it, with
-- the count of idle threads raised before and lowered after each turn of the idle fiber.
pub run_ends :
    (shared : ℕ → Bool) (me : ℕ) (fresh : ℕ → ℕ) (f q k : ℕ) (others : ℕ → Scheduler → Scheduler)
    (cb : Option Callback) (t : Thread) (s : Scheduler)
    → t.t_fiber ≡ none
    → (f == q) ≡ false
    → StopsAfter others k s
    → (u : Worker) × (run (λ j. idles (others j)) shared me fresh false q f cb (suc (suc k)) t s
        ≡ ok (false, u))
      × (u.sched ≡ left_after others k s)
      × (stopping u.sched ≡ true)
      × (u.thread.cpu ≡ some q)
      × ((u.thread.heap f).state ≡ term)
unfolding run after_loop destroy
run_ends shared me fresh f q k others cb t s new apart stops =
    let w : Worker = enter false q f cb t s in
    let (v, e, over, stopped) =
      loop_ends shared me fresh f q others k w stops (entered-IsWaiting q f cb t new apart) in
    (
      record w {
        thread = record v { s_fiber_count = u64 (v.s_fiber_count + (2 ^ 64 - 1)) };
        sched = left_after others k s;
      },
      rw (run, e, after_loop, destroy, over.stack, over.finished.state) refl,
      refl,
      stopped,
      over.finished.here,
      over.finished.state,
    )
