-- ===== src/Scheduler/Execute/Callbacks.antt =====
-- How run executes the task of a callback.
use my_coroutine.Common.{
  ℕ, ◌≡◌, refl, ap, ◌∙◌, Bool, true, false, Option, none, some, arith, ◌==◌, ok,
}
use my_coroutine.Callback.{Callback}
use my_coroutine.Fiber.{
  Fiber, Thread, term, new_fiber, resume, yield, main_func_end, main_func_calls,
}
use my_coroutine.Fiber.Switch.{
  IsParked, IsRunning, resume-IsRunning, resume_kept, yield-IsParked, yield_kept,
  main_func_end_kept, main_func_end-IsFinished,
}
use my_coroutine.Scheduler.{Scheduler, cb_task}
use my_coroutine.Scheduler.Execute.{
  Worker, Code, to_the_end, to_a_yield, resume_until_back, less_active, release, callback_fiber,
  execute,
}
use my_coroutine.Scheduler.Execute.Steps.{
  value, RunsIn, let_go, release_finished, release_parked, ended_code, yielded_code, dropped,
}

-- A thread in `run`, in the code of its scheduling fiber `s`, where the address `p` is free.
pub record InRun (s p : ℕ) (w : Worker) : Type 0 where
  pub side : w.thread.t_scheduler_fiber ≡ some s
  pub here : w.thread.cpu ≡ some s
  pub apart : (p == s) ≡ false
  pub no_fiber : w.cb_fiber ≡ none

-- The thread with the new fiber
abbrev pub given : ℕ → Option Callback → Worker → Thread
given p cb w = new_fiber p cb 0 true w.thread

module _ (s p : ℕ) (cb : Option Callback) (w : Worker) (in_run : InRun s p w) where
  pub new_fiber-IsParked : IsParked p s (given p cb w)
  unfolding new_fiber
  new_fiber-IsParked = record {
    side = ground (arith, in_run.side);
    here = in_run.here;
    apart = in_run.apart;
    parked = ground arith;
    own = ground arith;
  }

  -- The new fiber runs, and its code calls the callback.
  given_resumed :
      (u : Thread) × (resume p (given p cb w) ≡ ok u)
      × IsRunning p s u
      × ((u.heap p).cb ≡ cb)
      × ((u.heap p).stack ≡ true)
  unfolding new_fiber
  given_resumed =
      let (u, e, (runs, _), (stack, same)) =
        value _ _ (resume p (given p cb w)) (resume-IsRunning p s (given p cb w) new_fiber-IsParked)
          (resume_kept p s (given p cb w) new_fiber-IsParked) in
      (u, e, runs, same ∙ ground arith, stack ∙ ground arith)

new_cb_fiber :
    (p : ℕ) (cb : Option Callback) (w : Worker)
    → w.cb_fiber ≡ none
    → callback_fiber p cb w ≡ ok (p, record w { thread = given p cb w; cb_fiber = some p })
unfolding callback_fiber
new_cb_fiber p cb w h = rw (callback_fiber, h) refl

-- The steps of a callback's task
pub execute_callback :
    (code : ℕ → Code) (shared : ℕ → Bool) (p idle_fiber thread : ℕ) (c : Callback) (w : Worker)
    (entered : Thread) (back : Thread × Scheduler)
    → w.cb_fiber ≡ none
    → resume p (given p (some c) w) ≡ ok entered
    → code p (entered, w.sched) ≡ ok back
    → execute code shared p idle_fiber (cb_task (some c) thread) w
      ≡ let_go (
          release
            (shared p)
            p
            (record { thread = back.0; sched = less_active back.1; cb_fiber = some p }))
unfolding execute resume_until_back
execute_callback code shared p idle_fiber thread c w entered back no_fiber e₁ e₂ =
    rw (execute, new_cb_fiber p (some c) w no_fiber, resume_until_back, e₁, e₂) refl

-- The callback `c` in its fiber: the thread that it is called in, and what it leaves.
record Ran (s p : ℕ) (c : Callback) (body : Code) (w : Worker) (x : Thread) (y : Thread × Scheduler)
    : Type 0 where
  entered : resume p (given p (some c) w) ≡ ok x
  runs : IsRunning p s x
  calls : main_func_calls x ≡ some c
  body_returns : body (x, w.sched) ≡ ok y
  still_runs : IsRunning p s y.0
  stack : (y.0.heap p).stack ≡ true

module _ (s p idle_fiber thread : ℕ) (c : Callback) (body : Code) (w : Worker)
    (in_run : InRun s p w) (runs_in : RunsIn p s body) where
  ran : (x : Thread) × (y : Thread × Scheduler) × Ran s p c body w x y
  unfolding main_func_calls
  ran =
      let (u, e, runs, same, stack) = given_resumed s p (some c) w in_run in
      let (y, returns, still, kept) = runs_in.returns (u, w.sched) runs in
      (
        u,
        y,
        record {
          entered = e;
          runs = runs;
          calls = rw (main_func_calls, runs.current) same;
          body_returns = returns;
          still_runs = still;
          stack = kept ∙ stack;
        },
      )

  -- A thread in run that takes the task of a callback, at a free address for the new fiber, where
  -- what the callback does returns in its fiber: the callback is called in a new fiber that is
  -- running and current, with the scheduler as it was, and once it has returned run goes on, in the
  -- code of its scheduling fiber, without a cb_fiber, with the fiber finished, and with the count
  -- of active threads one less than the callback has left it, whether or not something else still
  -- holds the fiber.
  callback_finishes :
      (shared : Bool)
      → (x : Thread) × (y : Thread × Scheduler) × (u : Worker) × IsRunning p s x
        × (main_func_calls x ≡ some c)
        × (body (x, w.sched) ≡ ok y)
        × (execute (λ f. to_the_end f body) (λ _. shared) p idle_fiber (cb_task (some c) thread) w
            ≡ ok (true, u))
        × (u.cb_fiber ≡ none)
        × (u.thread.cpu ≡ some s)
        × ((u.thread.heap p).state ≡ term)
        × (u.sched ≡ less_active y.1)
  callback_finishes shared =
      let (x, y, r) = ran in
      let (t, e, (ended, _), kept) =
        value _ _ (main_func_end p y.0) (main_func_end-IsFinished p s y.0 r.still_runs)
          (main_func_end_kept p s y.0 r.still_runs) in
      let (u, released, left) =
        release_finished shared p
          (record { thread = t; sched = less_active y.1; cb_fiber = some p }) (kept ∙ r.stack)
          ended.state in
      (
        x,
        y,
        record u { cb_fiber = none },
        r.runs,
        r.calls,
        r.body_returns,
        execute_callback (λ f. to_the_end f body) (λ _. shared) p idle_fiber thread c w x (t, y.1)
              in_run.no_fiber r.entered (ended_code p body (x, w.sched) y t r.body_returns e)
            ∙ dropped _ u released,
        refl,
        left.same_cpu ∙ ended.here,
        ap (λ (h : ℕ → Fiber). (h p).state) left.same_heap ∙ ended.state,
        left.same_sched,
      )

  -- The same where the callback yields instead of returning: run goes on without a cb_fiber, with
  -- the count of active threads one less than the callback has left it, and the fiber is not
  -- destroyed, also if nothing but itself holds it; it is ready and can be resumed from run.
  pub callback_yields :
      (shared : Bool)
      → (x : Thread) × (y : Thread × Scheduler) × (u : Worker) × IsRunning p s x
        × (main_func_calls x ≡ some c)
        × (body (x, w.sched) ≡ ok y)
        × (execute (λ f. to_a_yield f body) (λ _. shared) p idle_fiber (cb_task (some c) thread) w
            ≡ ok (true, u))
        × (u.cb_fiber ≡ none)
        × IsParked p s u.thread
        × ((u.thread.heap p).stack ≡ true)
        × (u.sched ≡ less_active y.1)
  callback_yields shared =
      let (x, y, r) = ran in
      let (t, e, (parked, _, _), kept) =
        value _ _ (yield p y.0) (yield-IsParked p s y.0 r.still_runs)
          (yield_kept p s y.0 r.still_runs) in
      let back : Worker = record { thread = t; sched = less_active y.1; cb_fiber = some p } in
      (
        x,
        y,
        record back { cb_fiber = none },
        r.runs,
        r.calls,
        r.body_returns,
        execute_callback (λ f. to_a_yield f body) (λ _. shared) p idle_fiber thread c w x (t, y.1)
              in_run.no_fiber r.entered (yielded_code p body (x, w.sched) y t r.body_returns e)
            ∙ release_parked shared p back parked.parked,
        refl,
        parked,
        kept ∙ r.stack,
        refl,
      )
