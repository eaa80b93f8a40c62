-- ===== src/Fiber/Switch.antt =====
-- resume, yield, the end of MainFunc and reset as they follow one another for one fiber.
use my_coroutine.Common.{ℕ, ◌≡◌, refl, true, false, Option, none, some, arith, ◌==◌, ok, Returns}
use my_coroutine.Callback.{Callback}
use my_coroutine.Fiber.{
  ready, running, term, Thread, put, target, resume, yield, main_func_end, reset, other_side,
  swap_context, set_state, set_this,
}

-- The fiber `f` can be resumed from the code of `s`, the fiber that it switches with: the scheduling
-- fiber, or the thread's main fiber.
pub record IsParked (f s : ℕ) (t : Thread) : Type 0 where
  pub side : other_side f t ≡ some s
  pub here : t.cpu ≡ some s
  pub apart : (f == s) ≡ false
  pub parked : (t.heap f).state ≡ ready
  pub own : target f (t.heap f).ctx ≡ some f

-- What a resumed fiber runs in: it is the current fiber, and its own code runs.
pub record IsRunning (f s : ℕ) (t : Thread) : Type 0 where
  pub side : other_side f t ≡ some s
  pub here : t.cpu ≡ some f
  pub current : t.t_fiber ≡ some f
  pub apart : (f == s) ≡ false
  pub state : (t.heap f).state ≡ running
  pub back : target s (t.heap s).ctx ≡ some s

-- The fiber is finished, and the code of `s` runs.
pub record IsFinished (f s : ℕ) (t : Thread) : Type 0 where
  pub side : other_side f t ≡ some s
  pub here : t.cpu ≡ some s
  pub apart : (f == s) ≡ false
  pub state : (t.heap f).state ≡ term
  pub empty : (t.heap f).cb ≡ none

-- The fibers besides `f` and `s` are as they were, and `s` is up to its saved context.
pub record OthersKept (f s : ℕ) (t u : Thread) : Type 0 where
  pub others : (g : ℕ) → (f == g) ≡ false → (s == g) ≡ false → u.heap g ≡ t.heap g
  pub side_state : (u.heap s).state ≡ (t.heap s).state
  pub side_cb : (u.heap s).cb ≡ (t.heap s).cb
  pub scheduler_fiber : u.t_scheduler_fiber ≡ t.t_scheduler_fiber
  pub thread_fiber : u.t_thread_fiber ≡ t.t_thread_fiber

module _ (f s : ℕ) (t : Thread) where
  -- The thread after `f` has been resumed from `s`, and after it has given way to `s` again.
  abbrev resumed : Thread
  resumed = swap_context s f (set_state running f (set_this (some f) t))

  abbrev yielded : Thread
  yielded = swap_context f s (set_state ready f (set_this t.t_thread_fiber t))

  abbrev finished : Thread
  finished = swap_context f s (
      set_this t.t_thread_fiber
        (record t { heap = put t.heap f (record (t.heap f) { cb = none; state = term }) }))

  resume_parked : IsParked f s t → resume f t ≡ ok resumed
  unfolding resume
  resume_parked h = simp (h.parked, h.side)

  yield_running : IsRunning f s t → yield f t ≡ ok yielded
  unfolding yield
  yield_running h = simp (h.state, h.side)

  -- resume of a parked fiber, from the code of the fiber that it switches with, returns: the fiber
  -- is running and current, the resuming code is saved where yield looks for it, and no other fiber
  -- changes.
  pub resume-IsRunning :
      IsParked f s t → Returns (λ u. IsRunning f s u × OthersKept f s t u) (resume f t)
  unfolding resume
  resume-IsRunning h = rw (resume_parked h) (runs, kept)
    where
      runs : IsRunning f s resumed
      runs = record {
        side = ground arith;
        here = ground arith;
        current = ground arith;
        apart = h.apart;
        state = ground arith;
        back = ground arith;
      }

      kept : OthersKept f s t resumed
      kept = record {
        others = λ g n k. ground arith;
        side_state = ground arith;
        side_cb = ground arith;
        scheduler_fiber = refl;
        thread_fiber = refl;
      }

  -- resume leaves the stack and the callback of the fiber.
  pub resume_kept :
      IsParked f s t
      → Returns
          (λ u. ((u.heap f).stack ≡ (t.heap f).stack) × ((u.heap f).cb ≡ (t.heap f).cb))
          (resume f t)
  unfolding resume
  resume_kept h = rw (resume_parked h) (ground arith, ground arith)

  -- yield of a running fiber returns: the fiber is ready and continues with its own code, the code
  -- that resumed it runs, the current fiber is the main fiber of the thread, and no other fiber
  -- changes.
  pub yield-IsParked :
      IsRunning f s t
      → Returns
          (λ u. IsParked f s u × OthersKept f s t u × (u.t_fiber ≡ t.t_thread_fiber))
          (yield f t)
  unfolding yield
  yield-IsParked h = rw (yield_running h) (parks, kept, refl)
    where
      parks : IsParked f s yielded
      parks = record {
        side = ground arith;
        here = ground arith;
        apart = h.apart;
        parked = ground arith;
        own = ground arith;
      }

      kept : OthersKept f s t yielded
      kept = record {
        others = λ g n k. ground arith;
        side_state = ground arith;
        side_cb = ground arith;
        scheduler_fiber = refl;
        thread_fiber = refl;
      }

  -- yield leaves the stack of the fiber, and so does the end of MainFunc.
  pub yield_kept : IsRunning f s t → Returns (λ u. (u.heap f).stack ≡ (t.heap f).stack) (yield f t)
  unfolding yield
  yield_kept h = rw (yield_running h) (ground arith)

  main_func_end_running : IsRunning f s t → main_func_end f t ≡ ok finished
  unfolding main_func_end
  main_func_end_running h = ground arith

  -- When the callback of a running fiber has returned, MainFunc leaves the fiber finished and
  -- without a callback, the code that resumed it runs, and no other fiber changes.
  pub main_func_end-IsFinished :
      IsRunning f s t → Returns (λ u. IsFinished f s u × OthersKept f s t u) (main_func_end f t)
  unfolding yield
  main_func_end-IsFinished h = rw (main_func_end_running h) (ends, kept)
    where
      ends : IsFinished f s finished
      ends = record {
        side = ground arith;
        here = ground arith;
        apart = h.apart;
        state = ground arith;
        empty = ground arith;
      }

      kept : OthersKept f s t finished
      kept = record {
        others = λ g n k. ground arith;
        side_state = ground arith;
        side_cb = ground arith;
        scheduler_fiber = refl;
        thread_fiber = refl;
      }

  pub main_func_end_kept :
      IsRunning f s t → Returns (λ u. (u.heap f).stack ≡ (t.heap f).stack) (main_func_end f t)
  unfolding yield
  main_func_end_kept h = rw (main_func_end_running h) (ground arith)

  -- A finished fiber that has a stack can be given another callback, and is then ready to be
  -- resumed.
  reset-IsParked :
      (cb : Option Callback)
      → IsFinished f s t
      → (t.heap f).stack ≡ true
      → Returns (λ u. IsParked f s u × ((u.heap f).cb ≡ cb)) (reset f cb t)
  unfolding reset
  reset-IsParked cb h stack =
      simp (h.state, stack)
        (
          record {
            side = ground arith;
            here = h.here;
            apart = h.apart;
            parked = ground arith;
            own = ground arith;
          },
          ground arith,
        )
