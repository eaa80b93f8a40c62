-- ===== src/Scheduler/Execute/Steps.antt =====
-- The parts of what run does with a task: the code of a fiber between two switches, and dropping the
-- pointer to it.
use my_coroutine.Common.{
  ℕ, ◌+◌, ◌-◌, ◌^◌, ◌≡◌, refl, Bool, true, false, none, Result, ok, err, Returns, ◌>>=◌,
}
use my_coroutine.Fiber.{Thread, ready, term, yield, main_func_end, destroy, u64}
use my_coroutine.Fiber.Switch.{IsRunning}
use my_coroutine.Scheduler.{Scheduler}
use my_coroutine.Scheduler.Execute.{Worker, Code, to_the_end, to_a_yield, release}

-- A call that returns, by its value.
pub value {ℓ} :
    {A : Type ℓ} (P Q : A → Type 0) (r : Result A)
    → Returns P r
    → Returns Q r
    → (a : A) × (r ≡ ok a) × P a × Q a
value P Q (ok a) h k = (a, refl, h, k)
value P Q (err e) h k = elim h [ ]

-- What the callback of the fiber `f` does returns in the fiber, which keeps its stack.
pub record RunsIn (f s : ℕ) (body : Code) : Type 0 where
  pub returns :
      (x : Thread × Scheduler)
      → IsRunning f s x.0
      → (y : Thread × Scheduler) × (body x ≡ ok y)
        × IsRunning f s y.0
        × ((y.0.heap f).stack ≡ (x.0.heap f).stack)

-- The round goes on, and cb_fiber is empty.
abbrev pub let_go : Result Worker → Result (Bool × Worker)
let_go r = do left ← r; ok (true, record left { cb_fiber = none })

-- What dropping a pointer leaves
pub record Released (w u : Worker) : Type 0 where
  pub same_cpu : u.thread.cpu ≡ w.thread.cpu
  pub same_heap : u.thread.heap ≡ w.thread.heap
  pub same_side : u.thread.t_scheduler_fiber ≡ w.thread.t_scheduler_fiber
  pub same_thread_fiber : u.thread.t_thread_fiber ≡ w.thread.t_thread_fiber
  pub same_cb_fiber : u.cb_fiber ≡ w.cb_fiber
  pub same_sched : u.sched ≡ w.sched

pub release_finished :
    (shared : Bool) (p : ℕ) (w : Worker)
    → (w.thread.heap p).stack ≡ true
    → (w.thread.heap p).state ≡ term
    → (u : Worker) × (release shared p w ≡ ok u) × Released w u
unfolding release destroy
release_finished true p w stack ended = (
  w,
  refl,
  record {
    same_cpu = refl;
    same_heap = refl;
    same_side = refl;
    same_thread_fiber = refl;
    same_cb_fiber = refl;
    same_sched = refl;
  },
)
release_finished false p w stack ended =
    let fewer : ℕ = u64 (w.thread.s_fiber_count + (2 ^ 64 - 1)) in
    let u : Worker = record w { thread = record w.thread { s_fiber_count = fewer } } in
    (
      u,
      rw (release, destroy, ended, stack) refl,
      record {
        same_cpu = refl;
        same_heap = refl;
        same_side = refl;
        same_thread_fiber = refl;
        same_cb_fiber = refl;
        same_sched = refl;
      },
    )

-- A fiber that has only yielded is kept.
pub release_parked :
    (shared : Bool) (p : ℕ) (w : Worker)
    → (w.thread.heap p).state ≡ ready
    → let_go (release shared p w) ≡ ok (true, record w { cb_fiber = none })
unfolding release
release_parked true p w parked = refl
release_parked false p w parked = rw (release, parked) refl

pub ended_code :
    (f : ℕ) (body : Code) (start y : Thread × Scheduler) (t : Thread)
    → body start ≡ ok y
    → main_func_end f y.0 ≡ ok t
    → to_the_end f body start ≡ ok (t, y.1)
unfolding to_the_end
ended_code f body start y t e₁ e₂ = rw (to_the_end, e₁, e₂) refl

pub yielded_code :
    (f : ℕ) (body : Code) (start y : Thread × Scheduler) (t : Thread)
    → body start ≡ ok y
    → yield f y.0 ≡ ok t
    → to_a_yield f body start ≡ ok (t, y.1)
unfolding to_a_yield
yielded_code f body start y t e₁ e₂ = rw (to_a_yield, e₁, e₂) refl

pub dropped :
    (r : Result Worker) (u : Worker) → r ≡ ok u → let_go r ≡ ok (true, record u { cb_fiber = none })
dropped r u e = rw e refl
