-- ===== src/Scheduler/Run/Idling.antt =====
-- The rounds of Scheduler::run (Scheduler.cpp) in which a thread finds no task and resumes its idle
-- fiber, with Scheduler::idle in it.
use my_coroutine.Common.{ℕ, ◌+◌, ◌≡◌, ◌∙◌, refl, ap, Option, Bool, true, false, none, [], ok}
use my_coroutine.Fiber.{State, Thread, ready, resume, yield, main_func_end, u64}
use my_coroutine.Fiber.Switch.{
  IsParked, IsFinished, resume-IsRunning, resume_kept, yield-IsParked, yield_kept,
  main_func_end-IsFinished, main_func_end_kept,
}
use my_coroutine.Scheduler.{Scheduler, ScheduleTask, no_task, pick, fetch, stopping}
use my_coroutine.Scheduler.Execute.{Worker, Code, counted_down, resume_until_back, execute}
use my_coroutine.Scheduler.Execute.Steps.{value}
use my_coroutine.Scheduler.Run.{codes, states, or_no_task, stretch, scheduler_idle, run_round}

-- What runs in the fibers: Scheduler::idle, while the other threads change the scheduler.
abbrev pub idles : (Scheduler → Scheduler) → ℕ → Code
idles others = codes (λ f. scheduler_idle (λ (thread, sched). ok (thread, others sched)))

-- The scheduler while the idle fiber of a thread runs, and after it, by what the others do meanwhile.
abbrev pub counted_idle : Scheduler → Scheduler
counted_idle s = record s { idle = u64 (s.idle + 1) }

abbrev pub after_idle : (Scheduler → Scheduler) → Scheduler → Scheduler
after_idle others s =
    let left = others (counted_idle s) in record left { idle = counted_down left.idle }

-- The thread at the head of the loop, on its scheduling fiber `q`, with the idle fiber `f` to be resumed.
pub record IsWaiting (f q : ℕ) (t : Thread) : Type 0 where
  pub parked : IsParked f q t
  pub stack : (t.heap f).stack ≡ true

-- The same once the idle fiber has ended
pub record IsOver (f q : ℕ) (t : Thread) : Type 0 where
  pub finished : IsFinished f q t
  pub stack : (t.heap f).stack ≡ true

-- One stretch of the idle fiber that yields, and one that ends
idle_yields :
    (others : Scheduler → Scheduler) (f : ℕ) (x y : Thread) (s : Scheduler)
    → stopping (others s) ≡ false
    → yield f x ≡ ok y
    → idles others f (x, s) ≡ ok (y, others s)
unfolding stretch scheduler_idle
idle_yields others f x y s on e = rw (on, e) refl

idle_ends :
    (others : Scheduler → Scheduler) (f : ℕ) (x y : Thread) (s : Scheduler)
    → stopping (others s) ≡ true
    → main_func_end f x ≡ ok y
    → idles others f (x, s) ≡ ok (y, others s)
unfolding stretch scheduler_idle
idle_ends others f x y s over e = rw (over, e) refl

pub fetch_empty :
    (me : ℕ) (state : ℕ → State) (s : Scheduler)
    → s.tasks ≡ []
    → fetch me state s ≡ (none, false, s)
unfolding fetch pick
fetch_empty me state s empty = rw (fetch, empty) refl

-- A round of a thread that finds no task
pub empty_round :
    (code : ℕ → Code) (shared : ℕ → Bool) (me p f : ℕ) (w : Worker)
    → w.sched.tasks ≡ []
    → run_round code shared me p f w ≡ execute code shared p f no_task w
unfolding run_round
empty_round code shared me p f w empty =
    ap
      (λ (r : Option ScheduleTask × Bool × Scheduler).
        execute code shared p f (or_no_task r.0) (record w { sched = r.2 }))
      (fetch_empty me (states w.thread) w.sched empty)

-- What run does without a task while its idle fiber has not ended
idle_execute :
    (code : ℕ → Code) (shared : ℕ → Bool) (p f : ℕ) (w : Worker) (x y : Thread) (left : Scheduler)
    → (w.thread.heap f).state ≡ ready
    → resume f w.thread ≡ ok x
    → code f (x, counted_idle w.sched) ≡ ok (y, left)
    → execute code shared p f no_task w
      ≡ ok (true, record w { thread = y; sched = record left { idle = counted_down left.idle } })
unfolding execute resume_until_back
idle_execute code shared p f w x y left parked e₁ e₂ = rw (execute, parked, e₁, e₂) refl

module _ (shared : ℕ → Bool) (me p f q : ℕ) (others : Scheduler → Scheduler) (w : Worker)
    (empty : w.sched.tasks ≡ []) (waits : IsWaiting f q w.thread) where
  -- A round in which the idle fiber yields
  pub idle_round :
      stopping (others (counted_idle w.sched)) ≡ false
      → (t : Thread) × (run_round (idles others) shared me p f w
          ≡ ok (true, record w { thread = t; sched = after_idle others w.sched }))
        × IsWaiting f q t
  idle_round on =
      let (x, e₁, (runs, kept), (stack, _)) =
        value _ _ (resume f w.thread) (resume-IsRunning f q w.thread waits.parked)
          (resume_kept f q w.thread waits.parked) in
      let (y, e₂, (parked, _, _), stack') =
        value _ _ (yield f x) (yield-IsParked f q x runs) (yield_kept f q x runs) in
      (
        y,
        empty_round (idles others) shared me p f w empty
            ∙ idle_execute (idles others) shared p f w x y _ waits.parked.parked e₁
                (idle_yields others f x y (counted_idle w.sched) on e₂),
        record { parked = parked; stack = stack' ∙ stack ∙ waits.stack },
      )

  -- The round in which it ends
  pub last_idle_round :
      stopping (others (counted_idle w.sched)) ≡ true
      → (t : Thread) × (run_round (idles others) shared me p f w
          ≡ ok (true, record w { thread = t; sched = after_idle others w.sched }))
        × IsOver f q t
  last_idle_round over =
      let (x, e₁, (runs, kept), (stack, _)) =
        value _ _ (resume f w.thread) (resume-IsRunning f q w.thread waits.parked)
          (resume_kept f q w.thread waits.parked) in
      let (y, e₂, (finished, _), stack') =
        value _ _ (main_func_end f x) (main_func_end-IsFinished f q x runs)
          (main_func_end_kept f q x runs) in
      (
        y,
        empty_round (idles others) shared me p f w empty
            ∙ idle_execute (idles others) shared p f w x y _ waits.parked.parked e₁
                (idle_ends others f x y (counted_idle w.sched) over e₂),
        record { finished = finished; stack = stack' ∙ stack ∙ waits.stack },
      )
