-- ===== src/Scheduler/Owner.antt =====
-- The calls of Scheduler.cpp that make, run down and end a scheduler, with what a thread knows of its
-- scheduler: t_scheduler and t_scheduler_fiber. A scheduler is named by its address.
use my_coroutine.Common.{
  ℕ, zero, suc, Bool, false, not, Option, none, some, List, [], ◌==◌, is_some, if◌then◌else◌,
  Result, ok, guard, ◌>>=◌, ◌>>◌,
}
use my_coroutine.Scheduler.{Scheduler, scheduler, begin_stop}

pub record Owner : Type 0 where
  pub t_scheduler : Option ℕ
  pub t_scheduler_fiber : Option ℕ

-- Scheduler::GetThis and Scheduler::GetScheduleFiber
unfoldable pub get_scheduler : Owner → Option ℕ
get_scheduler o = o.t_scheduler

unfoldable pub get_schedule_fiber : Owner → Option ℕ
get_schedule_fiber o = o.t_scheduler_fiber

-- setThis, of the scheduler at the address `this`
unfoldable pub set_this_scheduler : ℕ → Owner → Owner
set_this_scheduler this o = record o { t_scheduler = some this }

-- GetThis() == this
abbrev pub is_mine : ℕ → Owner → Bool
is_mine this o = elim o.t_scheduler [ none ↦ false | some a ↦ a == this ]

-- The constructor; `p` is the address of the root fiber.
unfoldable pub new_scheduler : ℕ → ℕ → Bool → ℕ → ℕ → Owner → Result (Scheduler × Owner)
new_scheduler this threads use_caller self p o = do
  s ← scheduler threads use_caller self o.t_scheduler p
  ok (s, if use_caller then record { t_scheduler = some this; t_scheduler_fiber = some p } else o)

-- run, up to its loop, on the thread `self` whose current fiber is `current`
unfoldable pub enter_run : ℕ → ℕ → ℕ → Scheduler → Owner → Owner
enter_run this self current s o =
    let mine = set_this_scheduler this o in
    if not (self == s.root_thread) then record mine { t_scheduler_fiber = some current } else mine

-- The destructor
unfoldable pub destroy_scheduler : ℕ → Scheduler → Owner → Result Owner
destroy_scheduler this s o = do
  guard s.is_stopping
  ok (if is_mine this o then record o { t_scheduler = none } else o)

-- for(i = 0; i < n; i++) tickle();
unfoldable pub tickles : (Scheduler → Result Scheduler) → ℕ → Scheduler → Result Scheduler
tickles tickle zero s = ok s
tickles tickle (suc n) s = do ticked ← tickle s; tickles tickle n ticked

-- What happens to the scheduler in the calls that stop makes: `tickle`, which is virtual, `resume` of
-- the root fiber, and `join` of the threads.
pub record Effects : Type 0 where
  pub tickle : Scheduler → Result Scheduler
  pub resume_root : Scheduler → Result Scheduler
  pub join : List ℕ → Scheduler → Result Scheduler

-- stop: the threads that are joined, and the scheduler
unfoldable pub stop : Effects → ℕ → Owner → Scheduler → Result (List ℕ × Scheduler)
unfolding tickles
stop e this o s = do
  (goes_on, flagged) ← begin_stop (is_mine this o) s
  if not goes_on then ok ([], flagged) else do
    woken ← tickles e.tickle flagged.thread_count flagged
    drained ←
        (if is_some woken.root_fiber
          then (do ticked ← e.tickle woken; e.resume_root ticked)
          else ok woken)
    joined ← e.join drained.threads (record drained { threads = [] })
    ok (drained.threads, joined)
