-- ===== src/Scheduler/Workers/Safety.antt =====
-- The reachable states of the pool of threads that runs Scheduler::run.
use my_coroutine.Common.{ℕ, zero, suc, ◌+◌, ◌≤◌, ◌≡◌, refl, ap, Bool, true, List, [], ◌∷◌, arith}
use my_coroutine.Common.Family.{sum_over, sum_over-const, sum_over_mono}
use my_coroutine.Scheduler.{ScheduleTask, stopping, is_empty}
use my_coroutine.Scheduler.Workers.{
  Phase, fetching, taken, checked, executing, leaving, empty_handed, counted, idling, resting,
  ended, System, Start, fresh, Reach, begin, later,
}
use my_coroutine.Scheduler.Workers.Counts.{is_active, is_idle, count, holds, Inv, Step-Inv}

Start-Inv : {n : ℕ} {s : System} → Start s → Inv n s
unfolding count
Start-Inv {n} (fresh s tasks active idle flag phase idle_ended added completed) = record {
  active = ground (arith, active, phase, sum_over-const is_active n fetching refl);
  idle = ground (arith, idle, phase, sum_over-const is_idle n fetching refl);
  conserved =
      λ q. ground (arith, tasks, added, completed, phase, sum_over-const (holds q) n fetching refl);
  idle_ended = λ j h. ground (arith, h, ap (λ (f : ℕ → Bool). f j) idle_ended);
  gone = λ j h. ground (arith, h, ap (λ (f : ℕ → Phase). f j) phase);
}

-- In every reachable state of the pool the two counters are the numbers of threads that have a task
-- and that are in their idle fiber, no task is lost or doubled, and idle fibers and threads end
-- only after stop.
pub Reach-Inv : {n : ℕ} {id : ℕ → ℕ} {s : System} → Reach n id s → Inv n s
Reach-Inv (begin start) = Start-Inv start
Reach-Inv (later r step) = Step-Inv step (Reach-Inv r)

holds-le-active : (q : ScheduleTask → Bool) (p : Phase) → holds q p ≤ is_active p
holds-le-active q fetching = omega arith
holds-le-active q (taken t) = ground arith
holds-le-active q (checked t f) = ground arith
holds-le-active q (executing t f) = ground arith
holds-le-active q (leaving t) = ground arith
holds-le-active q empty_handed = omega arith
holds-le-active q counted = omega arith
holds-le-active q idling = omega arith
holds-le-active q resting = omega arith
holds-le-active q ended = omega arith

empty-count :
    (q : ScheduleTask → Bool) (ts : List ScheduleTask) → is_empty ts ≡ true → count q ts ≡ 0
unfolding count
empty-count q [] h = refl
empty-count q (t ∷ ts) h = cc

-- In every state that the pool of threads reaches, under any interleaving, if stopping answers yes
-- then every task that was ever queued has been completed, as often as it was queued.
pub stopping_complete :
    {n : ℕ} {id : ℕ → ℕ} {s : System}
    → Reach n id s
    → stopping s.sched ≡ true
    → (q : ScheduleTask → Bool) → count q s.added ≡ count q s.completed
unfolding stopping count
stopping_complete {n} {id} {s} r stop q =
    let v = Reach-Inv r in
    let none_holds = sum_over_mono (holds q) is_active (holds-le-active q) n s.phase in
    ground (arith, stop, v.active, v.conserved q, none_holds, empty-count q s.sched.tasks)

busy-le : (n : ℕ) (f : ℕ → Phase) → sum_over is_active n f + sum_over is_idle n f ≤ n
unfolding sum_over
busy-le zero f = omega arith
busy-le (suc n) f = ground (arith, busy-le n f, one (f n))
  where
    one : (p : Phase) → is_active p + is_idle p ≤ 1
    one fetching = omega arith
    one (taken t) = omega arith
    one (checked t f) = omega arith
    one (executing t f) = omega arith
    one (leaving t) = omega arith
    one empty_handed = omega arith
    one counted = omega arith
    one idling = omega arith
    one resting = omega arith
    one ended = omega arith

-- In every reachable state of the pool the two counters together are at most the number of threads.
pub counters_bounded :
    {n : ℕ} {id : ℕ → ℕ} {s : System} → Reach n id s → s.sched.active + s.sched.idle ≤ n
counters_bounded {n} {s = s} r =
    let v = Reach-Inv r in omega (arith, v.active, v.idle, busy-le n s.phase)
