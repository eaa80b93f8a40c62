-- ===== src/Scheduler/Workers/Counts.antt =====
-- The counters m_activeThreadCount and m_idleThreadCount, and the tasks in the queue and with the
-- threads, over the steps of the pool.
use my_coroutine.Common.{
  ℕ, ◌+◌, ◌<◌, ◌≡◌, refl, ap, Bool, true, Option, some, List, [], ◌∷◌, ◌++◌, arith, if◌then◌else◌,
  count_true,
}
use my_coroutine.Common.Family.{sum_over, sum_over-update}
use my_coroutine.Scheduler.{ScheduleTask, Scheduler, schedule_no_lock, stopping, fetch}
use my_coroutine.Scheduler.Pick.{Picks, nothing, first, pick-Picks}
use my_coroutine.Fiber.{State}
use my_coroutine.Scheduler.Workers.{
  Phase, fetching, taken, checked, executing, leaving, empty_handed, counted, idling, resting,
  ended, System, Move, takes, checks, makes, enters, leaves, finishes, misses, starves, sleeps,
  rests, wakes, quits, Step, moves, schedules, stops, has_work,
}

abbrev pub is_active : Phase → ℕ
is_active (taken _) = 1
is_active (checked _ _) = 1
is_active (executing _ _) = 1
is_active (leaving _) = 1
is_active _ = 0

abbrev pub is_idle : Phase → ℕ
is_idle counted = 1
is_idle idling = 1
is_idle resting = 1
is_idle _ = 0

-- How many tasks of the list pass the test.
unfoldable pub count : (ScheduleTask → Bool) → List ScheduleTask → ℕ
count q [] = 0
count q (t ∷ ts) = count_true (q t) + count q ts

-- Does the thread hold a task that passes the test?
abbrev pub holds : (ScheduleTask → Bool) → Phase → ℕ
holds q (taken t) = count_true (q t)
holds q (checked t _) = count_true (q t)
holds q (executing t _) = count_true (q t)
holds q (leaving t) = count_true (q t)
holds q _ = 0

pub record Inv (n : ℕ) (s : System) : Type 0 where
  pub active : s.sched.active ≡ sum_over is_active n s.phase
  pub idle : s.sched.idle ≡ sum_over is_idle n s.phase
  pub conserved :
      (q : ScheduleTask → Bool)
      → count q s.added ≡ count q s.sched.tasks + sum_over (holds q) n s.phase + count q s.completed
  pub idle_ended : (i : ℕ) → s.idle_ended i ≡ true → s.sched.is_stopping ≡ true
  pub gone : (i : ℕ) → s.phase i ≡ ended → s.sched.is_stopping ≡ true

count-append :
    (q : ScheduleTask → Bool) (xs ys : List ScheduleTask)
    → count q (xs ++ ys) ≡ count q xs + count q ys
unfolding count
count-append q [] ys = omega arith
count-append q (x ∷ xs) ys = omega (arith, count-append q xs ys)

picked-count :
    {me : ℕ} {state : ℕ → State} {tasks : List ScheduleTask}
    {r : Option ScheduleTask × List ScheduleTask × Bool} {t : ScheduleTask}
    → Picks me state tasks r
    → r.0 ≡ some t
    → (q : ScheduleTask → Bool) → count q tasks ≡ count q r.1 + count_true (q t)
unfolding count
picked-count (nothing none_eligible e) found q = cc
picked-count (first skipped u after none_eligible fits split e) found q =
    ground
      (arith, ap (count q) split, count-append q skipped (u ∷ after), count-append q skipped after)

-- A fetch moves one task from the queue to the thread, and makes the thread active.
pub fetch-some :
    (me : ℕ) (state : ℕ → State) (c : Scheduler) (t : ScheduleTask)
    → (fetch me state c).0 ≡ some t
    → ((q : ScheduleTask → Bool)
        → count q c.tasks ≡ count q (fetch me state c).2.tasks + count_true (q t))
      × ((fetch me state c).2.active ≡ c.active + 1)
      × ((fetch me state c).2.idle ≡ c.idle)
      × ((fetch me state c).2.is_stopping ≡ c.is_stopping)
unfolding fetch
fetch-some me state c t e = (picked-count (pick-Picks me state c.tasks) e, rw e refl, refl, refl)

schedule-count :
    (t : ScheduleTask) (c : Scheduler) (q : ScheduleTask → Bool)
    → count q (schedule_no_lock t c).1.tasks
      ≡ count q c.tasks + (if has_work t then count_true (q t) else 0)
unfolding schedule_no_lock count
schedule-count t c q = ground (arith, count-append q c.tasks (t ∷ []))

schedule-counters :
    (t : ScheduleTask) (c : Scheduler)
    → ((schedule_no_lock t c).1.active ≡ c.active)
      × ((schedule_no_lock t c).1.idle ≡ c.idle)
      × ((schedule_no_lock t c).1.is_stopping ≡ c.is_stopping)
unfolding schedule_no_lock
schedule-counters t c = ground arith

stopping-flag : (c : Scheduler) → stopping c ≡ true → c.is_stopping ≡ true
unfolding stopping
stopping-flag c h = ground arith

-- Every move of a thread keeps the invariant.
Move-Inv : {me i n : ℕ} {s t : System} → i < n → Inv n s → Move me i s t → Inv n t
unfolding count
Move-Inv {me} {i} {n} {s} lt v (takes t at found) =
    let (conserved, active, idle, stop) = fetch-some me s.state s.sched t found in
    record {
      active =
          ground (arith, at, active, v.active, sum_over-update is_active n s.phase i (taken t) lt);
      idle = ground (arith, at, idle, v.idle, sum_over-update is_idle n s.phase i (taken t) lt);
      conserved = λ q. ground (
        arith,
        at,
        conserved q,
        v.conserved q,
        sum_over-update (holds q) n s.phase i (taken t) lt,
      );
      idle_ended = λ j h. ground (arith, stop, v.idle_ended j h);
      gone = λ j h. ground (arith, stop, v.gone j);
    }
Move-Inv {me} {i} {n} {s} lt v (checks t f at own parked) = record {
  active = ground (arith, at, v.active, sum_over-update is_active n s.phase i (checked t f) lt);
  idle = ground (arith, at, v.idle, sum_over-update is_idle n s.phase i (checked t f) lt);
  conserved = λ q.
      ground (arith, at, v.conserved q, sum_over-update (holds q) n s.phase i (checked t f) lt);
  idle_ended = v.idle_ended;
  gone = λ j h. ground (arith, v.gone j);
}
Move-Inv {me} {i} {n} {s} lt v (makes t f at own work free) = record {
  active = ground (arith, at, v.active, sum_over-update is_active n s.phase i (checked t f) lt);
  idle = ground (arith, at, v.idle, sum_over-update is_idle n s.phase i (checked t f) lt);
  conserved = λ q.
      ground (arith, at, v.conserved q, sum_over-update (holds q) n s.phase i (checked t f) lt);
  idle_ended = v.idle_ended;
  gone = λ j h. ground (arith, v.gone j);
}
Move-Inv {me} {i} {n} {s} lt v (enters t f at) = record {
  active = ground (arith, at, v.active, sum_over-update is_active n s.phase i (executing t f) lt);
  idle = ground (arith, at, v.idle, sum_over-update is_idle n s.phase i (executing t f) lt);
  conserved = λ q.
      ground (arith, at, v.conserved q, sum_over-update (holds q) n s.phase i (executing t f) lt);
  idle_ended = v.idle_ended;
  gone = λ j h. ground (arith, v.gone j);
}
Move-Inv {me} {i} {n} {s} lt v (leaves t f left at stopped) = record {
  active = ground (arith, at, v.active, sum_over-update is_active n s.phase i (leaving t) lt);
  idle = ground (arith, at, v.idle, sum_over-update is_idle n s.phase i (leaving t) lt);
  conserved =
      λ q. ground (arith, at, v.conserved q, sum_over-update (holds q) n s.phase i (leaving t) lt);
  idle_ended = v.idle_ended;
  gone = λ j h. ground (arith, v.gone j);
}
Move-Inv {me} {i} {n} {s} lt v (finishes t at) = record {
  active = ground (arith, at, v.active, sum_over-update is_active n s.phase i fetching lt);
  idle = ground (arith, at, v.idle, sum_over-update is_idle n s.phase i fetching lt);
  conserved =
      λ q. ground (arith, at, v.conserved q, sum_over-update (holds q) n s.phase i fetching lt);
  idle_ended = v.idle_ended;
  gone = λ j h. ground (arith, v.gone j);
}
Move-Inv {me} {i} {n} {s} lt v (misses at missing) = record {
  active = ground (arith, at, v.active, sum_over-update is_active n s.phase i empty_handed lt);
  idle = ground (arith, at, v.idle, sum_over-update is_idle n s.phase i empty_handed lt);
  conserved =
      λ q. ground (arith, at, v.conserved q, sum_over-update (holds q) n s.phase i empty_handed lt);
  idle_ended = v.idle_ended;
  gone = λ j h. ground (arith, v.gone j);
}
Move-Inv {me} {i} {n} {s} lt v (starves at goes_on) = record {
  active = ground (arith, at, v.active, sum_over-update is_active n s.phase i counted lt);
  idle = ground (arith, at, v.idle, sum_over-update is_idle n s.phase i counted lt);
  conserved =
      λ q. ground (arith, at, v.conserved q, sum_over-update (holds q) n s.phase i counted lt);
  idle_ended = v.idle_ended;
  gone = λ j h. ground (arith, v.gone j);
}
Move-Inv {me} {i} {n} {s} lt v (sleeps at parked) = record {
  active = ground (arith, at, v.active, sum_over-update is_active n s.phase i idling lt);
  idle = ground (arith, at, v.idle, sum_over-update is_idle n s.phase i idling lt);
  conserved =
      λ q. ground (arith, at, v.conserved q, sum_over-update (holds q) n s.phase i idling lt);
  idle_ended = v.idle_ended;
  gone = λ j h. ground (arith, v.gone j);
}
Move-Inv {me} {i} {n} {s} lt v (rests over at ends) = record {
  active = ground (arith, at, v.active, sum_over-update is_active n s.phase i resting lt);
  idle = ground (arith, at, v.idle, sum_over-update is_idle n s.phase i resting lt);
  conserved =
      λ q. ground (arith, at, v.conserved q, sum_over-update (holds q) n s.phase i resting lt);
  idle_ended = λ j h. ground (arith, v.idle_ended j, ends, stopping-flag s.sched);
  gone = λ j h. ground (arith, v.gone j);
}
Move-Inv {me} {i} {n} {s} lt v (wakes at) = record {
  active = ground (arith, at, v.active, sum_over-update is_active n s.phase i fetching lt);
  idle = ground (arith, at, v.idle, sum_over-update is_idle n s.phase i fetching lt);
  conserved =
      λ q. ground (arith, at, v.conserved q, sum_over-update (holds q) n s.phase i fetching lt);
  idle_ended = v.idle_ended;
  gone = λ j h. ground (arith, v.gone j);
}
Move-Inv {me} {i} {n} {s} lt v (quits at over) = record {
  active = ground (arith, at, v.active, sum_over-update is_active n s.phase i ended lt);
  idle = ground (arith, at, v.idle, sum_over-update is_idle n s.phase i ended lt);
  conserved =
      λ q. ground (arith, at, v.conserved q, sum_over-update (holds q) n s.phase i ended lt);
  idle_ended = v.idle_ended;
  gone = λ j h. ground (arith, v.gone j, v.idle_ended i over);
}

-- Every step of the pool keeps the invariant.
pub Step-Inv : {n : ℕ} {id : ℕ → ℕ} {s t : System} → Step n id s t → Inv n s → Inv n t
unfolding count
Step-Inv (moves i lt move) v = Move-Inv lt v move
Step-Inv {s = s} (schedules t) v = record {
  active = ground (arith, v.active, schedule-counters t s.sched);
  idle = ground (arith, v.idle, schedule-counters t s.sched);
  conserved = λ q. ground (arith, v.conserved q, schedule-count t s.sched q);
  idle_ended = λ j h. ground (arith, v.idle_ended j, schedule-counters t s.sched);
  gone = λ j h. ground (arith, v.gone j, schedule-counters t s.sched);
}
Step-Inv stops v = record {
  active = v.active;
  idle = v.idle;
  conserved = v.conserved;
  idle_ended = λ j h. refl;
  gone = λ j h. refl;
}
