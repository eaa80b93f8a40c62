-- ===== src/Scheduler/Pick.antt =====
-- The choice of a task: the first that this thread may run, and what `tickle_me` says.
use my_coroutine.Common.{
  ℕ, ◌≡◌, refl, ap, Bool, true, false, not, ◌&&◌, ◌||◌, inl, inr, Option, none, some, List, [], ◌∷◌,
  ◌++◌, arith, Bool-cases,
}
use my_coroutine.Fiber.{State}
use my_coroutine.Scheduler.{ScheduleTask, is_foreign, is_busy, is_empty, pick}

-- A task that this thread may run now: not another thread's, and no fiber that is running.
abbrev pub is_eligible : ℕ → (ℕ → State) → ScheduleTask → Bool
is_eligible me state t = not (is_foreign me t) && not (is_busy state t)

abbrev pub NoneEligible : ℕ → (ℕ → State) → List ScheduleTask → Type 0
NoneEligible me state [] = Unit {0}
NoneEligible me state (t ∷ ts) = (is_eligible me state t ≡ false) × NoneEligible me state ts

abbrev pub some_foreign : ℕ → List ScheduleTask → Bool
some_foreign me [] = false
some_foreign me (t ∷ ts) = is_foreign me t || some_foreign me ts

-- What the loop over the queue has to find.
pub data Picks (me : ℕ) (state : ℕ → State) (tasks : List ScheduleTask)
    (r : Option ScheduleTask × List ScheduleTask × Bool) : Type 0 where
  nothing :
      NoneEligible me state tasks
      → r ≡ (none, tasks, some_foreign me tasks)
      → Picks me state tasks r
  first :
      (skipped : List ScheduleTask) (t : ScheduleTask) (after : List ScheduleTask)
      → NoneEligible me state skipped
      → is_eligible me state t ≡ true
      → tasks ≡ skipped ++ t ∷ after
      → r ≡ (some t, skipped ++ after, some_foreign me skipped || not (is_empty after))
      → Picks me state tasks r

skip :
    {me : ℕ} {state : ℕ → State} (t : ScheduleTask) (ts : List ScheduleTask)
    (r : Option ScheduleTask × List ScheduleTask × Bool)
    → is_eligible me state t ≡ false
    → Picks me state ts r
    → Picks me state (t ∷ ts) (r.0, t ∷ r.1, is_foreign me t || r.2)
skip t ts r n (nothing none_eligible e) = nothing (n, none_eligible) (ground arith)
skip t ts r n (first skipped u after none_eligible fits split e) =
    first (t ∷ skipped) u after (n, none_eligible) fits (ap (◌∷◌ t) split) (ground arith)

-- The loop of run over the tasks takes the first task that the thread may run and leaves the others
-- in their order, or finds nothing if there is none; it asks to wake other threads if it has passed
-- a task of another thread or if tasks follow the one that it takes.
pub pick-Picks :
    (me : ℕ) (state : ℕ → State) (tasks : List ScheduleTask)
    → Picks me state tasks (pick me state tasks)
unfolding pick
pick-Picks me state [] = nothing tt refl
pick-Picks me state (t ∷ ts) = elim (Bool-cases (is_foreign me t)) [
  | inl f ↦
      rw (f, pick) (rw f at (skip t ts (pick me state ts) (ground arith) (pick-Picks me state ts)))
  | inr f ↦ elim (Bool-cases (is_busy state t)) [
    | inl b ↦
        rw (f, b, pick)
          (rw f at (skip t ts (pick me state ts) (ground arith) (pick-Picks me state ts)))
    | inr b ↦ rw (f, b, pick) (first [] t ts tt (ground arith) refl refl)
  ]
]
