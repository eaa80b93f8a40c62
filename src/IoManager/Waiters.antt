-- ===== src/IoManager/Waiters.antt =====
-- Who waits for an event of an IOManager: the fibers and callbacks in its event contexts, each with the
-- scheduler that it goes to, and how the calls of IOManager.cpp move them.
pub mod Calls
pub mod Adding
pub mod System
use my_coroutine.Common.{
  ℕ, zero, suc, ◌+◌, ◌≡◌, refl, sym, ap, Bool, true, false, not, ◌&&◌, Option, none, some, List, [],
  ◌∷◌, ◌++◌, arith, count_true, is_some, if◌then◌else◌, get_elem?, set, get_elem?-set, Result, ok,
  err, Ensures, Ensures-bind, guard, ◌>>=◌, ◌>>◌, inl, inr, Bool-cases, Option-cases,
}
use my_coroutine.Common.Int.{ℤ, pos, negsuc}
use my_coroutine.Common.Family.{update}
use my_coroutine.Scheduler.{ScheduleTask}
use my_coroutine.IoManager.{IoManager, fire, fire_if, one_less}
use my_coroutine.IoManager.FdContexts.{
  Event, none_event, read, write, has, EventContext, FdContext, Events, trigger_event, event_task,
}
use my_coroutine.IoManager.Validity.{get_elem?-length}
use my_coroutine.IoManager.Cancel.{context_for, triggered}
use my_coroutine.IoManager.Firing.{addressed, event_tasks, task_if}

-- A task with the scheduler that gets it.
abbrev pub Waiter : Type 0
Waiter = Option ℕ × ScheduleTask

-- How many elements pass the test.
unfoldable pub tally {ℓ} : {A : Type ℓ} → (A → Bool) → List A → ℕ
tally q [] = 0
tally q (x ∷ xs) = count_true (q x) + tally q xs

pub tally-append {ℓ} :
    {A : Type ℓ} (q : A → Bool) (xs ys : List A) → tally q (xs ++ ys) ≡ tally q xs + tally q ys
unfolding tally
tally-append q [] ys = omega arith
tally-append q (x ∷ xs) ys = omega (arith, tally-append q xs ys)

-- The waiters of a context, and of all of them, that pass the test.
abbrev pub held_in : (Waiter → Bool) → Bool → EventContext → ℕ
held_in q test ctx = if test then count_true (q (ctx.scheduler, event_task ctx)) else 0

abbrev pub held : (Waiter → Bool) → FdContext → ℕ
held q c = held_in q c.events.reads c.read_ctx + held_in q c.events.writes c.write_ctx

unfoldable pub waiting : (Waiter → Bool) → List FdContext → ℕ
waiting q [] = 0
waiting q (c ∷ cs) = held q c + waiting q cs

-- Those that wait or have been handed to their scheduler.
abbrev pub known : (Waiter → Bool) → IoManager → ℕ
known q m = waiting q m.contexts + tally q (addressed m.scheduled)

pub waiting-set :
    (q : Waiter → Bool) (cs : List FdContext) (n : ℕ) (c c' : FdContext)
    → get_elem? cs n ≡ some c
    → waiting q (set cs n c') + held q c ≡ waiting q cs + held q c'
unfolding waiting
waiting-set q [] n c c' e = cc
waiting-set q (x ∷ cs) zero c c' e = let same : x ≡ c = cc in omega (arith, ap (held q) same)
waiting-set q (x ∷ cs) (suc n) c c' e = omega (arith, waiting-set q cs n c c' e)

addressed-append :
    (xs : List (ℕ × ScheduleTask)) (s : ℕ) (task : ScheduleTask)
    → addressed (xs ++ (s, task) ∷ []) ≡ addressed xs ++ (some s, task) ∷ []
addressed-append [] s task = refl
addressed-append (x ∷ xs) s task = ap (◌∷◌ (some x.0, x.1)) (addressed-append xs s task)

tally-addressed :
    (q : Waiter → Bool) (xs : List (ℕ × ScheduleTask)) (s : ℕ) (task : ScheduleTask)
    → tally q (addressed (xs ++ (s, task) ∷ []))
      ≡ tally q (addressed xs) + count_true (q (some s, task))
unfolding tally
tally-addressed q xs s task =
    rw (addressed-append xs s task)
      (omega (arith, tally-append q (addressed xs) ((some s, task) ∷ [])))

-- A trigger takes exactly the waiter of the event out of its context.
abbrev Takes : FdContext → ℕ × ScheduleTask × FdContext → Type 0
Takes c r = (q : Waiter → Bool) → held q c ≡ held q r.2 + count_true (q (some r.0, r.1))

trigger_event-Takes :
    (wrote : Bool) (event : Event) (c : FdContext) → Ensures (Takes c) (trigger_event wrote event c)
unfolding trigger_event
trigger_event-Takes wrote none_event c = tt
trigger_event-Takes wrote read c = elim (Bool-cases c.events.reads) [
  | inr h ↦ rw (trigger_event, h) tt
  | inl h ↦ elim (Option-cases c.read_ctx.scheduler) [
    | inl to ↦ rw (trigger_event, h, to) tt
    | inr (s, to) ↦ elim (Bool-cases wrote) [
      | inl can ↦ rw (trigger_event, h, to, can) (λ q. ground (arith, h, to))
      | inr cannot ↦ rw (trigger_event, h, to, cannot) tt
    ]
  ]
]
trigger_event-Takes wrote write c = elim (Bool-cases c.events.writes) [
  | inr h ↦ rw (trigger_event, h) tt
  | inl h ↦ elim (Option-cases c.write_ctx.scheduler) [
    | inl to ↦ rw (trigger_event, h, to) tt
    | inr (s, to) ↦ elim (Bool-cases wrote) [
      | inl can ↦ rw (trigger_event, h, to, can) (λ q. ground (arith, h, to))
      | inr cannot ↦ rw (trigger_event, h, to, cannot) tt
    ]
  ]
]

-- The waiters are the same, some of them handed out, and the context `n` is the one returned.
abbrev pub Hands : ℕ → IoManager → FdContext × IoManager → Type 0
Hands n m (c, m') =
    (get_elem? m'.contexts n ≡ some c) × ((q : Waiter → Bool) → known q m' ≡ known q m)

pub fire-Hands :
    (wrote : Bool) (n : ℕ) (event : Event) (c : FdContext) (m : IoManager)
    → get_elem? m.contexts n ≡ some c
    → Ensures (Hands n m) (fire wrote n event c m)
unfolding fire
fire-Hands wrote n event c m here =
    Ensures-bind (Takes c) (Hands n m) (trigger_event wrote event c)
      (λ r. ok (
        r.2,
        record m {
          contexts = set m.contexts n r.2;
          pending = one_less m.pending;
          scheduled = m.scheduled ++ (r.0, r.1) ∷ [];
        },
      ))
      (trigger_event-Takes wrote event c)
      (λ (s, task, after) takes. (
        ground (arith, get_elem?-set m.contexts n n after, get_elem?-length m.contexts n c here),
        λ q. omega (
          arith,
          waiting-set q m.contexts n c after here,
          takes q,
          tally-addressed q m.scheduled s task,
        ),
      ))

pub fire_if-Hands :
    (wrote test : Bool) (n : ℕ) (event : Event) (c : FdContext) (m : IoManager)
    → get_elem? m.contexts n ≡ some c
    → Ensures (Hands n m) (fire_if wrote test n event c m)
unfolding fire_if
fire_if-Hands wrote true n event c m here = fire-Hands wrote n event c m here
fire_if-Hands wrote false n event c m here = (here, λ q. refl)
