-- ===== src/Scheduler/LifeCycle.antt =====
-- A scheduler from its constructor to its destructor.
use my_coroutine.Common.{
  ℕ, zero, suc, ◌≡◌, refl, ◌∙◌, Bool, true, false, none, some, List, [], ◌∷◌, ◌++◌, ◌<◌, ◌-◌, arith,
  ltb, is_some, if◌then◌else◌, Result, ok, ◌>>=◌, inl, inr, Bool-cases,
}
use my_coroutine.Scheduler.{
  any_thread, Scheduler, scheduler, start, new_threads, begin_stop, stopping,
}
use my_coroutine.Scheduler.Owner.{
  Owner, is_mine, new_scheduler, destroy_scheduler, tickles, Effects, stop,
}

-- The scheduler is still stopping, with the same threads and the same root fiber.
pub record Same (s u : Scheduler) : Type 0 where
  pub is_stopping : u.is_stopping ≡ s.is_stopping
  pub threads : u.threads ≡ s.threads
  pub root_fiber : u.root_fiber ≡ s.root_fiber

Same-trans : {s t u : Scheduler} → Same s t → Same t u → Same s u
Same-trans a b = record {
  is_stopping = b.is_stopping ∙ a.is_stopping;
  threads = b.threads ∙ a.threads;
  root_fiber = b.root_fiber ∙ a.root_fiber;
}

Same-refl : (s : Scheduler) → Same s s
Same-refl s = record { is_stopping = refl; threads = refl; root_fiber = refl }

-- A call returns, and leaves the flag, the threads and the root fiber.
abbrev pub Keeps : (Scheduler → Result Scheduler) → Type 0
Keeps f = (s : Scheduler) → (u : Scheduler) × (f s ≡ ok u) × Same s u

-- What runs meanwhile returns, and does not start or stop the scheduler.
pub record IsOrderly (e : Effects) : Type 0 where
  pub tickle : Keeps e.tickle
  pub resume_root : Keeps e.resume_root
  pub join : (ids : List ℕ) → Keeps (e.join ids)

tickles-Keeps :
    (tickle : Scheduler → Result Scheduler) → Keeps tickle → (n : ℕ) → Keeps (tickles tickle n)
unfolding tickles
tickles-Keeps tickle keeps zero s = (s, refl, Same-refl s)
tickles-Keeps tickle keeps (suc n) s =
    let (t, e, same) = keeps s in
    let (u, e', same') = tickles-Keeps tickle keeps n t in
    (u, rw (tickles, e, e') refl, Same-trans same same')

-- The part of stop for the root fiber
abbrev run_root : Effects → Scheduler → Result Scheduler
run_root e s = if is_some s.root_fiber then (do ticked ← e.tickle s; e.resume_root ticked) else ok s

run_root-Keeps : (e : Effects) → IsOrderly e → Keeps (run_root e)
run_root-Keeps e orderly s =
    let (t, e₁, same) = orderly.tickle s in
    let (u, e₂, same') = orderly.resume_root t in
    elim (Bool-cases (is_some s.root_fiber)) [
      | inl has ↦ (u, rw (has, e₁, e₂) refl, Same-trans same same')
      | inr bare ↦ (s, rw bare refl, Same-refl s)
    ]

-- stop, once it has set its flag
stop_ends :
    (e : Effects) (this : ℕ) (o : Owner) (s flagged : Scheduler)
    → IsOrderly e
    → begin_stop (is_mine this o) s ≡ ok (true, flagged)
    → (u : Scheduler) × (stop e this o s ≡ ok (flagged.threads, u))
      × (u.is_stopping ≡ flagged.is_stopping)
      × (u.threads ≡ [])
unfolding stop
stop_ends e this o s flagged orderly begun =
    let (woken, e₁, same₁) = tickles-Keeps e.tickle orderly.tickle flagged.thread_count flagged in
    let (drained, e₂, same₂) = run_root-Keeps e orderly woken in
    let (joined, e₃, same₃) = orderly.join drained.threads (record drained { threads = [] }) in
    let same : Same flagged drained = Same-trans same₁ same₂ in
    (
      joined,
      rw (stop, begun, e₁, e₂, e₃, same.threads) refl,
      same₃.is_stopping ∙ same.is_stopping,
      same₃.threads,
    )

-- The scheduler that the constructor makes.
abbrev pub made : ℕ → Bool → ℕ → ℕ → Scheduler
made threads use_caller self p = record {
  tasks = [];
  threads = [];
  thread_ids = if use_caller then self ∷ [] else [];
  thread_count = if use_caller then threads - 1 else threads;
  active = 0;
  idle = 0;
  use_caller = use_caller;
  root_fiber = if use_caller then some p else none;
  root_thread = if use_caller then self else any_thread;
  is_stopping = false;
}

abbrev pub owner_made : ℕ → Bool → ℕ → Owner → Owner
owner_made this use_caller p o =
    if use_caller then record { t_scheduler = some this; t_scheduler_fiber = some p } else o

is_positive : (n : ℕ) → 0 < n → ltb 0 n ≡ true
is_positive n h = ground arith

has_none : (o : Owner) → o.t_scheduler ≡ none → is_some o.t_scheduler ≡ false
has_none o h = rw h refl

not_mine : (this : ℕ) (o : Owner) → o.t_scheduler ≡ none → is_mine this o ≡ false
not_mine this o h = rw h refl

same_fiber :
    (this p : ℕ) (use_caller : Bool) (o : Owner)
    → (owner_made this use_caller p o).t_scheduler_fiber
      ≡ (if use_caller then some p else o.t_scheduler_fiber)
same_fiber this p true o = refl
same_fiber this p false o = refl

pub new_scheduler_lem :
    (this threads self p : ℕ) (use_caller : Bool) (o : Owner)
    → 0 < threads
    → o.t_scheduler ≡ none
    → new_scheduler this threads use_caller self p o
      ≡ ok (made threads use_caller self p, owner_made this use_caller p o)
unfolding new_scheduler scheduler
new_scheduler_lem this threads self p true o some_threads no_scheduler =
    rw (new_scheduler, scheduler, is_positive threads some_threads, has_none o no_scheduler) refl
new_scheduler_lem this threads self p false o some_threads no_scheduler =
    rw (new_scheduler, scheduler, is_positive threads some_threads) refl

-- The scheduler after start
abbrev pub started : (ℕ → ℕ) → Scheduler → Scheduler
started id s = record s {
  threads = new_threads id s.thread_count;
  thread_ids = s.thread_ids ++ new_threads id s.thread_count;
}

pub start-made :
    (id : ℕ → ℕ) (threads self p : ℕ) (use_caller : Bool)
    → start id (made threads use_caller self p) ≡ ok (started id (made threads use_caller self p))
unfolding start
start-made id threads self p use_caller = refl

begin_stop-made :
    (id : ℕ → ℕ) (this threads self p : ℕ) (use_caller : Bool) (o : Owner)
    → o.t_scheduler ≡ none
    → let s = started id (made threads use_caller self p) in
      begin_stop (is_mine this (owner_made this use_caller p o)) s
      ≡ ok (true, record s { is_stopping = true })
unfolding begin_stop stopping
begin_stop-made id this threads self p true o no_scheduler = ground arith
begin_stop-made id this threads self p false o no_scheduler = rw (not_mine this o no_scheduler) refl

destroy_made :
    (this p : ℕ) (use_caller : Bool) (u : Scheduler) (o : Owner)
    → o.t_scheduler ≡ none
    → u.is_stopping ≡ true
    → (rest : Owner) × (destroy_scheduler this u (owner_made this use_caller p o) ≡ ok rest)
      × (rest.t_scheduler ≡ none)
      × (rest.t_scheduler_fiber ≡ (owner_made this use_caller p o).t_scheduler_fiber)
unfolding destroy_scheduler
destroy_made this p true u o no_scheduler flag =
    (record { t_scheduler = none; t_scheduler_fiber = some p }, ground (arith, flag), refl, refl)
destroy_made this p false u o no_scheduler flag =
    (o, rw (destroy_scheduler, flag, not_mine this o no_scheduler) refl, no_scheduler, refl)

-- For a scheduler with at least one thread, on a thread without a scheduler, with or without
-- use_caller, and where tickle, the root fiber and the joined threads come to an end without
-- starting or stopping it: the constructor, start, stop on the same thread and the destructor all
-- return, stop joins exactly the threads that start has made, and at the end no thread is left and
-- t_scheduler is null again, while t_scheduler_fiber still points to the root fiber of use_caller.
pub life_cycle :
    (this threads self p : ℕ) (use_caller : Bool) (id : ℕ → ℕ) (e : Effects) (o : Owner)
    → 0 < threads
    → o.t_scheduler ≡ none
    → IsOrderly e
    → (s : Scheduler) × (owner : Owner) × (new_scheduler this threads use_caller self p o
        ≡ ok (s, owner))
      × (running : Scheduler) × (start id s ≡ ok running)
      × (stopped : Scheduler) × (stop e this owner running
          ≡ ok (new_threads id (if use_caller then threads - 1 else threads), stopped))
      × (stopped.threads ≡ [])
      × (rest : Owner) × (destroy_scheduler this stopped owner ≡ ok rest)
      × (rest.t_scheduler ≡ none)
      × (rest.t_scheduler_fiber ≡ (if use_caller then some p else o.t_scheduler_fiber))
life_cycle this threads self p use_caller id e o some_threads no_scheduler orderly =
    let s : Scheduler = made threads use_caller self p in
    let owner : Owner = owner_made this use_caller p o in
    let running : Scheduler = started id s in
    let (stopped, ends, flag, gone) =
      stop_ends e this owner running (record running { is_stopping = true }) orderly
        (begin_stop-made id this threads self p use_caller o no_scheduler) in
    let (rest, destroyed, released, fiber) =
      destroy_made this p use_caller stopped o no_scheduler flag in
    (
      s,
      owner,
      new_scheduler_lem this threads self p use_caller o some_threads no_scheduler,
      running,
      start-made id threads self p use_caller,
      stopped,
      ends,
      gone,
      rest,
      destroyed,
      released,
      fiber ∙ same_fiber this p use_caller o,
    )
