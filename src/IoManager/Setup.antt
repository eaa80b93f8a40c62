-- ===== src/IoManager/Setup.antt =====
-- The constructor IOManager of IOManager.cpp: a scheduler, timers, and event contexts.
use my_coroutine.Common.{
  ℕ, ◌<◌, ◌≡◌, refl, Bool, true, false, ◌&&◌, none, if◌then◌else◌, Result, ok, err, assertion,
  guard, ◌>>=◌, ◌>>◌,
}
use my_coroutine.Common.Int.{ℤ, pos, ltb_ℤ}
use my_coroutine.Scheduler.{start}
use my_coroutine.Scheduler.Owner.{Owner, new_scheduler}
use my_coroutine.Scheduler.LifeCycle.{made, owner_made, started, new_scheduler_lem, start-made}
use my_coroutine.Timer.{timer_manager}
use my_coroutine.Timer.Comparator.{Timer}
use my_coroutine.Timer.Validity.{IsValid, timer_manager-IsValid}
use my_coroutine.IoManager.{io_manager}
use my_coroutine.IoManager.Validity.{Valid}
use my_coroutine.IoManager.Initial.{io_manager-Valid}
use my_coroutine.IoManager.Idle.{Loop}

-- What epoll_create returns, and whether pipe, fcntl and epoll_ctl return 0.
pub record SetupAnswers : Type 0 where
  pub epfd : ℤ
  pub pipe : Bool
  pub nonblock : Bool
  pub added : Bool

-- IOManager(threads, use_caller); `heap` is the memory of the timers, and `now` the clock in
-- TimerManager().
unfoldable pub new_io_manager :
    ℕ → ℕ → Bool → ℕ → ℕ → (ℕ → ℕ) → (ℕ → Timer) → ℤ → SetupAnswers → Owner → Result (Loop × Owner)
new_io_manager this threads use_caller self p id heap now a o = do
  (s, owner) ← new_scheduler this threads use_caller self p o
  guard (ltb_ℤ (pos 0) a.epfd)
  guard a.pipe
  guard a.nonblock
  guard a.added
  running ← start id s
  ok (
    record { sched = running; timers = timer_manager heap now; io = io_manager; tickled = 0 },
    owner,
  )

-- Every answer is the one that the constructor asserts.
abbrev pub all_good : SetupAnswers → Bool
all_good a = ltb_ℤ (pos 0) a.epfd && a.pipe && a.nonblock && a.added

-- What the constructor makes.
abbrev pub loop_made : ℕ → Bool → ℕ → ℕ → (ℕ → ℕ) → (ℕ → Timer) → ℤ → Loop
loop_made threads use_caller self p id heap now = record {
  sched = started id (made threads use_caller self p);
  timers = timer_manager heap now;
  io = io_manager;
  tickled = 0;
}

-- Four assertions, one after the other
guards_lem {ℓ} :
    {A : Type ℓ} (x : A) (a b c d : Bool)
    → (do guard a; guard b; guard c; guard d; ok x)
      ≡ (if a && b && c && d then ok x else err assertion)
guards_lem x true true true true = refl
guards_lem x true true true false = refl
guards_lem x true true false d = refl
guards_lem x true false c d = refl
guards_lem x false b c d = refl

-- The constructor of IOManager, with at least one thread, on a thread without a scheduler and in a
-- memory without armed timers, returns exactly if epoll_create returns a positive descriptor and
-- pipe, fcntl and epoll_ctl succeed, and stops the program by an assertion otherwise; what it makes
-- has started threads, valid timers and valid event contexts.
pub new_io_manager_lem :
    (this threads self p : ℕ) (use_caller : Bool) (id : ℕ → ℕ) (heap : ℕ → Timer) (now : ℤ)
    (a : SetupAnswers) (o : Owner)
    → 0 < threads
    → o.t_scheduler ≡ none
    → ((b : ℕ) → (heap b).cb ≡ none)
    → let l = loop_made threads use_caller self p id heap now in
      (new_io_manager this threads use_caller self p id heap now a o
        ≡ (if all_good a then ok (l, owner_made this use_caller p o) else err assertion))
      × Valid l.io
      × IsValid l.timers
unfolding new_io_manager
new_io_manager_lem this threads self p use_caller id heap now a o some_threads no_scheduler blank =
    (
      rw
          (
            new_io_manager,
            new_scheduler_lem this threads self p use_caller o some_threads no_scheduler,
            start-made id threads self p use_caller,
          )
          (guards_lem
            (loop_made threads use_caller self p id heap now, owner_made this use_caller p o)
            (ltb_ℤ (pos 0) a.epfd) a.pipe a.nonblock a.added),
      io_manager-Valid,
      timer_manager-IsValid heap now blank,
    )
