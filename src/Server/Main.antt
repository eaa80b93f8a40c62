-- ===== src/Server/Main.antt =====
-- `main` of server.cpp, up to its endless loop.
use my_coroutine.Common.{
  ℕ, ◌≡◌, refl, true, false, Bool, none, some, [], ◌∷◌, Result, ok, ◌>>=◌, arith,
}
use my_coroutine.Common.Int.{ℤ}
use my_coroutine.Scheduler.{cb_task, any_thread, schedule_no_lock}
use my_coroutine.Scheduler.Owner.{Owner}
use my_coroutine.Scheduler.LifeCycle.{owner_made}
use my_coroutine.Timer.Comparator.{Timer}
use my_coroutine.IoManager.Setup.{
  SetupAnswers, new_io_manager, all_good, loop_made, new_io_manager_lem,
}
use my_coroutine.IoManager.Idle.{Loop, schedule}
use my_coroutine.IoManager.Idle.Rounds.{schedule_returns}
use my_coroutine.Server.{test_io_manager_cb}

-- IOManager iom; iom.schedule(test_IOmanager); with the arguments of new_io_manager, whose defaults are
-- one thread and use_caller.
unfoldable pub main :
    Bool → ℕ → ℕ → ℕ → (ℕ → ℕ) → (ℕ → Timer) → ℤ → SetupAnswers → Owner → Result (Loop × Owner)
unfolding new_io_manager
main wrote this self p id heap now a o = do
  (iom, owner) ← new_io_manager this 1 true self p id heap now a o
  scheduled ← schedule wrote (cb_task (some test_io_manager_cb) any_thread) iom
  ok (scheduled, owner)

-- main of the server, on a thread without a scheduler, in a memory without armed timers and with
-- the answers that the constructor of IOManager asserts, comes to its endless loop with the server
-- in the queue and with no thread started that could take it: only the root fiber could, which stop
-- resumes, and stop has not been called.
pub main_lem :
    (this self p : ℕ) (id : ℕ → ℕ) (heap : ℕ → Timer) (now : ℤ) (a : SetupAnswers) (o : Owner)
    → o.t_scheduler ≡ none
    → ((b : ℕ) → (heap b).cb ≡ none)
    → all_good a ≡ true
    → (l : Loop) × (owner : Owner) × (main true this self p id heap now a o ≡ ok (l, owner))
      × (l.sched.threads ≡ [])
      × (l.sched.root_fiber ≡ some p)
      × (l.sched.is_stopping ≡ false)
      × (l.sched.tasks ≡ cb_task (some test_io_manager_cb) any_thread ∷ [])
unfolding main schedule_no_lock
main_lem this self p id heap now a o no_scheduler blank good =
    let made : Loop = loop_made 1 true self p id heap now in
    let (e, _, _) =
      new_io_manager_lem this 1 self p true id heap now a o (omega arith) no_scheduler blank in
    let (t, e₂) = schedule_returns (cb_task (some test_io_manager_cb) any_thread) made in
    (
      record made {
        sched = (schedule_no_lock (cb_task (some test_io_manager_cb) any_thread) made.sched).1;
        tickled = t;
      },
      owner_made this true p o,
      rw (main, e, good, e₂) refl,
      refl,
      refl,
      refl,
      refl,
    )
