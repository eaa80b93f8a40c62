-- ===== src/Tests/Running.antt =====
-- A thread that enters run and finds no task, while another one calls stop.
use my_coroutine.Common.{ℕ, zero, suc, ◌≡◌, refl, true, false, some, ok}
use my_coroutine.Callback.{user}
use my_coroutine.Fiber.{term}
use my_coroutine.Scheduler.{Scheduler, stopping}
use my_coroutine.Scheduler.Execute.{Worker}
use my_coroutine.Scheduler.Run.{run}
use my_coroutine.Scheduler.Run.Idling.{idles}
use my_coroutine.Scheduler.Run.Ending.{run_ends}
use my_coroutine.Tests.Fibers.{empty_thread}
use my_coroutine.Tests.Pool.{empty_pool}

-- stop is called while the idle fiber runs for the second time, in the round 1.
abbrev meanwhile : ℕ → Scheduler → Scheduler
meanwhile (suc zero) s = record s { is_stopping = true }
meanwhile _ s = s

run_ends_example :
    (u : Worker) × (run
        (λ j. idles (meanwhile j))
        (λ _. false)
        7
        (λ k. k)
        false
        10
        30
        (some (user 0))
        3
        empty_thread
        empty_pool
      ≡ ok (false, u))
    × (u.sched ≡ record empty_pool { is_stopping = true })
    × (stopping u.sched ≡ true)
    × (u.thread.cpu ≡ some 10)
    × ((u.thread.heap 30).state ≡ term)
unfolding stopping
run_ends_example =
    run_ends (λ _. false) 7 (λ k. k) 30 10 1 meanwhile (some (user 0)) empty_thread empty_pool refl
      refl (refl, refl, (refl, refl))
