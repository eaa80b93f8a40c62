-- ===== src/Tests/Fibers.antt =====
-- A thread with its main fiber, at the address 10, and a fiber at 20 that the main fiber resumes.
use my_coroutine.Common.{true, arith, refl, ◌≡◌, ◌==◌, ◌<◌, false, none, some, Result, ok, err}
use my_coroutine.Callback.{user}
use my_coroutine.Common.Family.{update}
use my_coroutine.Fiber.Lifecycle.{resumes, apply}
use my_coroutine.Fiber.Identity.{Reach, begins, gets, makes, calls, distinct_ids}
use my_coroutine.Fiber.{ready, unset, Thread, get_this, new_fiber, resume}

abbrev pub empty_thread : Thread
empty_thread = record {
  heap = λ _. record {
    id = 0;
    stacksize = 0;
    state = ready;
    ctx = unset;
    stack = false;
    cb = none;
    run_in_scheduler = false;
  };
  t_fiber = none;
  t_thread_fiber = none;
  t_scheduler_fiber = none;
  cpu = none;
  s_fiber_id = 0;
  s_fiber_count = 0;
}

abbrev pub main_thread : Thread
main_thread = (get_this 10 empty_thread).1

abbrev parked_thread : Thread
parked_thread = new_fiber 20 (some (user 1)) 0 false main_thread

abbrev returned : Result Thread → Thread
returned (ok t) = t
returned (err _) = empty_thread

abbrev running_thread : Thread
running_thread = returned (resume 20 parked_thread)

running-Reach : Reach running_thread (update (update (λ _. false) 10 true) 20 true) 2
unfolding get_this new_fiber resume apply
running-Reach =
    calls (resumes 20) running_thread
      (makes 20 (some (user 1)) 0 false (gets 10 (begins empty_thread refl) refl refl) refl) refl
      refl

distinct_ids_example :
    ((running_thread.heap 10).id < 2)
    × (((running_thread.heap 10).id == (running_thread.heap 20).id) ≡ false)
distinct_ids_example = distinct_ids 10 20 running-Reach (omega arith) refl refl refl
