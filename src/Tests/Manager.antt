-- ===== src/Tests/Manager.antt =====
-- An IOManager that has just been made, and one whose idle fiber goes round while a fiber waits.
use my_coroutine.Common.{true, false, ◌≡◌, refl, some, [], ◌∷◌, ok, arith, get_elem?}
use my_coroutine.Common.Int.{ℤ, pos, ◌+ℤ◌}
use my_coroutine.Callback.{wake_fiber}
use my_coroutine.Scheduler.{cb_task, any_thread}
use my_coroutine.Timer.{timer_manager}
use my_coroutine.Timer.Validity.{IsValid}
use my_coroutine.IoManager.{io_manager}
use my_coroutine.IoManager.FdContexts.{read, has, FdContext, new_context}
use my_coroutine.IoManager.Validity.{Valid}
use my_coroutine.IoManager.Idle.{Loop, Answers, Round, idle_round, idle_rounds}
use my_coroutine.IoManager.Setup.{SetupAnswers, new_io_manager, loop_made, new_io_manager_lem}
use my_coroutine.Hook.{World}
use my_coroutine.Hook.Calls.{sleep}
use my_coroutine.Hook.Sleeping.{Holds}
use my_coroutine.Hook.Awake.{sleep_queued}
use my_coroutine.Hook.Waits.{registered_world}
use my_coroutine.Hook.Unhandled.{never_woken}
use my_coroutine.Scheduler.Owner.{Owner}
use my_coroutine.Server.{test_io_manager_cb}
use my_coroutine.Server.Main.{main, main_lem}
use my_coroutine.Tests.Events.{not_none}
use my_coroutine.Tests.Timers.{blank}
use my_coroutine.Tests.Pool.{id, no_owner}
use my_coroutine.Tests.Rounds.{answers, no_timers-IsValid}
use my_coroutine.Tests.Hooks.{world, triggered_meanwhile, here, here-IsInside, read-IsFree}

abbrev setup : SetupAnswers
setup = record { epfd = pos 3; pipe = true; nonblock = true; added = true }

new_io_manager_lem_example :
    (new_io_manager 100 2 false 5 30 id blank (pos 0) setup no_owner
      ≡ ok (loop_made 2 false 5 30 id blank (pos 0), no_owner))
    × Valid (loop_made 2 false 5 30 id blank (pos 0)).io
    × IsValid (loop_made 2 false 5 30 id blank (pos 0)).timers
new_io_manager_lem_example =
    new_io_manager_lem 100 2 5 30 false id blank (pos 0) setup no_owner (omega arith) refl
      (λ b. refl)

-- epoll reports twice that there is something to read from the descriptor 3.
abbrev reported : Round
reported = record { answers = answers; meanwhile = λ l. l }

never_woken_example :
    (u : Loop) × (idle_rounds
        (reported ∷ reported ∷ [])
        (registered_world here 3 read (new_context 3) world).loop
      ≡ ok (false, u))
    × (u.io.scheduled ≡ [])
    × (d : FdContext) × (get_elem? u.io.contexts 3 ≡ some d)
    × (has read d.events ≡ true)
unfolding io_manager
never_woken_example =
    never_woken here 1 3 read (new_context 3) world (reported ∷ reported ∷ []) here-IsInside
      not_none read-IsFree
      (
        record { wrote = refl; same_io = λ l. refl },
        (record { wrote = refl; same_io = λ l. refl }, tt),
      )

-- The fiber 20 sleeps for two seconds from time 10 on; epoll returns at time 2010.
abbrev later_answers : Answers
later_answers = record answers { asked_at = pos 20; woken_at = pos 2010 }

sleep_queued_example :
    (asleep : World) × (sleep here 20 0 2 triggered_meanwhile world
      ≡ ok (0, triggered_meanwhile.after asleep))
    × (timeout : ℤ) × (u : Loop) × (idle_round later_answers asleep.loop ≡ ok (some timeout, u))
    × Holds (cb_task (some (wake_fiber 20)) any_thread) u.sched.tasks
unfolding timer_manager ◌+ℤ◌
sleep_queued_example =
    sleep_queued here 20 0 2 triggered_meanwhile later_answers world refl refl refl refl
      no_timers-IsValid refl refl refl refl

-- The server's main function, in a thread that has no scheduler yet.
main_lem_example :
    (l : Loop) × (owner : Owner) × (main true 100 5 30 id blank (pos 0) setup no_owner
      ≡ ok (l, owner))
    × (l.sched.threads ≡ [])
    × (l.sched.root_fiber ≡ some 30)
    × (l.sched.is_stopping ≡ false)
    × (l.sched.tasks ≡ cb_task (some test_io_manager_cb) any_thread ∷ [])
main_lem_example = main_lem 100 5 30 id blank (pos 0) setup no_owner refl (λ b. refl) refl
