-- ===== src/Tests/Hooks.antt =====
-- The hooked calls in a fiber of an IOManager with the table of 64 entries, on the socket 3.
use my_coroutine.Common.{true, false, ◌≡◌, refl, none, some, [], ◌∷◌, ok, Returns, arith, get_elem?}
use my_coroutine.Common.Int.{pos, ◌+ℤ◌}
use my_coroutine.Callback.{wake_fiber}
use my_coroutine.Timer.{timer_manager, list_expired_cb}
use my_coroutine.Timer.Adding.{IsAdded}
use my_coroutine.Timer.Validity.{IsValid}
use my_coroutine.FdManager.{fd_manager}
use my_coroutine.FdManager.Context.{so_recvtimeo}
use my_coroutine.IoManager.{io_manager}
use my_coroutine.IoManager.FdContexts.{read, new_context}
use my_coroutine.IoManager.Initial.{io_manager-Valid}
use my_coroutine.IoManager.Drain.{Leaves}
use my_coroutine.Hook.{World, Here, Attempt, Wait, minus_one, eagain, eintr, einprogress}
use my_coroutine.Hook.Io.{Pass, Outcome, do_io}
use my_coroutine.Hook.Calls.{sleep, ConnectAnswers, close}
use my_coroutine.Hook.Flags.{Flags, flags_argument, set_flags, get_flags, fcntl, Timeval}
use my_coroutine.Hook.Waits.{IsInside, IsFree}
use my_coroutine.Hook.Blocking.{IsAnswered, first_answer, HasAnswered, do_io_blocks}
use my_coroutine.Hook.Options.{get_flags-set_flags}
use my_coroutine.Hook.Sockets.{close_lem}
use my_coroutine.Hook.Sleeping.{Holds, sleep_wakes}
use my_coroutine.Tests.Events.{caller, not_none}
use my_coroutine.Tests.Timers.{no_timers}
use my_coroutine.Tests.Rounds.{no_timers-IsValid}
use my_coroutine.Tests.Pool.{empty_pool}
use my_coroutine.Tests.Descriptors.{kernel, table}

abbrev pub world : World
world = record {
  enabled = true;
  fds = table;
  loop = record { sched = empty_pool; timers = no_timers; io = io_manager; tickled = 0 };
  infos = λ _. 0;
  errno = 0;
}

abbrev pub here : Here
here = record { has_iom = true; caller = caller }

pub here-IsInside : IsInside here 1
here-IsInside = record { iom = refl; scheduler = refl; runs = refl }

-- While the fiber is away, its event is triggered and its contexts are as they were.
abbrev pub triggered_meanwhile : Wait
triggered_meanwhile = record {
  timer = 4;
  now = pos 10;
  wrote = true;
  epoll = true;
  after = λ u. record u { loop = record u.loop { io = io_manager } };
}

abbrev answering : Attempt → Pass
answering a = record { attempt = a; wait = triggered_meanwhile }

abbrev interrupted : Attempt
interrupted = record { value = minus_one; errno = eintr }

abbrev would_block : Attempt
would_block = record { value = minus_one; errno = eagain }

abbrev five_bytes : Attempt
five_bytes = record { value = pos 5; errno = 0 }

pub read-IsFree : IsFree 3 read (new_context 3) world
unfolding io_manager
read-IsFree = record { valid = io_manager-Valid; context = refl; free = refl }

answering-IsAnswered : (a : Attempt) → IsAnswered here 50 3 read (answering a)
unfolding io_manager
answering-IsAnswered a = record {
  epoll = refl;
  back = λ c w calm f.
      (calm, new_context 3, record { valid = io_manager-Valid; context = refl; free = refl });
}

do_io_blocks_example :
    (o : Outcome) × (do_io kernel 100 here 50
        (pos 3)
        read
        so_recvtimeo
        (answering interrupted ∷ answering would_block ∷ answering five_bytes ∷ [])
        world
      ≡ ok o)
    × HasAnswered (some five_bytes) o
unfolding fd_manager first_answer
do_io_blocks_example =
    do_io_blocks kernel 100 50 3 so_recvtimeo 1 here read
      (answering interrupted ∷ answering would_block ∷ answering five_bytes ∷ []) world refl
      (omega arith) refl here-IsInside not_none (new_context 3) read-IsFree
      (
        answering-IsAnswered interrupted,
        (answering-IsAnswered would_block, (answering-IsAnswered five_bytes, tt)),
      )

abbrev plain : Flags
plain = record { nonblock = false; others = 2 }

abbrev plain_nonblock : Flags
plain_nonblock = record plain { nonblock = true }

get_flags-set_flags_example :
    Returns
      (λ r.
        (r.1 ≡ flags_argument plain_nonblock)
        × Returns
            (λ back. back.0 ≡ plain)
            (fcntl kernel 101 (pos 3) (λ _. plain_nonblock) get_flags r.2))
      (fcntl kernel 100 (pos 3) (λ _. plain_nonblock) (set_flags plain_nonblock) world)
unfolding fd_manager
get_flags-set_flags_example =
    get_flags-set_flags kernel 100 101 3 world (omega arith) refl (λ _. plain_nonblock)
      plain_nonblock

abbrev two_seconds : Timeval
two_seconds = record { seconds = 2; microseconds = 0 }

close_lem_example :
    (v : World) × (close kernel 100 here true true
        (pos 3)
        (record { value = pos 0; errno = 0 })
        world
      ≡ ok (pos 0, v))
    × Leaves 3 (new_context 3).events (new_context 3) io_manager v.loop.io
    × (get_elem? v.fds.datas 3 ≡ some none)
    × (v.errno ≡ 0)
unfolding fd_manager io_manager
close_lem_example =
    close_lem kernel 100 3 here (record { value = pos 0; errno = 0 }) (new_context 3) world refl
      (omega arith) refl io_manager-Valid refl

-- The fiber 20 sleeps for two seconds from time 10 on; the timers are asked at time 2010.
sleep_wakes_example :
    (asleep : World) × (sleep here 20 0 2 triggered_meanwhile world
      ≡ ok (0, triggered_meanwhile.after asleep))
    × IsValid asleep.loop.timers
    × IsAdded 4 (pos 2000) (some (wake_fiber 20)) false (pos 2010) no_timers asleep.loop.timers
    × Holds (some (wake_fiber 20)) (list_expired_cb 5 (pos 2010) asleep.loop.timers).0
unfolding timer_manager ◌+ℤ◌
sleep_wakes_example =
    sleep_wakes here 20 0 2 5 triggered_meanwhile (pos 2010) world refl refl refl no_timers-IsValid
      refl refl refl refl

-- A connect that is in progress, and then has succeeded.
abbrev connecting : ConnectAnswers
connecting = record {
  attempt = record { value = minus_one; errno = einprogress };
  wait = triggered_meanwhile;
  option = record { value = pos 0; errno = 0 };
  socket_error = 0;
}
