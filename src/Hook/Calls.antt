-- ===== src/Hook/Calls.antt =====
-- The other hooked calls of Hook.cpp: sleep, socket, connect, close, fcntl, ioctl and the socket
-- options.
use my_coroutine.Common.{
  ℕ, ◌*◌, ◌%◌, ◌^◌, Bool, true, false, not, ◌&&◌, ◌||◌, none, some, ◌==◌, is_some, if◌then◌else◌,
  Result, ok, err, null_pointer, ◌>>=◌,
}
use my_coroutine.Common.Int.{ℤ, pos, eqb_ℤ}
use my_coroutine.Common.Family.{update}
use my_coroutine.Callback.{Callback, user, on_timer, io_timeout, wake_fiber}
use my_coroutine.Scheduler.{any_thread, fiber_task}
use my_coroutine.Timer.{add_timer}
use my_coroutine.FdManager.{del}
use my_coroutine.FdManager.Context.{Kernel}
use my_coroutine.IoManager.{cancel_all}
use my_coroutine.IoManager.FdContexts.{write}
use my_coroutine.IoManager.Idle.{tickle, schedule}
use my_coroutine.Hook.{
  World, Here, Attempt, Wait, minus_one, ebadf, einprogress, get_ctx, wait_event, on_io_timeout,
  event_of,
}

-- seconds * 1000, on an unsigned int
abbrev pub sleep_ms : ℕ → ℕ
sleep_ms seconds = seconds * 1000 % 2 ^ 32

-- sleep, in the fiber `f`: the world when the fiber is resumed. Without the hook the original is
-- called, which changes nothing here; `left` is what that returns.
unfoldable pub sleep : Here → ℕ → ℕ → ℕ → Wait → World → Result (ℕ × World)
sleep here f left seconds a w =
    if not w.enabled then ok (left, w) else if not here.has_iom then err null_pointer else do
      let made =
          add_timer a.timer (pos (sleep_ms seconds)) (some (wake_fiber f)) false a.now w.loop.timers
      let armed = record w.loop { timers = made.1 }
      loop ← (if made.0 then tickle a.wrote armed else ok armed)
      ok (0, a.after (record w { loop = loop }))

-- What a callback of a timer does, `client` standing for the functions of the client; `lock` says
-- which weak pointers can be locked.
unfoldable pub run_callback :
    (ℕ → World → Result World) → (ℕ → Bool) → Bool → Bool → Callback → World → Result World
run_callback client lock epoll wrote (user n) w = client n w
run_callback client lock epoll wrote (on_timer cond cb) w =
    let run = run_callback client lock epoll wrote cb w in if lock cond then run else ok w
run_callback client lock epoll wrote (io_timeout info fd event) w =
    on_io_timeout (lock info) epoll wrote info fd (event_of event) w
run_callback client lock epoll wrote (wake_fiber f) w = do
  loop ← schedule wrote (fiber_task (some f) any_thread) w.loop
  ok (record w { loop = loop })

-- socket: `a` is what the original returns.
unfoldable pub socket : Kernel → ℕ → Attempt → World → Result (ℤ × World)
socket k p a w =
    let called = record w { errno = a.errno } in
    if not w.enabled || eqb_ℤ a.value minus_one
    then ok (a.value, called)
    else do (ctx, registered) ← get_ctx k p a.value true called; ok (a.value, registered)

-- What the system answers in connect: connect_f, the wait, and the getsockopt that reads SO_ERROR,
-- with the error that it reads.
pub record ConnectAnswers : Type 0 where
  pub attempt : Attempt
  pub wait : Wait
  pub option : Attempt
  pub socket_error : ℕ

-- connect_with_timeout from getsockopt on
abbrev pub connect_result : ConnectAnswers → World → ℤ × World
connect_result a w =
    if eqb_ℤ a.option.value minus_one
    then (minus_one, record w { errno = a.option.errno })
    else if a.socket_error == 0
    then (pos 0, record w { errno = a.option.errno })
    else (minus_one, record w { errno = a.socket_error })

-- connect_with_timeout after a connect_f that is in progress
unfoldable pub connect_wait : Here → ℕ → ℤ → ℤ → ConnectAnswers → World → Result (ℤ × World)
connect_wait here info fd timeout a w = do
  (added, waited) ←
      wait_event here info fd write timeout a.wait (record w { infos = update w.infos info 0 })
  if added && not (waited.infos info == 0)
      then ok (minus_one, record waited { errno = waited.infos info })
      else ok (connect_result a waited)

unfoldable pub connect_with_timeout :
    Kernel → ℕ → Here → ℕ → ℤ → ℤ → ConnectAnswers → World → Result (ℤ × World)
connect_with_timeout k p here info fd timeout a w =
    let direct = λ (v : World). ok (a.attempt.value, record v { errno = a.attempt.errno }) in
    if not w.enabled then direct w else do
      (ctx, found) ← get_ctx k p fd false w
      elim ctx [
        | none ↦ ok (minus_one, record found { errno = ebadf })
        | some c ↦
            if c.is_closed
            then ok (minus_one, record found { errno = ebadf })
            else if not c.is_socket || c.user_no_block
            then direct found
            else if eqb_ℤ a.attempt.value (pos 0)
            then direct found
            else if not (eqb_ℤ a.attempt.value minus_one) || not (a.attempt.errno == einprogress)
            then direct found
            else connect_wait here info fd timeout a (record found { errno = a.attempt.errno })
      ]

-- s_connect_timeout, as the initialiser of the library sets it
abbrev pub connect_timeout : ℤ
connect_timeout = pos 3000

unfoldable pub connect : Kernel → ℕ → Here → ℕ → ℤ → ConnectAnswers → World → Result (ℤ × World)
connect k p here info fd a w = connect_with_timeout k p here info fd connect_timeout a w

-- close: `epoll` says whether epoll_ctl succeeds in cancalAll, and `wrote` whether tickle can write to
-- the pipe; `a` is what close_f answers.
unfoldable pub close : Kernel → ℕ → Here → Bool → Bool → ℤ → Attempt → World → Result (ℤ × World)
close k p here epoll wrote fd a w =
    let done = λ (v : World). ok (a.value, record v { errno = a.errno }) in
    if not w.enabled then done w else do
      (ctx, found) ← get_ctx k p fd false w
      if not (is_some ctx) then done found else do
        (cancelled, io) ←
            (if here.has_iom
              then cancel_all epoll wrote fd found.loop.io
              else ok (false, found.loop.io))
        fds ← del fd found.fds
        done (record found { fds = fds; loop = record found.loop { io = io } })
