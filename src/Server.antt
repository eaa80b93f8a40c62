-- ===== src/Server.antt =====
-- server.cpp: an echo server on an IOManager. Its functions are callbacks of the client. What the socket
-- calls answer is an argument: they are taken as the system's, not the hooked ones, since server.cpp
-- leaves Hook.h out, and what fcntl and setsockopt set is kept in the kernel.
pub mod Echo
pub mod Listening
pub mod Main
use my_coroutine.Common.{
  ℕ, zero, suc, ◌+◌, Bool, true, false, not, ◌&&◌, Option, none, some, List, [], ◌∷◌, ◌++◌, ◌==◌,
  if◌then◌else◌, Result, ok, err, null_pointer, ◌>>=◌,
}
use my_coroutine.Common.Int.{ℤ, pos, negsuc, ltb_ℤ, leb_ℤ, eqb_ℤ}
use my_coroutine.Callback.{Callback, user}
use my_coroutine.Scheduler.{cb_task, any_thread}
use my_coroutine.IoManager.{add_event}
use my_coroutine.IoManager.FdContexts.{read}
use my_coroutine.IoManager.Idle.{Loop, schedule}
use my_coroutine.Hook.{Here, Attempt, eagain, minus_one}

-- The callbacks: test_accept, watch_io_read, test_IOmanager, and the closure for a connection `fd`.
abbrev pub test_accept_cb : Callback
test_accept_cb = user 0

abbrev pub watch_io_read_cb : Callback
watch_io_read_cb = user 1

abbrev pub test_io_manager_cb : Callback
test_io_manager_cb = user 2

abbrev pub connection_cb : ℕ → Callback
connection_cb fd = user (3 + fd)

-- sock_listen_fd, and the IOManager
pub record Server : Type 0 where
  pub listen_fd : ℤ
  pub loop : Loop

-- IOManager::GetThis()->addEvent(fd, READ, cb), whose result is not looked at
unfoldable pub add_read : Bool → Here → ℤ → Callback → Server → Result Server
add_read epoll here fd cb s = if not here.has_iom then err null_pointer else do
  (done, io) ← add_event epoll here.caller fd read (some cb) s.loop.io
  ok (record s { loop = record s.loop { io = io } })

unfoldable pub watch_io_read : Bool → Here → Server → Result Server
unfolding add_read
watch_io_read epoll here s = add_read epoll here s.listen_fd test_accept_cb s

-- What accept returns, and whether epoll_ctl and the `write` of tickle succeed.
pub record AcceptAnswers : Type 0 where
  pub fd : ℤ
  pub epoll : Bool
  pub wrote : Bool

-- The closure for the connection that accept returns
abbrev pub closure_for : ℤ → Callback
closure_for (pos fd) = connection_cb fd
closure_for (negsuc _) = connection_cb 0

unfoldable pub test_accept : AcceptAnswers → Here → Server → Result Server
unfolding add_read
test_accept a here s = do
  watched ← (if ltb_ℤ a.fd (pos 0) then ok s else add_read a.epoll here a.fd (closure_for a.fd) s)
  if not here.has_iom then err null_pointer else do
    loop ← schedule a.wrote (cb_task (some watch_io_read_cb) any_thread) watched.loop
    ok (record watched { loop = loop })

-- What socket, bind and listen return in test_IOmanager, and whether epoll_ctl succeeds.
pub record SocketAnswers : Type 0 where
  pub socket : ℤ
  pub bind : ℤ
  pub listen : ℤ
  pub epoll : Bool

-- test_IOmanager: `none` where it calls exit
unfoldable pub test_io_manager : SocketAnswers → Here → Server → Result (Option Server)
unfolding add_read
test_io_manager a here s =
    if ltb_ℤ a.socket (pos 0)
    then ok none
    else if ltb_ℤ a.bind (pos 0)
    then ok none
    else if eqb_ℤ a.listen minus_one
    then ok none
    else do
      listening ← add_read a.epoll here a.socket test_accept_cb (record s { listen_fd = a.socket })
      ok (some listening)

-- The variables of the closure: the buffer, and errno; `sent` is what `write` has been given.
pub record Connection : Type 0 where
  pub buffer : List ℕ
  pub sent : List (List ℕ)
  pub errno : ℕ

-- char buffer[1024], of zeros
unfoldable pub zeros : ℕ → List ℕ
zeros zero = []
zeros (suc n) = 0 ∷ zeros n

abbrev pub new_connection : ℕ → Connection
new_connection errno = record { buffer = zeros 1024; sent = []; errno = errno }

-- What `read` and `write` answer in a turn of the loop; `data` is what `read` has put into the buffer.
pub record Turn : Type 0 where
  pub read_answer : Attempt
  pub data_read : List ℕ
  pub write_answer : Attempt

-- The buffer after bytes have been put at its start.
unfoldable pub overwrite : List ℕ → List ℕ → List ℕ
overwrite [] buffer = buffer
overwrite (x ∷ xs) [] = []
overwrite (x ∷ xs) (_ ∷ buffer) = x ∷ overwrite xs buffer

-- errno after a call: one that succeeds leaves it as it was, as read and write do on Linux.
abbrev pub errno_after : Attempt → ℕ → ℕ
errno_after a errno = if ltb_ℤ a.value (pos 0) then a.errno else errno

-- The `if(ret > 0)` of a turn: `ret`, and the variables
unfoldable pub echo : Turn → Connection → ℤ × Connection
unfolding overwrite
echo a c =
    let after_read = errno_after a.read_answer c.errno in
    if ltb_ℤ (pos 0) a.read_answer.value
    then (
      a.write_answer.value,
      record {
        buffer = overwrite a.data_read c.buffer;
        sent = c.sent ++ overwrite a.data_read c.buffer ∷ [];
        errno = errno_after a.write_answer after_read;
      },
    )
    else (a.read_answer.value, record c { errno = after_read })

-- The loop of the closure, as far as the answers go: whether it has closed the descriptor.
unfoldable pub echo_loop : List Turn → Connection → Bool × Connection
unfolding echo
echo_loop [] c = (false, c)
echo_loop (a ∷ turns) c =
    let (ret, next) = echo a c in
    let rest = echo_loop turns next in
    if leb_ℤ ret (pos 0) && not (next.errno == eagain) then (true, next) else rest
