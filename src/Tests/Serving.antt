-- ===== src/Tests/Serving.antt =====
-- The echo server with a connection on the descriptor 5, and its listening socket on 3.
use my_coroutine.Common.{none, set, ◌≡◌, refl, true, false, some, [], ◌∷◌, ◌++◌, ◌≤◌, length, arith}
use my_coroutine.Common.Int.{pos}
use my_coroutine.IoManager.{IoManager, io_manager, one_more}
use my_coroutine.IoManager.FdContexts.{read, with_event, new_context}
use my_coroutine.IoManager.Validity.{Valid}
use my_coroutine.IoManager.Initial.{io_manager-Valid}
use my_coroutine.Hook.{Here, eagain, minus_one}
use my_coroutine.Server.{
  Server, Connection, Turn, AcceptAnswers, SocketAnswers, test_accept_cb, echo, echo_loop,
  new_connection, zeros,
}
use my_coroutine.Server.Echo.{drop, echo_lem, eof_ignored}
use my_coroutine.Server.Listening.{reading}
use my_coroutine.IoManager.Register.{add_event_registers}
use my_coroutine.Common.Family.{update}
use my_coroutine.Tests.Events.{caller, not_none}
use my_coroutine.Tests.Rounds.{idle_loop}

abbrev here : Here
here = record { has_iom = true; caller = caller }

abbrev server : Server
server = record { listen_fd = pos 3; loop = idle_loop }

abbrev accepts : AcceptAnswers
accepts = record { fd = pos 5; epoll = true; wrote = true }

-- The manager with the listening socket registered.
abbrev listening_io : IoManager
listening_io = record io_manager {
  contexts = set io_manager.contexts 3 (reading here test_accept_cb (new_context 3));
  watched = update io_manager.watched 3 (with_event read (new_context 3).events);
  pending = one_more io_manager.pending;
}

listening-Valid : Valid listening_io
unfolding io_manager
listening-Valid =
    (add_event_registers 3 io_manager io_manager-Valid {c = new_context 3} refl caller read
      (some test_accept_cb)
      (record { scheduler = caller.scheduler; fiber = none; cb = some test_accept_cb }) not_none
      refl refl refl).1

abbrev sockets : SocketAnswers
sockets = record { socket = pos 3; bind = pos 0; listen = pos 0; epoll = true }

-- The server once it listens
abbrev listening : Server
listening = record server { loop = record idle_loop { io = listening_io } }

-- A new connection, and a message of one byte.
abbrev connection : Connection
connection = new_connection 0

abbrev byte : Turn
byte = record {
  read_answer = record { value = pos 1; errno = 0 };
  data_read = 1 ∷ [];
  write_answer = record { value = pos 1024; errno = 0 };
}

one_fits : 1 ≤ length connection.buffer
unfolding zeros
one_fits = omega arith

echo_lem_example :
    let message = byte.data_read ++ drop 1 connection.buffer in
    ((echo byte connection).1.sent ≡ connection.sent ++ message ∷ [])
    × (length message ≡ length connection.buffer)
    × ((echo byte connection).1.buffer ≡ message)
    × ((echo byte connection).0 ≡ byte.write_answer.value)
echo_lem_example = echo_lem byte connection 0 refl refl one_fits

abbrev blocked : Turn
blocked = record byte { read_answer = record { value = minus_one; errno = eagain } }

abbrev at_end : Turn
at_end = record byte { read_answer = record { value = pos 0; errno = 0 } }

eof_ignored_example :
    echo_loop (blocked ∷ at_end ∷ at_end ∷ []) connection
    ≡ (false, record connection { errno = eagain })
eof_ignored_example =
    eof_ignored blocked (at_end ∷ at_end ∷ []) connection refl refl (refl, (refl, tt))
