-- ===== src/Hook/Flags.antt =====
-- fcntl, ioctl, getsockopt and setsockopt of Hook.cpp. The flags of a descriptor are an int with the
-- bit O_NONBLOCK and 31 others.
use my_coroutine.Common.{
  ℕ, ◌+◌, ◌*◌, ◌/◌, Bool, true, false, not, ◌||◌, Option, none, some, ◌==◌, if◌then◌else◌, Result,
  ok, ◌>>=◌,
}
use my_coroutine.Common.Int.{ℤ, pos}
use my_coroutine.FdManager
use my_coroutine.FdManager.{get}
use my_coroutine.FdManager.Context.{
  Kernel, FdCtx, set_timeout, set_user_no_block, so_recvtimeo, so_sendtimeo,
}
use my_coroutine.Hook.{World}

-- `others` is the number that the other bits make.
pub record Flags : Type 0 where
  pub nonblock : Bool
  pub others : ℕ

-- -1 as an int: every bit is set.
abbrev pub all_bits : Flags
all_bits = record { nonblock = true; others = 4294965247 }

-- The commands of fcntl, by the branch that they take, with the argument that is passed on: F_SETFL,
-- F_GETFL, those with an int, with none, with a lock or an owner, and any other.
pub data Command : Type 0 where
  set_flags : Flags → Command
  get_flags : Command
  with_int : ℕ → Command
  without_argument : Command
  with_pointer : ℕ → Command
  other_command : Command

-- The argument that a call of fcntl_f gets.
pub data Argument : Type 0 where
  flags_argument : Flags → Argument
  int_argument pointer_argument : ℕ → Argument
  no_argument : Argument

-- The context of a descriptor with its address, where it is that of a socket that is not closed.
unfoldable pub socket_ctx : Kernel → ℕ → ℤ → World → Result (Option (ℕ × FdCtx) × World)
socket_ctx k p fd w = do
  (entry, fds) ← get k p fd false w.fds
  let found = record w { fds = fds }
  ok (
    elim entry [
      | none ↦ none
      | some q ↦
          if (fds.heap q).is_closed || not (fds.heap q).is_socket
          then none
          else some (q, fds.heap q)
    ],
    found,
  )

-- A write to the context at an address.
abbrev pub put_ctx : ℕ → FdCtx → World → World
put_ctx q c w = record w { fds = record w.fds { heap = FdManager.put w.fds.heap q c } }

-- fcntl: `answer` is what fcntl_f returns for an argument. The result, the argument that fcntl_f got,
-- and the world.
unfoldable pub fcntl :
    Kernel → ℕ → ℤ → (Argument → Flags) → Command → World → Result (Flags × Argument × World)
fcntl k p fd answer (set_flags arg) w = do
  (ctx, found) ← socket_ctx k p fd w
  elim ctx [
    | none ↦ ok (answer (flags_argument arg), flags_argument arg, found)
    | some (q, c) ↦
        let passed = flags_argument (record arg { nonblock = c.sys_no_block }) in
        ok (answer passed, passed, put_ctx q (set_user_no_block arg.nonblock c) found)
  ]
fcntl k p fd answer get_flags w = do
  (ctx, found) ← socket_ctx k p fd w
  elim ctx [
    | none ↦ ok (answer no_argument, no_argument, found)
    | some (q, c) ↦
        ok (record (answer no_argument) { nonblock = c.user_no_block }, no_argument, found)
  ]
fcntl k p fd answer (with_int n) w = ok (answer (int_argument n), int_argument n, w)
fcntl k p fd answer without_argument w = ok (answer no_argument, no_argument, w)
fcntl k p fd answer (with_pointer n) w = ok (answer (pointer_argument n), pointer_argument n, w)
fcntl k p fd answer other_command w = ok (answer no_argument, no_argument, w)

-- ioctl: `request` is none but for FIONBIO, where it is the int that is pointed to. ioctl_f is called
-- with the same arguments on every branch, and `answer` is what it returns.
unfoldable pub ioctl : Kernel → ℕ → ℤ → ℤ → Option ℕ → World → Result (ℤ × World)
ioctl k p fd answer none w = ok (answer, w)
ioctl k p fd answer (some n) w = do
  (ctx, found) ← socket_ctx k p fd w
  elim ctx [
    | none ↦ ok (answer, found)
    | some (q, c) ↦ ok (answer, put_ctx q (set_user_no_block (not (n == 0)) c) found)
  ]

-- getsockopt
unfoldable pub getsockopt : ℤ → World → ℤ × World
getsockopt answer w = (answer, w)

pub record Timeval : Type 0 where
  pub seconds : ℕ
  pub microseconds : ℕ

-- v->tv_sec * 1000 + v->tv_usec / 1000
abbrev pub timeout_ms : Timeval → ℤ
timeout_ms v = pos (v.seconds * 1000 + v.microseconds / 1000)

-- setsockopt: `option` is the name of the option at the level SOL_SOCKET with the time that is pointed
-- to, none at another level. `answer` is what setsockopt_f returns.
unfoldable pub setsockopt : Kernel → ℕ → ℤ → ℤ → Option (ℕ × Timeval) → World → Result (ℤ × World)
setsockopt k p fd answer none w = ok (answer, w)
setsockopt k p fd answer (some (name, v)) w =
    if not w.enabled || not (name == so_recvtimeo || name == so_sendtimeo)
    then ok (answer, w)
    else do
      (entry, fds) ← get k p fd false w.fds
      let found = record w { fds = fds }
      ok (
        answer,
        elim entry [
          | none ↦ found
          | some q ↦ put_ctx q (set_timeout name (timeout_ms v) (fds.heap q)) found
        ],
      )
