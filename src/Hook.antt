-- ===== src/Hook.antt =====
-- Hook.h and Hook.cpp: the system calls that the library puts in the place of the originals. The
-- originals are the operating system's: what they answer is an argument.
pub mod Io
pub mod Calls
pub mod Flags
pub mod Originals
pub mod Lookup
pub mod Waits
pub mod Blocking
pub mod Direct
pub mod Arming
pub mod Timeouts
pub mod Options
pub mod Sockets
pub mod Connecting
pub mod Sleeping
pub mod Awake
pub mod Unhandled
use my_coroutine.Common.{
  ℕ, ◌+◌, Bool, true, false, not, ◌&&◌, ◌||◌, Option, none, some, List, [], ◌∷◌, ◌==◌, is_some,
  if◌then◌else◌, Result, ok, err, null_pointer, ◌>>=◌, ◌>>◌,
}
use my_coroutine.Common.Int.{ℤ, pos, negsuc, eqb_ℤ}
use my_coroutine.Common.Family.{update}
use my_coroutine.Callback.{Callback, io_timeout}
use my_coroutine.Timer.{TimerManager, add_condition_timer, cancel}
use my_coroutine.FdManager.{FdManager, get}
use my_coroutine.FdManager.Context.{Kernel, FdCtx, unlimited, get_timeout}
use my_coroutine.IoManager.{IoManager, Caller, add_event, cancel_event}
use my_coroutine.IoManager.FdContexts.{Event, none_event, read, write}
use my_coroutine.IoManager.Idle.{Loop, tickle}

abbrev pub eintr : ℕ
eintr = 4

abbrev pub ebadf : ℕ
ebadf = 9

abbrev pub eagain : ℕ
eagain = 11

abbrev pub etimedout : ℕ
etimedout = 110

abbrev pub einprogress : ℕ
einprogress = 115

-- `enabled` is t_hook_enable of the thread; `infos` holds the member `cancelled` of the timer_info at
-- each address; `loop` is the IOManager.
pub record World : Type 0 where
  pub enabled : Bool
  pub fds : FdManager
  pub loop : Loop
  pub infos : ℕ → ℕ
  pub errno : ℕ

-- is_hook_enable, set_hook_enable
unfoldable pub is_hook_enable : World → Bool
is_hook_enable w = w.enabled

unfoldable pub set_hook_enable : Bool → World → World
set_hook_enable flag w = record w { enabled = flag }

-- What a hooked call knows of its caller: whether IOManager::GetThis() is not null, and what addEvent
-- asks.
pub record Here : Type 0 where
  pub has_iom : Bool
  pub caller : Caller

-- What an original function returns, and errno after it.
pub record Attempt : Type 0 where
  pub value : ℤ
  pub errno : ℕ

abbrev pub minus_one : ℤ
minus_one = negsuc 0

abbrev pub fails_with : ℕ → Attempt → Bool
fails_with e a = eqb_ℤ a.value minus_one && (a.errno == e)

-- The numbers of the events, and back: READ = 1, WRITE = 4.
abbrev pub event_value : Event → ℕ
event_value none_event = 0
event_value read = 1
event_value write = 4

abbrev pub event_of : ℕ → Event
event_of n = if n == 1 then read else if n == 4 then write else none_event

-- FdMgr::GetInstance()->get(fd, auto_create); a new context gets the address `p`.
unfoldable pub get_ctx : Kernel → ℕ → ℤ → Bool → World → Result (Option FdCtx × World)
get_ctx k p fd auto_create w = do
  (entry, fds) ← get k p fd auto_create w.fds
  let found = record w { fds = fds }
  ok (elim entry [ none ↦ none | some q ↦ some (fds.heap q) ], found)

-- The answers of the system around one wait for an event: the address of the new timer, the clock,
-- whether `write` to the pipe and epoll_ctl succeed, and `after`, what happens between the yield of
-- the fiber and its next resume.
pub record Wait : Type 0 where
  pub timer : ℕ
  pub now : ℤ
  pub wrote : Bool
  pub epoll : Bool
  pub after : World → World

-- if(to != -1) timer = iom->addConditionTimer(to, ..., winfo): the timer, if there is one
unfoldable pub arm : ℕ → ℤ → Event → ℤ → Wait → World → Result (Option ℕ × World)
arm info fd event to a w =
    let (at_front, timers) =
      add_condition_timer a.timer to (io_timeout info fd (event_value event)) info false a.now
        w.loop.timers in
    let armed = record w.loop { timers = timers } in
    if eqb_ℤ to unlimited then ok (none, w) else do
      loop ← (if at_front then tickle a.wrote armed else ok armed)
      ok (some a.timer, record w { loop = loop })

-- iom->addEvent(fd, event): whether it returns 0
unfoldable pub add_io_event : Here → ℤ → Event → Wait → World → Result (Bool × World)
add_io_event here fd event a w = do
  (added, io) ← add_event a.epoll here.caller fd event none w.loop.io
  ok (added, record w { loop = record w.loop { io = io } })

-- if(timer) timer->cancel();
unfoldable pub disarm : Option ℕ → World → Result World
disarm none w = ok w
disarm (some t) w = do
  (done, timers) ← cancel t w.loop.timers
  ok (record w { loop = record w.loop { timers = timers } })

-- From the timer on: add the event, yield, and cancel the timer. The flag says whether the event was
-- added.
unfoldable pub wait_event : Here → ℕ → ℤ → Event → ℤ → Wait → World → Result (Bool × World)
wait_event here info fd event to a w = if not here.has_iom then err null_pointer else do
  (timer, armed) ← arm info fd event to a w
  (added, waiting) ← add_io_event here fd event a armed
  rest ← disarm timer (if added then a.after waiting else waiting)
  ok (added, rest)

-- The closure of the timer: `alive` says whether the weak pointer can be locked.
unfoldable pub on_io_timeout : Bool → Bool → Bool → ℕ → ℤ → Event → World → Result World
on_io_timeout alive epoll wrote info fd event w =
    if not alive || not (w.infos info == 0) then ok w else do
      (done, io) ← cancel_event epoll wrote fd event w.loop.io
      ok (record w { infos = update w.infos info etimedout; loop = record w.loop { io = io } })
