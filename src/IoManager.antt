-- ===== src/IoManager.antt =====
-- IOManager.h and IOManager.cpp: the event contexts of the file descriptors and the operations on
-- them. `m_fdContexts` holds one context for each index and they do not move, so a pointer to a
-- context is its index. The kernel's answers and the current scheduler and fiber are arguments.
pub mod FdContexts
pub mod Validity
pub mod Register
pub mod Initial
pub mod Idle
pub mod Setup
pub mod Cancel
pub mod Firing
pub mod Drain
pub mod Waiters
pub mod Preserved
pub mod Bits
pub mod Teardown
use my_coroutine.Common.{
  ℕ, zero, suc, ◌+◌, ◌-◌, ◌/◌, ◌%◌, ◌^◌, Bool, true, false, not, ◌&&◌, ◌||◌, Option, none, some,
  List, [], ◌∷◌, ◌++◌, ◌==◌, leb, ltb, is_some, if◌then◌else◌, length, get_elem?, set, Result, ok,
  err, assertion, out_of_bounds, guard, ◌>>=◌, ◌>>◌,
}
use my_coroutine.Common.Int.{ℤ, pos, negsuc, eqb_ℤ, ltb_ℤ}
use my_coroutine.Common.Family.{update}
use my_coroutine.Callback.{Callback}
use my_coroutine.Scheduler.{Scheduler, ScheduleTask, has_idle_threads}
use my_coroutine.Scheduler
use my_coroutine.Timer.{TimerManager, no_timer, get_next_timer}
use FdContexts.{
  Event, read, write, Events, no_events, has, with_event, without, is_any, EventContext, FdContext,
  new_context, get_event_context, set_event_context, reset_event_context, trigger_event,
}

-- `watched` is what epoll was last told to watch for each context; `pending` is
-- m_pendingEventCount; `scheduled` lists the tasks handed to schedulers, oldest first.
pub record IoManager : Type 0 where
  pub contexts : List FdContext
  pub watched : ℕ → Events
  pub pending : ℕ
  pub scheduled : List (ℕ × ScheduleTask)

-- ++m_pendingEventCount and --m_pendingEventCount, on a 64-bit size_t
abbrev pub one_more : ℕ → ℕ
one_more n = (n + 1) % 2 ^ 64

abbrev pub one_less : ℕ → ℕ
one_less n = (n + (2 ^ 64 - 1)) % 2 ^ 64

-- The contexts from the index `i` on after contextResize: the first `n` stay, and are filled up.
unfoldable pub resize_from : ℕ → ℕ → List FdContext → List FdContext
resize_from i zero cs = []
resize_from i (suc n) [] = new_context i ∷ resize_from (suc i) n []
resize_from i (suc n) (c ∷ cs) = c ∷ resize_from (suc i) n cs

-- contextResize
unfoldable pub context_resize : ℕ → IoManager → IoManager
unfolding resize_from
context_resize size m = record m { contexts = resize_from 0 size m.contexts }

-- IOManager(): no event is registered, and there are 32 contexts.
unfoldable pub io_manager : IoManager
unfolding context_resize
io_manager =
    context_resize 32
      (record { contexts = []; watched = λ _. no_events; pending = 0; scheduled = [] })

-- fd + fd > 1, as the size that it is passed for
abbrev pub grown_size : ℕ → ℕ
grown_size fd = if ltb 1 (fd + fd) then 1 else 0

-- What addEvent knows of its caller: Scheduler::GetThis(), Fiber::GetThis() and whether that fiber
-- is in the state RUNNING.
pub record Caller : Type 0 where
  pub scheduler : Option ℕ
  pub fiber : ℕ
  pub fiber_running : Bool

abbrev pub is_blank : EventContext → Bool
is_blank ctx = not (is_some ctx.scheduler) && not (is_some ctx.fiber) && not (is_some ctx.cb)

-- The event context that addEvent fills in: the callback, or the current fiber, which has to run.
abbrev pub filled : Caller → Option Callback → Result EventContext
filled caller none = do
  guard caller.fiber_running
  ok (record { scheduler = caller.scheduler; fiber = some caller.fiber; cb = none })
filled caller (some cb) = ok (record { scheduler = caller.scheduler; fiber = none; cb = some cb })

-- addEvent from the context on. `epoll` says whether epoll_ctl succeeds; the value is whether
-- addEvent returns 0.
unfoldable pub register :
    Bool → Caller → ℕ → Event → Option Callback → FdContext → IoManager → Result (Bool × IoManager)
unfolding get_event_context
register epoll caller n event cb c m = do
  guard (not (has event c.events))
  if not epoll then ok (false, m) else do
    old ← get_event_context event c
    guard (is_blank old)
    ctx ← filled caller cb
    let added = record c { events = with_event event c.events }
    ok (
      true,
      record m {
        contexts = set m.contexts n (set_event_context event ctx added);
        watched = update m.watched n (with_event event c.events);
        pending = one_more m.pending;
      },
    )

-- The contexts that addEvent works on: beyond the vector it is resized, to what `fd + fd > 1` is as a
-- number.
unfoldable pub grown : ℕ → IoManager → IoManager
unfolding context_resize
grown n m = if ltb n (length m.contexts) then m else context_resize (grown_size n) m

-- addEvent. A negative index is out of bounds.
unfoldable pub add_event :
    Bool → Caller → ℤ → Event → Option Callback → IoManager → Result (Bool × IoManager)
unfolding register grown
add_event epoll caller (negsuc n) event cb m = err out_of_bounds
add_event epoll caller (pos n) event cb m = elim (get_elem? (grown n m).contexts n) [
  | none ↦ err out_of_bounds
  | some c ↦ register epoll caller n event cb c (grown n m)
]

-- The context of a descriptor, for the operations that do nothing beyond the vector. A negative
-- descriptor is a large number there.
abbrev pub context_of : ℤ → IoManager → Option (ℕ × FdContext)
context_of (negsuc n) m = none
context_of (pos n) m = elim (get_elem? m.contexts n) [ none ↦ none | some c ↦ some (n, c) ]

-- delEvent: its value and the manager
unfoldable pub del_event : Bool → ℤ → Event → IoManager → Result (Bool × IoManager)
unfolding get_event_context
del_event epoll fd event m = elim (context_of fd m) [
  | none ↦ ok (false, m)
  | some (n, c) ↦ if not (has event c.events) || not epoll then ok (false, m) else do
    old ← get_event_context event c
    let left = record c { events = without event c.events }
    ok (
      true,
      record m {
        contexts = set m.contexts n (reset_event_context event left);
        watched = update m.watched n (without event c.events);
        pending = one_less m.pending;
      },
    )
]

-- triggerEvent on the context with index `n`, and --m_pendingEventCount
unfoldable pub fire : Bool → ℕ → Event → FdContext → IoManager → Result (FdContext × IoManager)
unfolding trigger_event
fire wrote n event c m = do
  (s, task, after) ← trigger_event wrote event c
  ok (
    after,
    record m {
      contexts = set m.contexts n after;
      pending = one_less m.pending;
      scheduled = m.scheduled ++ (s, task) ∷ [];
    },
  )

-- cancelEvent
unfoldable pub cancel_event : Bool → Bool → ℤ → Event → IoManager → Result (Bool × IoManager)
unfolding fire
cancel_event epoll wrote fd event m = elim (context_of fd m) [
  | none ↦ ok (false, m)
  | some (n, c) ↦ if not (has event c.events) || not epoll then ok (false, m) else do
    (after, fired) ←
        fire wrote n event c (record m { watched = update m.watched n (without event c.events) })
    ok (true, fired)
]

-- if(events & event) { triggerEvent(event); --m_pendingEventCount; }
unfoldable pub fire_if :
    Bool → Bool → ℕ → Event → FdContext → IoManager → Result (FdContext × IoManager)
unfolding fire
fire_if wrote test n event c m = if test then fire wrote n event c m else ok (c, m)

-- cancalAll
unfoldable pub cancel_all : Bool → Bool → ℤ → IoManager → Result (Bool × IoManager)
unfolding fire_if
cancel_all epoll wrote fd m = elim (context_of fd m) [
  | none ↦ ok (false, m)
  | some (n, c) ↦ if not (is_any c.events) || not epoll then ok (false, m) else do
    (read_done, after_read) ←
        fire_if wrote (has read c.events) n read c
          (record m { watched = update m.watched n no_events })
    (write_done, after_write) ←
        fire_if wrote (has write read_done.events) n write read_done after_read
    guard (not (is_any write_done.events))
    ok (true, after_write)
]

-- An epoll_event for a context: EPOLLIN, EPOLLOUT, and EPOLLERR or EPOLLHUP.
pub record EpollEvent : Type 0 where
  pub index : ℕ
  pub epoll_in : Bool
  pub epoll_out : Bool
  pub err_or_hup : Bool

-- real_events of the loop in `idle`
abbrev pub real_events : EpollEvent → Events → Events
real_events e events = record {
  reads = e.epoll_in || (e.err_or_hup && events.reads);
  writes = e.epoll_out || (e.err_or_hup && events.writes);
}

abbrev pub meets : Events → Events → Bool
meets a b = (a.reads && b.reads) || (a.writes && b.writes)

abbrev pub minus : Events → Events → Events
minus a b = record { reads = a.reads && not b.reads; writes = a.writes && not b.writes }

-- The body of the loop over the epoll events in `idle`, for an event that is not the pipe's.
unfoldable pub handle_event : Bool → Bool → EpollEvent → IoManager → Result IoManager
unfolding fire_if
handle_event epoll wrote e m = elim (get_elem? m.contexts e.index) [
  | none ↦ err out_of_bounds
  | some c ↦
      let real = real_events e c.events in
      if not (meets c.events real) then ok m else do
        guard epoll
        (read_done, after_read) ←
            fire_if wrote real.reads e.index read c
              (record m { watched = update m.watched e.index (minus c.events real) })
        (write_done, after_write) ← fire_if wrote real.writes e.index write read_done after_read
        ok after_write
]
