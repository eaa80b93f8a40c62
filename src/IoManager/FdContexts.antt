-- ===== src/IoManager/FdContexts.antt =====
-- IOManager::Event and FdContext (IOManager.h), and the methods of FdContext (IOManager.cpp). A set
-- of events, an int with the bits READ and WRITE, is a record of the two bits.
use my_coroutine.Common.{
  ℕ, ◌+◌, Bool, true, false, ◌||◌, Option, none, some, is_some, count_true, if◌then◌else◌, Result,
  ok, err, assertion, null_pointer, guard, ◌>>=◌, ◌>>◌,
}
use my_coroutine.Callback.{Callback}
use my_coroutine.Scheduler.{ScheduleTask, any_thread, cb_task, fiber_task}

-- NONE = 0, READ = 1, WRITE = 4
pub data Event : Type 0 where
  none_event read write : Event

pub record Events : Type 0 where
  pub reads : Bool
  pub writes : Bool

abbrev pub no_events : Events
no_events = record { reads = false; writes = false }

-- events & event, as a condition
abbrev pub has : Event → Events → Bool
has none_event es = false
has read es = es.reads
has write es = es.writes

-- events | event
abbrev pub with_event : Event → Events → Events
with_event none_event es = es
with_event read es = record es { reads = true }
with_event write es = record es { writes = true }

-- events & ~event
abbrev pub without : Event → Events → Events
without none_event es = es
without read es = record es { reads = false }
without write es = record es { writes = false }

-- The set as a condition.
abbrev pub is_any : Events → Bool
is_any es = es.reads || es.writes

-- How many events are in the set.
abbrev pub size : Events → ℕ
size es = count_true es.reads + count_true es.writes

pub record EventContext : Type 0 where
  pub scheduler : Option ℕ
  pub fiber : Option ℕ
  pub cb : Option Callback

-- EventContext(), and what resetEventContext makes of one
abbrev pub no_context : EventContext
no_context = record { scheduler = none; fiber = none; cb = none }

pub record FdContext : Type 0 where
  pub read_ctx : EventContext
  pub write_ctx : EventContext
  pub fd : ℕ
  pub events : Events

-- new FdContext, with `fd = i`
abbrev pub new_context : ℕ → FdContext
new_context i = record { read_ctx = no_context; write_ctx = no_context; fd = i; events = no_events }

-- getEventContext: any event but the two stops the program.
unfoldable pub get_event_context : Event → FdContext → Result EventContext
get_event_context none_event c = err assertion
get_event_context read c = ok c.read_ctx
get_event_context write c = ok c.write_ctx

-- A write through the reference that getEventContext returns.
abbrev pub set_event_context : Event → EventContext → FdContext → FdContext
set_event_context none_event ctx c = c
set_event_context read ctx c = record c { read_ctx = ctx }
set_event_context write ctx c = record c { write_ctx = ctx }

-- resetEventContext, on the context of an event
abbrev pub reset_event_context : Event → FdContext → FdContext
reset_event_context event c = set_event_context event no_context c

-- The task that triggerEvent schedules.
abbrev pub event_task : EventContext → ScheduleTask
event_task ctx =
    if is_some ctx.cb then cb_task ctx.cb any_thread else fiber_task ctx.fiber any_thread

-- triggerEvent: the scheduler that is called and the task that it gets, and the context after it. A
-- null scheduler is called through. `wrote` says that the tickle of schedule, where it makes one, can
-- write to the pipe: else its assertion stops the program.
unfoldable pub trigger_event : Bool → Event → FdContext → Result (ℕ × ScheduleTask × FdContext)
unfolding get_event_context
trigger_event wrote event c = do
  guard (has event c.events)
  ctx ← get_event_context event c
  elim ctx.scheduler [
    | none ↦ err null_pointer
    | some s ↦ do
      guard wrote
      ok (
        s,
        event_task ctx,
        reset_event_context event (record c { events = without event c.events }),
      )
  ]
