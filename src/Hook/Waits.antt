-- ===== src/Hook/Waits.antt =====
-- The wait of a hooked call for its event (Hook.cpp), in a thread whose scheduler is an IOManager.
use my_coroutine.Common.{ℕ, ◌≡◌, ◌≢◌, refl, true, false, none, some, arith, get_elem?, set, ok}
use my_coroutine.Common.Int.{pos}
use my_coroutine.Common.Family.{update}
use my_coroutine.FdManager.Context.{unlimited}
use my_coroutine.IoManager.{one_more, filled}
use my_coroutine.IoManager.FdContexts.{Event, none_event, has, with_event, EventContext, FdContext}
use my_coroutine.IoManager.Validity.{Valid}
use my_coroutine.IoManager.Register.{added, add_event_registers}
use my_coroutine.Hook.{World, Here, Wait, arm, add_io_event, disarm, wait_event}

-- The caller runs in a fiber of the scheduler `s`, which is an IOManager.
pub record IsInside (here : Here) (s : ℕ) : Type 0 where
  pub iom : here.has_iom ≡ true
  pub scheduler : here.caller.scheduler ≡ some s
  pub runs : here.caller.fiber_running ≡ true

-- The event context of the caller's own fiber.
abbrev pub own_context : Here → EventContext
own_context here = record {
  scheduler = here.caller.scheduler;
  fiber = some here.caller.fiber;
  cb = none;
}

-- The descriptor `n` has the context `c`, where the event is not registered.
pub record IsFree (n : ℕ) (event : Event) (c : FdContext) (w : World) : Type 0 where
  pub valid : Valid w.loop.io
  pub context : get_elem? w.loop.io.contexts n ≡ some c
  pub free : has event c.events ≡ false

-- The world at the yield: the event is registered for the caller's fiber.
abbrev pub registered_world : Here → ℕ → Event → FdContext → World → World
registered_world here n event c w = record w {
  loop = record w.loop {
    io = record w.loop.io {
      contexts = set w.loop.io.contexts n (added event (own_context here) c);
      watched = update w.loop.io.watched n (with_event event c.events);
      pending = one_more w.loop.io.pending;
    };
  };
}

module _ (here : Here) (s n : ℕ) (event : Event) (c : FdContext) (w : World)
    (inside : IsInside here s) (some_event : event ≢ none_event) (f : IsFree n event c w) where
  filled_own : filled here.caller none ≡ ok (own_context here)
  filled_own = ground (arith, inside.runs)

  pub registered_world-Valid : Valid (registered_world here n event c w).loop.io
  registered_world-Valid =
      (add_event_registers n w.loop.io f.valid f.context here.caller event none (own_context here)
        some_event f.free filled_own (ground (arith, inside.scheduler))).1

  pub add_io_event_registers :
      (a : Wait)
      → a.epoll ≡ true
      → add_io_event here (pos n) event a w ≡ ok (true, registered_world here n event c w)
  unfolding add_io_event
  add_io_event_registers a e =
      let (r, v) =
        add_event_registers n w.loop.io f.valid f.context here.caller event none (own_context here)
          some_event f.free filled_own (ground (arith, inside.scheduler)) in
      rw (add_io_event, e, r) refl

  -- Without a timeout the wait registers the event, yields, and returns what is then.
  pub wait_event-unlimited :
      (info : ℕ) (a : Wait)
      → a.epoll ≡ true
      → wait_event here info (pos n) event unlimited a w
        ≡ ok (true, a.after (registered_world here n event c w))
  unfolding wait_event arm disarm
  wait_event-unlimited info a e = rw (wait_event, add_io_event_registers a e, inside.iom) refl
