-- ===== src/Hook/Unhandled.antt =====
-- A hooked call without a timeout, and the idle fiber that should wake it.
use my_coroutine.Common.{
  ℕ, ◌<◌, ◌≡◌, ◌≢◌, refl, true, false, some, List, ok, ◌==◌, arith, get_elem?,
}
use my_coroutine.IoManager.FdContexts.{Event, none_event, has, size, FdContext, Events}
use my_coroutine.IoManager.Validity.{Valid, size-le-registered}
use my_coroutine.IoManager.Register.{added, added_here, has-added}
use my_coroutine.IoManager.Idle.{Loop, Round, idle_rounds}
use my_coroutine.IoManager.Idle.Waiting.{AllQuiet, idle_rounds_wait}
use my_coroutine.Hook.{World, Here}
use my_coroutine.Hook.Waits.{
  IsInside, IsFree, own_context, registered_world, registered_world-Valid,
}

has-size : (event : Event) (es : Events) → event ≢ none_event → has event es ≡ true → 0 < size es
has-size none_event es h e = absurd (h refl)
has-size event es h e = ground (arith, e)

-- From the yield of a hooked call that has registered its event on, in a fiber of an IOManager with
-- valid contexts, through any number of rounds of idle, whatever epoll reports, where tickle can
-- write to the pipe and nobody else touches the event contexts: idle goes on, hands out no task of
-- an event, and the event of the call stays registered.
pub never_woken :
    (here : Here) (s n : ℕ) (event : Event) (c : FdContext) (w : World) (rounds : List Round)
    → IsInside here s
    → event ≢ none_event
    → IsFree n event c w
    → AllQuiet rounds
    → (u : Loop) × (idle_rounds rounds (registered_world here n event c w).loop ≡ ok (false, u))
      × (u.io.scheduled ≡ w.loop.io.scheduled)
      × (d : FdContext) × (get_elem? u.io.contexts n ≡ some d)
      × (has event d.events ≡ true)
never_woken here s n event c w rounds inside some_event f quiet =
    let at_yield : World = registered_world here n event c w in
    let v : Valid at_yield.loop.io =
      registered_world-Valid here s n event c w inside some_event f in
    let own = own_context here in
    let here_e = added_here n w.loop.io f.valid f.context event own in
    let has_e = has-added n w.loop.io f.valid f.context event own some_event in
    let some_pending : (at_yield.loop.io.pending == 0) ≡ false = ground (
      arith,
      v.counted,
      size-le-registered at_yield.loop.io.contexts n (added event own c) here_e,
      has-size event (added event own c).events some_event has_e,
    ) in
    let (u, e, io) = idle_rounds_wait rounds at_yield.loop quiet some_pending in
    (u, e, rw io refl, added event own c, rw io here_e, has_e)
