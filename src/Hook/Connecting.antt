-- ===== src/Hook/Connecting.antt =====
-- connect of Hook.cpp on a socket that cannot connect at once: the wait, with its timeout, and what
-- is returned after it.
use my_coroutine.Common.{ℕ, ◌≡◌, ◌≢◌, refl, true, false, not, ◌==◌, none, some, if◌then◌else◌, ok}
use my_coroutine.Common.Int.{ℤ, pos, ◌+ℤ◌, eqb_ℤ}
use my_coroutine.OrderedSet.{member}
use my_coroutine.Callback.{on_timer, io_timeout}
use my_coroutine.Timer.Adding.{IsAdded}
use my_coroutine.Timer.Validity.{IsValid}
use my_coroutine.FdManager.Context.{unlimited}
use my_coroutine.IoManager.FdContexts.{Event, none_event, FdContext}
use my_coroutine.Hook.{World, Here, Wait, event_value, minus_one, wait_event}
use my_coroutine.Hook.Calls.{ConnectAnswers}
use my_coroutine.Hook.Waits.{IsInside, IsFree, registered_world, add_io_event_registers}
use my_coroutine.Hook.Arming.{
  arm-some, disarm-some, armed_timers, armed_timers-IsValid, armed_timers-IsAdded,
}
use my_coroutine.Hook.Timeouts.{wait_event_ends}

-- What happens while a fiber is away keeps the timers valid.
abbrev pub KeepsTimers : Wait → Type 0
KeepsTimers a = (u : World) → IsValid u.loop.timers → IsValid (a.after u).loop.timers

-- What connect returns after the wait, in the world `rest` with the timer cancelled: a timeout that has
-- struck comes first, then a getsockopt that fails, then what SO_ERROR says.
abbrev pub after_connect : ℕ → ConnectAnswers → World → ℤ × World
after_connect info a rest =
    if not (rest.infos info == 0)
    then (minus_one, record rest { errno = rest.infos info })
    else if eqb_ℤ a.option.value (minus_one)
    then (minus_one, record rest { errno = a.option.errno })
    else if not (a.socket_error == 0)
    then (minus_one, record rest { errno = a.socket_error })
    else (pos 0, record rest { errno = a.option.errno })

-- A wait with a timeout: the event is added to the world `armed`, and the timer is cancelled at the
-- end.
pub record Waited (here : Here) (info n : ℕ) (event : Event) (to : ℤ) (c : FdContext) (a : Wait)
    (w : World) : Type 0 where
  pub armed : World
  pub rest : World
  pub added :
      IsAdded a.timer to
        (some (on_timer info (io_timeout info (pos n) (event_value event))))
        false
        (a.now +ℤ to)
        w.loop.timers
        armed.loop.timers
  pub same_io : armed.loop.io ≡ w.loop.io
  pub ends : wait_event here info (pos n) event to a w ≡ ok (true, rest)
  pub infos : rest.infos ≡ (a.after (registered_world here n event c armed)).infos
  pub disarmed : (rest.loop.timers.heap a.timer).cb ≡ none

pub wait_event_timed :
    (here : Here) (s info n : ℕ) (event : Event) (to : ℤ) (c : FdContext) (a : Wait) (w : World)
    → IsInside here s
    → event ≢ none_event
    → IsFree n event c w
    → IsValid w.loop.timers
    → member a.timer w.loop.timers.timers ≡ false
    → eqb_ℤ to unlimited ≡ false
    → a.epoll ≡ true
    → a.wrote ≡ true
    → KeepsTimers a
    → Waited here info n event to c a w
wait_event_timed here s info n event to c a w inside some_event f timers fresh timed epoll wrote
      keeps =
    let (k, armed_e) = arm-some info (pos n) event to a w timed wrote in
    let armed : World = record w {
      loop = record w.loop { timers = armed_timers info (pos n) event to a w; tickled = k };
    } in
    let free : IsFree n event c armed = record {
      valid = f.valid;
      context = f.context;
      free = f.free;
    } in
    let waiting_w : World = registered_world here n event c armed in
    let woken : World = a.after waiting_w in
    let (rest_timers, disarm_e, disarmed) =
      disarm-some a.timer woken
        (keeps waiting_w (armed_timers-IsValid info (pos n) event to a w fresh timers)) in
    let rest : World = record woken { loop = record woken.loop { timers = rest_timers } } in
    record {
      armed = armed;
      rest = rest;
      added = armed_timers-IsAdded info (pos n) event to a w;
      same_io = refl;
      ends =
          wait_event_ends here info n event to a w armed waiting_w woken rest inside.iom armed_e
            (add_io_event_registers here s n event c armed inside some_event free a epoll) refl
            disarm_e;
      infos = refl;
      disarmed = disarmed;
    }
