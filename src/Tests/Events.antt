-- ===== src/Tests/Events.antt =====
-- The manager that the constructor makes, with events of the descriptor 3.
use Prim.Native.Nat.{bit_and, bit_or}
use my_coroutine.Common.{
  not, ◌==◌, true, false, ◌≡◌, ◌≢◌, refl, none, some, ok, err, out_of_bounds, get_elem?, set, arith,
}
use my_coroutine.Common.Int.{pos}
use my_coroutine.Common.Family.{update}
use my_coroutine.Callback.{user}
use my_coroutine.IoManager.{
  IoManager, Caller, io_manager, one_more, add_event, cancel_all, EpollEvent,
}
use my_coroutine.IoManager.FdContexts.{
  none_event, read, write, EventContext, FdContext, new_context, with_event,
}
use my_coroutine.IoManager.Bits.{any_bit, complement, real_bits, left_bits, event_sets}
use my_coroutine.IoManager.Validity.{Valid}
use my_coroutine.IoManager.Initial.{io_manager-Valid}
use my_coroutine.IoManager.Register.{added, add_event_registers, add_event_beyond}
use my_coroutine.IoManager.Drain.{Leaves, cancel_all-Leaves}

abbrev pub caller : Caller
caller = record { scheduler = some 1; fiber = 20; fiber_running = true }

abbrev read_ctx : EventContext
read_ctx = record { scheduler = some 1; fiber = none; cb = some (user 4) }

-- The manager with a callback for what can be read from the descriptor 3.
abbrev pub reading : IoManager
reading = record io_manager {
  contexts = set io_manager.contexts 3 (added read read_ctx (new_context 3));
  watched = update io_manager.watched 3 (with_event read (new_context 3).events);
  pending = one_more io_manager.pending;
}

abbrev reading_context : FdContext
reading_context = added read read_ctx (new_context 3)

pub not_none : read ≢ none_event
not_none e = cc

pub reading-Valid : Valid reading
unfolding io_manager
reading-Valid =
    (add_event_registers 3 io_manager io_manager-Valid {c = new_context 3} refl caller read
      (some (user 4)) read_ctx not_none refl refl refl).1

reading_here : get_elem? reading.contexts 3 ≡ some reading_context
unfolding io_manager
reading_here = refl

-- A descriptor past the 32 contexts.
add_event_beyond_example :
    add_event true caller (pos 32) read (some (user 4)) io_manager ≡ err out_of_bounds
unfolding io_manager
add_event_beyond_example =
    add_event_beyond true caller 32 read (some (user 4)) io_manager (omega arith)

cancel_all-Leaves_example :
    (m' : IoManager) × (cancel_all true true (pos 3) reading ≡ ok (true, m'))
    × Leaves 3 reading_context.events reading_context reading m'
cancel_all-Leaves_example =
    cancel_all-Leaves 3 reading_context reading reading-Valid reading_here refl

abbrev hang_up : EpollEvent
hang_up = record { index = 3; epoll_in = true; epoll_out = false; err_or_hup = true }

-- EPOLLHUP on a descriptor that waits for both events: both are real, and none is left.
event_sets_example :
    (any_bit 0x5 0x4 ≡ true)
    × (bit_or 0x5 0x4 ≡ 0x5)
    × (bit_and 0x5 (complement 0x4) ≡ 0x1)
    × (not (0x5 == 0) ≡ true)
    × (real_bits 0x10 0x5 ≡ 0x5)
    × ((bit_and 0x5 (real_bits 0x10 0x5) == 0) ≡ false)
    × (left_bits 0x5 (real_bits 0x10 0x5) ≡ 0x0)
event_sets_example = event_sets write (record { reads = true; writes = true }) 3 0x10 (omega arith)
