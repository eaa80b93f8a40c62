-- ===== src/Hook/Timeouts.antt =====
-- A wait of do_io or connect (Hook.cpp) from the timer to its cancel, of the steps that it takes.
use my_coroutine.Common.{ℕ, ◌≡◌, refl, true, some, ok}
use my_coroutine.Common.Int.{ℤ, pos}
use my_coroutine.IoManager.FdContexts.{Event}
use my_coroutine.Hook.{World, Here, Wait, arm, add_io_event, disarm, wait_event}

pub wait_event_ends :
    (here : Here) (info n : ℕ) (event : Event) (to : ℤ) (a : Wait)
    (w armed waiting_w woken v : World)
    → here.has_iom ≡ true
    → arm info (pos n) event to a w ≡ ok (some a.timer, armed)
    → add_io_event here (pos n) event a armed ≡ ok (true, waiting_w)
    → a.after waiting_w ≡ woken
    → disarm (some a.timer) woken ≡ ok v
    → wait_event here info (pos n) event to a w ≡ ok (true, v)
unfolding wait_event
wait_event_ends here info n event to a w armed waiting_w woken v iom e₁ e₂ e₃ e₄ =
    rw (wait_event, e₁, e₂, e₃, e₄, iom) refl
