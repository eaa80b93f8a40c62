-- ===== src/Hook/Arming.antt =====
-- The timer of a wait in Hook.cpp: what makes it, and what cancels it.
use my_coroutine.Common.{
  ℕ, ◌≡◌, refl, true, false, none, some, arith, ok, is_some, inl, inr, Bool-cases,
}
use my_coroutine.Common.Int.{ℤ, ◌+ℤ◌, eqb_ℤ}
use my_coroutine.Callback.{on_timer, io_timeout}
use my_coroutine.OrderedSet.{member}
use my_coroutine.Timer.{TimerManager, add_condition_timer}
use my_coroutine.Timer.Adding.{IsAdded, add_timer-IsAdded}
use my_coroutine.Timer.Validity.{IsValid, add_timer-IsValid, cancel_total, cancelled}
use my_coroutine.FdManager.Context.{unlimited}
use my_coroutine.IoManager.FdContexts.{Event}
use my_coroutine.IoManager.Idle.{Loop}
use my_coroutine.IoManager.Idle.Rounds.{tickle_returns}
use my_coroutine.Hook.{World, Wait, event_value, arm, disarm}

-- disarm
pub disarm-some :
    (t : ℕ) (w : World)
    → IsValid w.loop.timers
    → (timers : TimerManager) × (disarm (some t) w
        ≡ ok (record w { loop = record w.loop { timers = timers } }))
      × ((timers.heap t).cb ≡ none)
unfolding disarm
disarm-some t w v = elim (Bool-cases (is_some (w.loop.timers.heap t).cb)) [
  | inl e ↦
      (cancelled t w.loop.timers, ground (arith, cancel_total t w.loop.timers v), ground arith)
  | inr e ↦ (w.loop.timers, ground (arith, cancel_total t w.loop.timers v), ground arith)
]

-- The timers after addConditionTimer of a wait.
abbrev pub armed_timers : ℕ → ℤ → Event → ℤ → Wait → World → TimerManager
armed_timers info fd event to a w =
    (add_condition_timer a.timer to (io_timeout info fd (event_value event)) info false a.now
      w.loop.timers).1

pub arm-some :
    (info : ℕ) (fd : ℤ) (event : Event) (to : ℤ) (a : Wait) (w : World)
    → eqb_ℤ to unlimited ≡ false
    → a.wrote ≡ true
    → (k : ℕ) × (arm info fd event to a w
        ≡ ok (
          some a.timer,
          record w {
            loop = record w.loop { timers = armed_timers info fd event to a w; tickled = k };
          },
        ))
unfolding arm
arm-some info fd event to a w timed wrote =
    let armed : Loop = record w.loop { timers = armed_timers info fd event to a w } in
    let made =
      add_condition_timer a.timer to (io_timeout info fd (event_value event)) info false a.now
        w.loop.timers in
    elim (Bool-cases made.0) [
      | inl front ↦ let (k, e) = tickle_returns armed in (k, rw (arm, timed, front, wrote, e) refl)
      | inr behind ↦ (w.loop.tickled, rw (arm, timed, behind) refl)
    ]

pub armed_timers-IsValid :
    (info : ℕ) (fd : ℤ) (event : Event) (to : ℤ) (a : Wait) (w : World)
    → member a.timer w.loop.timers.timers ≡ false
    → IsValid w.loop.timers
    → IsValid (armed_timers info fd event to a w)
unfolding add_condition_timer
armed_timers-IsValid info fd event to a w fresh v =
    add_timer-IsValid a.timer to (some (on_timer info (io_timeout info fd (event_value event))))
      false a.now w.loop.timers fresh v

pub armed_timers-IsAdded :
    (info : ℕ) (fd : ℤ) (event : Event) (to : ℤ) (a : Wait) (w : World)
    → IsAdded a.timer to
        (some (on_timer info (io_timeout info fd (event_value event))))
        false
        (a.now +ℤ to)
        w.loop.timers
        (armed_timers info fd event to a w)
unfolding add_condition_timer
armed_timers-IsAdded info fd event to a w =
    add_timer-IsAdded a.timer to (some (on_timer info (io_timeout info fd (event_value event))))
      false a.now w.loop.timers
