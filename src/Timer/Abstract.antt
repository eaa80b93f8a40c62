-- ===== src/Timer/Abstract.antt =====
-- What a TimerManager promises: a map from the timers that wait to what they are. The map forgets the
-- order of `m_timers`, the memory of other timers, and whether a front insertion has been announced.
use my_coroutine.Common.{
  ℕ, Bool, false, not, ◌&&◌, ◌||◌, Option, none, some, ◌==◌, is_some, if◌then◌else◌,
}
use my_coroutine.Common.Int.{ℤ, ◌+ℤ◌, leb_ℤ, eqb_ℤ}
use my_coroutine.Common.Family.{update}
use my_coroutine.Callback.{on_timer}
use my_coroutine.OrderedSet.{member}
use my_coroutine.Timer.{TimerManager, new_timer}
use my_coroutine.Timer.Comparator.{Timer}
use my_coroutine.Timer.Expiry.{rolled}
use my_coroutine.Timer.History.{
  Step, adds, adds_condition, cancels, refreshes, resets, asks_next, expires, Reach, here, later,
}

abbrev pub TimerMap : Type 0
TimerMap = ℕ → Option Timer

-- The map that a manager stands for.
abbrev pub view : TimerManager → TimerMap
view m b = if member b m.timers then some (m.heap b) else none

-- The timer waits and has a callback.
abbrev pub is_armed : Option Timer → Bool
is_armed none = false
is_armed (some t) = is_some t.cb

-- A write to a timer that waits; any other is left alone.
abbrev pub written : (Timer → Timer) → Option Timer → Option Timer
written f none = none
written f (some t) = some (f t)

abbrev pub adjust : (Timer → Timer) → ℕ → TimerMap → TimerMap
adjust f a v b = if a == b then written f (v b) else v b

-- refresh, of a timer that waits
abbrev pub refreshed : ℤ → Timer → Timer
refreshed now t = if is_some t.cb then record t { next = now +ℤ t.ms } else t

-- reset, of a timer that waits
abbrev pub restarted : ℤ → Bool → ℤ → Timer → Timer
restarted ms from_now now t =
    if is_some t.cb && not (eqb_ℤ t.ms ms && not from_now)
    then record t { ms = ms; next = if from_now then now +ℤ ms else t.next }
    else t

-- listExpiredCb, of a timer that waits; after a clock rollover all are due.
abbrev pub expired : Bool → ℤ → Option Timer → Option Timer
expired rollover now none = none
expired rollover now (some t) =
    if rollover || leb_ℤ t.next now
    then (if t.recurring then some (record t { next = now +ℤ t.ms }) else none)
    else some t

-- What a call does to the map.
abbrev pub abstract_step : {m n : TimerManager} → Step m n → TimerMap → TimerMap
abstract_step (adds a ms cb recurring now _) v = update v a (some (new_timer ms cb recurring now))
abstract_step (adds_condition a ms cb weak_cond recurring now _) v =
    update v a (some (new_timer ms (some (on_timer weak_cond cb)) recurring now))
abstract_step (cancels a _ _) v = if is_armed (v a) then update v a none else v
abstract_step (refreshes a now) v = adjust (refreshed now) a v
abstract_step (resets a ms from_now now) v = adjust (restarted ms from_now now) a v
abstract_step (asks_next now) v = v
abstract_step {m} (expires p now _) v = λ b. expired (rolled now m) now (v b)

-- The map that a history of calls makes, from the empty one.
abbrev pub replay :
    {heap : ℕ → Timer} {start : ℤ} {m : TimerManager} → Reach heap start m → TimerMap
replay here = λ _. none
replay (later r s) = abstract_step s (replay r)
