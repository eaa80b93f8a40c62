-- ===== src/Timer.antt =====
-- Timer.h and Timer.cpp: the timers and their manager. A method that mutates the manager or a timer
-- returns the new manager; `getNow()` and the address of a new timer are arguments.
pub mod Adding
pub mod Comparator
pub mod Heap
pub mod Validity
pub mod Due
pub mod Rearm
pub mod Expiry
pub mod Fires
pub mod Deadlines
pub mod Reset
pub mod History
pub mod Abstract
pub mod Refinement
use my_coroutine.Common.{
  ℕ, zero, Bool, true, false, not, ◌&&◌, Option, none, some, List, [], ◌∷◌, ◌++◌, ◌==◌, is_some,
  if◌then◌else◌, Result, ok, err, erase_end,
}
use my_coroutine.Common.Int.{ℤ, pos, ◌+ℤ◌, ◌-ℤ◌, ltb_ℤ, leb_ℤ, eqb_ℤ, negsuc}
use my_coroutine.Callback.{Callback, on_timer}
use my_coroutine.OrderedSet.{insert, insert_position, find, erase, before_bound, from_bound}
use Comparator.{Timer, comparator}

-- `heap` is the memory that the pointers to timers lead to; `timers` is `m_timers`, in order.
pub record TimerManager : Type 0 where
  pub heap : ℕ → Timer
  pub timers : List ℕ
  pub tickled : Bool
  pub previous_time : ℤ

-- The order of `m_timers`: its pointers are not null.
abbrev pub less : (ℕ → Timer) → ℕ → ℕ → Bool
less heap a b = comparator heap (some a) (some b)

abbrev pub put : (ℕ → Timer) → ℕ → Timer → ℕ → Timer
put heap a t b = if a == b then t else heap b

-- Timer(ms, cb, recurring, manager)
abbrev pub new_timer : ℤ → Option Callback → Bool → ℤ → Timer
new_timer ms cb recurring now = record { recurring = recurring; ms = ms; next = now +ℤ ms; cb = cb }

-- Timer(next)
abbrev pub deadline_timer : ℤ → Timer
deadline_timer next = record { recurring = false; ms = pos 0; next = next; cb = none }

-- TimerManager()
unfoldable pub timer_manager : (ℕ → Timer) → ℤ → TimerManager
timer_manager heap now = record { heap = heap; timers = []; tickled = false; previous_time = now }

-- addTimer(val, lock): the flag says whether `onTimerInsertedAtFront` is called at the end.
unfoldable pub insert_timer : ℕ → TimerManager → Bool × TimerManager
insert_timer a m =
    let at_front = (insert_position (less m.heap) a m.timers == 0) && not m.tickled in
    (
      at_front,
      record m {
        timers = insert (less m.heap) a m.timers;
        tickled = if at_front then true else m.tickled;
      },
    )

-- addTimer(ms, cb, recurring)
unfoldable pub add_timer : ℕ → ℤ → Option Callback → Bool → ℤ → TimerManager → Bool × TimerManager
unfolding insert_timer
add_timer a ms cb recurring now m =
    insert_timer a (record m { heap = put m.heap a (new_timer ms cb recurring now) })

-- addConditionTimer
unfoldable pub add_condition_timer :
    ℕ → ℤ → Callback → ℕ → Bool → ℤ → TimerManager → Bool × TimerManager
unfolding add_timer
add_condition_timer a ms cb weak_cond recurring now m =
    add_timer a ms (some (on_timer weak_cond cb)) recurring now m

-- Timer::cancel. Erasing the iterator `end()` is undefined.
unfoldable pub cancel : ℕ → TimerManager → Result (Bool × TimerManager)
cancel a m =
    let heap = put m.heap a (record (m.heap a) { cb = none }) in
    if is_some (m.heap a).cb
    then (if is_some (find (less heap) a m.timers)
        then ok (true, record m { heap = heap; timers = erase (less heap) a m.timers })
        else err erase_end)
    else ok (false, m)

-- Timer::refresh
unfoldable pub refresh : ℕ → ℤ → TimerManager → Bool × TimerManager
refresh a now m =
    let t = m.heap a in
    let heap = put m.heap a (record t { next = now +ℤ t.ms }) in
    if not (is_some t.cb)
    then (false, m)
    else if not (is_some (find (less m.heap) a m.timers))
    then (false, m)
    else (
      true,
      record m { heap = heap; timers = insert (less heap) a (erase (less m.heap) a m.timers) },
    )

-- Timer::reset: its value, then whether `onTimerInsertedAtFront` is called, then the manager.
unfoldable pub reset : ℕ → ℤ → Bool → ℤ → TimerManager → Bool × Bool × TimerManager
unfolding insert_timer
reset a ms from_now now m =
    let t = m.heap a in
    let start = if from_now then now else t.next -ℤ ms in
    let heap = put m.heap a (record t { ms = ms; next = start +ℤ ms }) in
    let inserted =
      insert_timer a (record m { heap = heap; timers = erase (less m.heap) a m.timers }) in
    if eqb_ℤ t.ms ms && not from_now
    then (true, false, m)
    else if not (is_some t.cb)
    then (false, false, m)
    else if not (is_some (find (less m.heap) a m.timers))
    then (false, false, m)
    else (true, inserted.0, inserted.1)

-- getNextTimer. milliseconds(~0ull) is -1.
abbrev pub no_timer : ℤ
no_timer = negsuc 0

abbrev pub next_timeout : (ℕ → Timer) → List ℕ → ℤ → ℤ
next_timeout heap [] now = no_timer
next_timeout heap (a ∷ _) now = if leb_ℤ (heap a).next now then pos 0 else (heap a).next -ℤ now

unfoldable pub get_next_timer : ℤ → TimerManager → ℤ × TimerManager
get_next_timer now m = (next_timeout m.heap m.timers now, record m { tickled = false })

abbrev pub one_hour : ℤ
one_hour = pos 3600000

-- detectClockRollover
unfoldable pub detect_clock_rollover : ℤ → TimerManager → Bool × TimerManager
detect_clock_rollover now m = (
  ltb_ℤ now m.previous_time && ltb_ℤ now (m.previous_time -ℤ one_hour),
  record m { previous_time = now },
)

-- while(it != m_timers.end() && (*it)->m_next == now) ++it: what the loop passes, and what is left
unfoldable pub passed_now : (ℕ → Timer) → ℤ → List ℕ → List ℕ
passed_now heap now [] = []
passed_now heap now (a ∷ as') = if eqb_ℤ (heap a).next now then a ∷ passed_now heap now as' else []

unfoldable pub left_now : (ℕ → Timer) → ℤ → List ℕ → List ℕ
left_now heap now [] = []
left_now heap now (a ∷ as') = if eqb_ℤ (heap a).next now then left_now heap now as' else a ∷ as'

-- for(auto &timer : expired): one round of the loop, without its `emplace_back`
unfoldable pub rearm_one : ℤ → ℕ → TimerManager → TimerManager
rearm_one now a m =
    let t = m.heap a in
    let again = put m.heap a (record t { next = now +ℤ t.ms }) in
    if t.recurring
    then record m { heap = again; timers = insert (less again) a m.timers }
    else record m { heap = put m.heap a (record t { cb = none }) }

unfoldable pub rearm : ℤ → List ℕ → TimerManager → TimerManager
rearm now [] m = m
rearm now (a ∷ expired) m = rearm now expired (rearm_one now a m)

-- the callbacks that the same loop appends to `cbs`
unfoldable pub callbacks : (ℕ → Timer) → List ℕ → List (Option Callback)
callbacks heap [] = []
callbacks heap (a ∷ expired) = (heap a).cb ∷ callbacks heap expired

-- listExpiredCb from `now_timer` on, whose address is `p`
unfoldable pub take_expired : ℕ → Bool → ℤ → TimerManager → List (Option Callback) × TimerManager
unfolding rearm rearm_one callbacks before_bound from_bound passed_now left_now
take_expired p rollover now m =
    let heap = put m.heap p (deadline_timer now) in
    let low = before_bound (less heap) p m.timers in
    let high = from_bound (less heap) p m.timers in
    let expired = if rollover then m.timers else low ++ passed_now heap now high in
    let rest = if rollover then [] else left_now heap now high in
    (callbacks heap expired, rearm now expired (record m { heap = heap; timers = rest }))

abbrev first_after : (ℕ → Timer) → List ℕ → ℤ → Bool
first_after heap [] now = false
first_after heap (a ∷ _) now = ltb_ℤ now (heap a).next

abbrev pub is_empty : List ℕ → Bool
is_empty [] = true
is_empty (_ ∷ _) = false

-- listExpiredCb
unfoldable pub list_expired_cb : ℕ → ℤ → TimerManager → List (Option Callback) × TimerManager
unfolding take_expired detect_clock_rollover
list_expired_cb p now m =
    let (rollover, checked) = detect_clock_rollover now m in
    if is_empty m.timers
    then ([], m)
    else if not rollover && first_after m.heap m.timers now
    then ([], checked)
    else take_expired p rollover now checked

-- hasTimer
unfoldable pub has_timer : TimerManager → Bool
has_timer m = not (is_empty m.timers)
