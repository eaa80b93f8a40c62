-- ===== src/Timer/Refinement.antt =====
-- The calls of a TimerManager implement those of the map that it stands for.
use my_coroutine.Common.{
  ℕ, ◌≡◌, refl, sym, ap, ◌∙◌, Result, err, Bool, true, false, not, ◌&&◌, Option, none, some, arith,
  ok, is_some, if◌then◌else◌, inl, inr, Bool-cases,
}
use std.Path.{fun_ext}
use my_coroutine.Common.Int.{ℤ, ◌+ℤ◌, ◌-ℤ◌, eqb_ℤ}
use my_coroutine.Common.Family.{update}
use my_coroutine.Callback.{Callback}
use my_coroutine.OrderedSet.{member, insert, erase}
use my_coroutine.OrderedSet.Laws.{member-insert}
use my_coroutine.Timer.{
  TimerManager, timer_manager, new_timer, less, put, insert_timer, add_timer, add_condition_timer,
  cancel, refresh, reset, get_next_timer, list_expired_cb,
}
use my_coroutine.Timer.Comparator.{Timer, comparator-IsStrictOrder}
use my_coroutine.Timer.Validity.{IsValid, cancelled, cancel_total, member-cancelled}
use my_coroutine.Timer.Expiry.{rolled}
use my_coroutine.Timer.Fires.{heap-list_expired_cb, member-list_expired_cb, member-expired}
use my_coroutine.Timer.Reset.{found, member-moved, sub-add}
use my_coroutine.Timer.History.{
  Step, adds, adds_condition, cancels, refreshes, resets, asks_next, expires, Reach, here, later,
  Reach-IsValid,
}
use my_coroutine.Timer.Abstract.{
  TimerMap, view, is_armed, adjust, refreshed, restarted, expired, abstract_step, replay,
}

view-add_timer :
    (a : ℕ) (ms : ℤ) (cb : Option Callback) (recurring : Bool) (now : ℤ) (m : TimerManager) (b : ℕ)
    → view (add_timer a ms cb recurring now m).1 b
      ≡ update (view m) a (some (new_timer ms cb recurring now)) b
unfolding add_timer insert_timer
view-add_timer a ms cb recurring now m b =
    let heap : ℕ → Timer = put m.heap a (new_timer ms cb recurring now) in
    ground (arith, member-insert (less heap) (comparator-IsStrictOrder heap) b a m.timers)

is_armed-view : (a : ℕ) (m : TimerManager) → IsValid m → is_armed (view m a) ≡ is_some (m.heap a).cb
is_armed-view a m v = ground (arith, v.armed a)

abbrev manager_or : TimerManager → Result (Bool × TimerManager) → TimerManager
manager_or m (ok (_, n)) = n
manager_or m (err _) = m

manager_or-cancel :
    (a : ℕ) (m : TimerManager)
    → IsValid m
    → manager_or m (cancel a m) ≡ (if is_some (m.heap a).cb then cancelled a m else m)
manager_or-cancel a m v = rw (cancel_total a m v) (ground arith)

view-cancelled :
    (a : ℕ) (m : TimerManager)
    → IsValid m
    → (b : ℕ) → view (cancelled a m) b ≡ update (view m) a none b
view-cancelled a m v b = ground (arith, member-cancelled a b m v)

view-cancel :
    (a : ℕ) (done : Bool) (m n : TimerManager)
    → IsValid m
    → cancel a m ≡ ok (done, n)
    → (b : ℕ) → view n b ≡ (if is_armed (view m a) then update (view m) a none else view m) b
view-cancel a done m n v e b =
    let n_is : n ≡ (if is_some (m.heap a).cb then cancelled a m else m) =
      ap (manager_or m) (sym e) ∙ manager_or-cancel a m v in
    elim (Bool-cases (is_some (m.heap a).cb)) [
      | inl armed ↦ rw (n_is, is_armed-view a m v, armed) (view-cancelled a m v b)
      | inr bare ↦ rw (n_is, is_armed-view a m v, bare) refl
    ]

-- A timer that is taken out, written and put back
view-moved :
    (a : ℕ) (t : Timer) (m : TimerManager)
    → IsValid m
    → is_some (m.heap a).cb ≡ true
    → (b : ℕ)
    → (if member b (insert (less (put m.heap a t)) a (erase (less m.heap) a m.timers))
        then some (put m.heap a t b)
        else none)
      ≡ adjust (λ _. t) a (view m) b
view-moved a t m v armed b = ground (arith, member-moved a m v armed (put m.heap a t) b)

view-refresh :
    (a : ℕ) (now : ℤ) (m : TimerManager)
    → IsValid m
    → (b : ℕ) → view (refresh a now m).1 b ≡ adjust (refreshed now) a (view m) b
unfolding refresh
view-refresh a now m v b = elim (Bool-cases (is_some (m.heap a).cb)) [
  | inl armed ↦
      rw (armed, found a m v armed)
        (view-moved a (record (m.heap a) { next = now +ℤ (m.heap a).ms }) m v armed b
          ∙ ground (arith, armed))
  | inr bare ↦ rw bare (ground (arith, bare))
]

reset_bare :
    (a : ℕ) (ms : ℤ) (from_now : Bool) (now : ℤ) (m : TimerManager)
    → is_some (m.heap a).cb ≡ false
    → (reset a ms from_now now m).2 ≡ m
unfolding reset
reset_bare a ms from_now now m bare = elim (Bool-cases (eqb_ℤ (m.heap a).ms ms && not from_now)) [
  | inl same ↦ rw same refl
  | inr other ↦ rw (other, bare) refl
]

view-reset :
    (a : ℕ) (ms : ℤ) (from_now : Bool) (now : ℤ) (m : TimerManager)
    → IsValid m
    → (b : ℕ)
    → view (reset a ms from_now now m).2 b ≡ adjust (restarted ms from_now now) a (view m) b
unfolding reset insert_timer
view-reset a ms from_now now m v b = elim (Bool-cases (is_some (m.heap a).cb)) [
  | inl armed ↦ elim (Bool-cases (eqb_ℤ (m.heap a).ms ms && not from_now)) [
    | inl same ↦ rw same (ground (arith, same))
    | inr other ↦
        rw (other, armed, found a m v armed)
          (view-moved a
              (record (m.heap a) {
                ms = ms;
                next = (if from_now then now else (m.heap a).next -ℤ ms) +ℤ ms;
              })
              m v armed b
            ∙ ground (arith, armed, other, sub-add (m.heap a).next ms))
  ]
  | inr bare ↦ rw (reset_bare a ms from_now now m bare) (ground (arith, bare))
]

view-list_expired_cb :
    (p : ℕ) (now : ℤ) (m : TimerManager)
    → member p m.timers ≡ false
    → IsValid m
    → (b : ℕ) → view (list_expired_cb p now m).1 b ≡ expired (rolled now m) now (view m b)
view-list_expired_cb p now m fresh v b = ground (
  arith,
  heap-list_expired_cb p now m fresh v b,
  member-list_expired_cb p now m fresh v b,
  member-expired now m b,
  fresh,
)

pub view-abstract_step :
    {m n : TimerManager} (s : Step m n)
    → IsValid m
    → (b : ℕ) → view n b ≡ abstract_step s (view m) b
unfolding add_condition_timer get_next_timer
view-abstract_step {m} (adds a ms cb recurring now _) v b = view-add_timer a ms cb recurring now m b
view-abstract_step {m} (adds_condition a ms cb weak_cond recurring now _) v b =
    view-add_timer a ms _ recurring now m b
view-abstract_step {m} {n} (cancels a done e) v b = view-cancel a done m n v e b
view-abstract_step {m} (refreshes a now) v b = view-refresh a now m v b
view-abstract_step {m} (resets a ms from_now now) v b = view-reset a ms from_now now m v b
view-abstract_step (asks_next now) v b = refl
view-abstract_step {m} (expires p now fresh) v b = view-list_expired_cb p now m fresh v b

-- After any history of calls on a new manager, in a memory that holds no armed timer, the timers in
-- the set are, each with its period, deadline and callback, those of the map that the same history
-- makes of the empty map: adding binds the timer, cancel removes an armed one, refresh and reset
-- write it, and listExpiredCb removes the timers that are due, or moves them on if they are
-- recurring (all are due where the manager detects a clock rollover).
pub view-replay :
    {heap : ℕ → Timer} {start : ℤ} {m : TimerManager}
    → ((a : ℕ) → (heap a).cb ≡ none)
    → (r : Reach heap start m) → (b : ℕ) → view m b ≡ replay r b
unfolding timer_manager
view-replay blank here b = refl
view-replay blank (later r s) b =
    view-abstract_step s (Reach-IsValid blank r) b
    ∙ ap (λ (v : TimerMap). abstract_step s v b) (fun_ext (view-replay blank r))
