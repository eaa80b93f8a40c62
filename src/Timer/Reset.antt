-- ===== src/Timer/Reset.antt =====
-- Timer::refresh and Timer::reset on an armed timer, Timer::cancel, and the timers that are due.
use my_coroutine.Common.{
  ℕ, Bool, ◌≡◌, refl, true, false, not, ◌&&◌, ◌||◌, arith, ◌==◌, if◌then◌else◌, is_some, some,
}
use my_coroutine.Common.Int.{ℤ, pos, ◌<ℤ◌, ◌+ℤ◌, ◌-ℤ◌, +ℤ_parts, -ℤ_parts, eq_of_parts, eqb_ℤ}
use my_coroutine.OrderedSet.{member, insert, erase, find}
use my_coroutine.OrderedSet.Laws.{find-member, member-insert, member-erase}
use my_coroutine.Timer.{TimerManager, less, insert_timer, refresh, reset, list_expired_cb}
use my_coroutine.Timer.Comparator.{Timer, comparator-IsStrictOrder}
use my_coroutine.Timer.Validity.{
  IsValid, member_of_armed, cancelled, cancelled-IsValid, member-cancelled,
}
use my_coroutine.Timer.Expiry.{expired_timers}
use my_coroutine.Timer.Fires.{heap-list_expired_cb, member-list_expired_cb, member-expired}

pub sub-add : (x y : ℤ) → x -ℤ y +ℤ y ≡ x
sub-add x y = eq_of_parts _ _ (omega (arith, +ℤ_parts (x -ℤ y) y, -ℤ_parts x y))

module _ (a : ℕ) (m : TimerManager) (v : IsValid m) (armed : is_some (m.heap a).cb ≡ true) where
  pub found : find (less m.heap) a m.timers ≡ some a
  found = ground (
    arith,
    find-member (less m.heap) (comparator-IsStrictOrder m.heap) a m.timers v.sorted,
    member_of_armed a m v armed,
  )

  pub member-moved :
      (heap : ℕ → Timer) (b : ℕ)
      → member b (insert (less heap) a (erase (less m.heap) a m.timers)) ≡ member b m.timers
  member-moved heap b = ground (
    arith,
    member-insert (less heap) (comparator-IsStrictOrder heap) b a (erase (less m.heap) a m.timers),
    member-erase (less m.heap) (comparator-IsStrictOrder m.heap) b a m.timers v.sorted,
    member_of_armed a m v armed,
  )

  -- refresh of an armed timer of a valid manager succeeds, moves its deadline to a full period from
  -- now, and changes no other timer and not which timers are in the set.
  refresh_armed :
      (now : ℤ)
      → ((refresh a now m).0 ≡ true)
        × (((refresh a now m).1.heap a).next ≡ now +ℤ (m.heap a).ms)
        × ((b : ℕ) → (a == b) ≡ false → (refresh a now m).1.heap b ≡ m.heap b)
        × ((b : ℕ) → member b (refresh a now m).1.timers ≡ member b m.timers)
  unfolding refresh
  refresh_armed now =
      rw (armed, found) (refl, ground arith, λ b n. rw n refl, λ b. member-moved _ b)

  -- reset of an armed timer of a valid manager, unless it asks for the period that the timer has
  -- and not from now, succeeds: of the timer it sets the period, and sets the deadline to a new
  -- period from now or, with from_now false, leaves it where it was, and it changes nothing else of
  -- the timer; the other timers, which timers are in the set, and the time of the last check are as
  -- they were, and m_tickled is set exactly if it was, or if onTimerInsertedAtFront has to be
  -- called.
  pub reset_armed :
      (ms : ℤ) (from_now : Bool) (now : ℤ)
      → (eqb_ℤ (m.heap a).ms ms && not from_now) ≡ false
      → let r = (reset a ms from_now now m).2 in
        ((reset a ms from_now now m).0 ≡ true)
        × (r.heap a
            ≡ record (m.heap a) { ms = ms; next = if from_now then now +ℤ ms else (m.heap a).next })
        × ((b : ℕ) → (a == b) ≡ false → r.heap b ≡ m.heap b)
        × ((b : ℕ) → member b r.timers ≡ member b m.timers)
        × (r.previous_time ≡ m.previous_time)
        × (r.tickled ≡ (m.tickled || (reset a ms from_now now m).1))
  unfolding reset insert_timer
  reset_armed ms true now h =
      rw (h, armed, found)
        (refl, ground arith, λ b n. rw n refl, λ b. member-moved _ b, refl, ground arith)
  reset_armed ms false now h =
      rw (h, armed, found)
        (
          refl,
          ground (arith, sub-add (m.heap a).next ms),
          λ b n. rw n refl,
          λ b. member-moved _ b,
          refl,
          ground arith,
        )

  -- A timer that was armed on a valid manager and has been cancelled does not expire, at any time,
  -- and is not in the set after a later listExpiredCb.
  cancelled_silent :
      (p : ℕ) (now : ℤ)
      → member p m.timers ≡ false
      → (member a (expired_timers now (cancelled a m)) ≡ false)
        × (member a (list_expired_cb p now (cancelled a m)).1.timers ≡ false)
  cancelled_silent p now fresh = (
    rw (member-expired now n a, gone) (ground arith),
    rw (member-list_expired_cb p now n still_fresh (cancelled-IsValid a m v) a, gone) refl,
  )
    where
      n : TimerManager
      n = cancelled a m

      gone : member a n.timers ≡ false
      gone = ground (arith, member-cancelled a a m v)

      still_fresh : member p n.timers ≡ false
      still_fresh = ground (arith, fresh, member-cancelled a p m v)

module _ (p : ℕ) (now : ℤ) (m : TimerManager) (fresh : member p m.timers ≡ false)
    (v : IsValid m) where
  -- After listExpiredCb on a valid manager, with a fresh address for now_timer, a timer that is in
  -- the set is not due, provided its period is positive if it is recurring.
  pub none_due_left :
      (b : ℕ)
      → member b (list_expired_cb p now m).1.timers ≡ true
      → ((m.heap b).recurring ≡ true → pos 0 <ℤ (m.heap b).ms)
      → now <ℤ ((list_expired_cb p now m).1.heap b).next
  none_due_left b i positive = ground (
    arith,
    fresh,
    i,
    positive,
    member-list_expired_cb p now m fresh v b,
    heap-list_expired_cb p now m fresh v b,
    member-expired now m b,
    +ℤ_parts now (m.heap b).ms,
  )
