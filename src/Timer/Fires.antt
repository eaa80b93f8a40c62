-- ===== src/Timer/Fires.antt =====
-- listExpiredCb against its description: the timers that expire, their callbacks in the order of the
-- deadlines, and what becomes of every timer.
use my_coroutine.Common.{
  ℕ, ◌≡◌, refl, false, not, ◌&&◌, ◌||◌, arith, ◌==◌, if◌then◌else◌, inl, inr, none, if_cases,
}
use my_coroutine.Common.Int.{ℤ}
use my_coroutine.OrderedSet.{member}
use my_coroutine.OrderedSet.Order.{IsSorted}
use my_coroutine.OrderedSet.Filter.{member-filter, filter-IsSorted}
use my_coroutine.Timer.{
  TimerManager, less, put, callbacks, deadline_timer, take_expired, list_expired_cb,
  detect_clock_rollover, rearm,
}
use my_coroutine.Timer.Comparator.{comparator-IsStrictOrder}
use my_coroutine.Timer.Heap.{put_other-IsSorted}
use my_coroutine.Timer.Validity.{IsValid}
use my_coroutine.Timer.Due.{due, not_due}
use my_coroutine.Timer.Rearm.{expired_timer, rearm-heap, rearm-member, rearm-IsSorted}
use my_coroutine.Timer.Expiry.{
  expired_timers, kept_timers, checked, rolled, list_expired_cases, take_expired_lem,
}

-- The manager that the loop over the expired timers starts from.
abbrev loop_start : ℕ → ℤ → TimerManager → TimerManager
loop_start p now m = record (checked now m) {
  heap = put m.heap p (deadline_timer now);
  timers = kept_timers (rolled now m) now m;
}

expired-IsSorted :
    (now : ℤ) (m : TimerManager) → IsValid m → IsSorted (less m.heap) (expired_timers now m)
expired-IsSorted now m v =
    if_cases (IsSorted (less m.heap)) (rolled now m) (λ _. v.sorted)
      (λ _. filter-IsSorted (less m.heap) (due m.heap now) m.timers v.sorted)

kept-IsSorted :
    (now : ℤ) (m : TimerManager)
    → IsValid m
    → IsSorted (less m.heap) (kept_timers (rolled now m) now m)
kept-IsSorted now m v =
    if_cases (IsSorted (less m.heap)) (rolled now m) (λ _. tt)
      (λ _. filter-IsSorted (less m.heap) (not_due m.heap now) m.timers v.sorted)

pub member-expired :
    (now : ℤ) (m : TimerManager) (b : ℕ)
    → member b (expired_timers now m) ≡ ((rolled now m || due m.heap now b) && member b m.timers)
member-expired now m b = ground (arith, member-filter (due m.heap now) b m.timers)

member-kept :
    (now : ℤ) (m : TimerManager) (b : ℕ)
    → member b (kept_timers (rolled now m) now m)
      ≡ (not (rolled now m || due m.heap now b) && member b m.timers)
member-kept now m b = ground (arith, member-filter (not_due m.heap now) b m.timers)

module _ (p : ℕ) (now : ℤ) (m : TimerManager) (fresh : member p m.timers ≡ false)
    (v : IsValid m) where
  loop_end : TimerManager
  loop_end = rearm now (expired_timers now m) (loop_start p now m)

  taken :
      take_expired p (rolled now m) now (checked now m)
      ≡ (callbacks m.heap (expired_timers now m), loop_end)
  unfolding detect_clock_rollover loop_end
  taken =
      take_expired_lem p (rolled now m) now (checked now m) fresh
        (record { sorted = v.sorted; armed = v.armed })

  loop_heap :
      (b : ℕ)
      → loop_end.heap b ≡ (
          if member b (expired_timers now m)
          then expired_timer now ((loop_start p now m).heap b)
          else (loop_start p now m).heap b)
  unfolding loop_end
  loop_heap b =
      rearm-heap (less m.heap) (comparator-IsStrictOrder m.heap) now b (expired_timers now m)
        (loop_start p now m) (expired-IsSorted now m v)

  loop_member :
      (b : ℕ)
      → member b loop_end.timers ≡ (
          member b (kept_timers (rolled now m) now m)
          || (member b (expired_timers now m) && ((loop_start p now m).heap b).recurring))
  unfolding loop_end
  loop_member b =
      rearm-member (less m.heap) (comparator-IsStrictOrder m.heap) now b (expired_timers now m)
        (loop_start p now m) (expired-IsSorted now m v)

  loop-IsSorted : IsSorted (less loop_end.heap) loop_end.timers
  unfolding loop_end
  loop-IsSorted =
      rearm-IsSorted (less m.heap) (comparator-IsStrictOrder m.heap) now (expired_timers now m)
        (loop_start p now m) (expired-IsSorted now m v)
        (λ b i. ground (arith, i, member-expired now m b, member-kept now m b))
        (put_other-IsSorted m.heap p (deadline_timer now) (kept_timers (rolled now m) now m)
          (ground (arith, fresh, member-kept now m p)) (kept-IsSorted now m v))

  loop_armed : (a : ℕ) → member a loop_end.timers ≡ false → (loop_end.heap a).cb ≡ none
  loop_armed a n = ground (
    arith,
    n,
    fresh,
    loop_heap a,
    loop_member a,
    member-expired now m a,
    member-kept now m a,
    v.armed a,
  )

  -- On a valid manager, with an address for now_timer that no timer in the set has, listExpiredCb
  -- hands out the callbacks of exactly the timers of the set that are due (all of them after a
  -- clock rollover), each once and in the order of the deadlines.
  pub list_expired_cb-callbacks :
      (list_expired_cb p now m).0 ≡ callbacks m.heap (expired_timers now m)
  unfolding callbacks
  list_expired_cb-callbacks = elim (list_expired_cases p now m v) [
    | inl (none_expired, no_callback, _, _) ↦ rw (no_callback, none_expired) refl
    | inr e ↦ rw (e, taken)
  ]

  -- On a valid manager, with a fresh address for now_timer, and for every timer but now_timer
  -- itself: listExpiredCb moves the deadline of an expired recurring timer a period past now, drops
  -- the callback of any other expired timer, and changes no other timer.
  pub heap-list_expired_cb :
      (b : ℕ)
      → (p == b) ≡ false
      → (list_expired_cb p now m).1.heap b
        ≡ (if member b (expired_timers now m) then expired_timer now (m.heap b) else m.heap b)
  heap-list_expired_cb b other = elim (list_expired_cases p now m v) [
    | inl (none_expired, _, same, _) ↦ rw (same, none_expired) refl
    | inr e ↦ rw (e, taken) (ground (arith, other, loop_heap b))
  ]

  -- On a valid manager, with a fresh address for now_timer, the timers in the set after
  -- listExpiredCb are those that were in it and have not expired or are recurring.
  pub member-list_expired_cb :
      (b : ℕ)
      → member b (list_expired_cb p now m).1.timers
        ≡ (member b m.timers && (not (member b (expired_timers now m)) || (m.heap b).recurring))
  member-list_expired_cb b = elim (list_expired_cases p now m v) [
    | inl (none_expired, _, _, same) ↦ rw (same, none_expired) (ground arith)
    | inr e ↦
        rw (e, taken)
          (ground (arith, fresh, loop_member b, member-expired now m b, member-kept now m b))
  ]

  -- The set stays in order, and a timer that keeps its callback is in it.
  pub list_expired_cb-IsValid : IsValid (list_expired_cb p now m).1
  list_expired_cb-IsValid = elim (list_expired_cases p now m v) [
    | inl (_, _, same_heap, same_timers) ↦ record {
      sorted = rw (same_heap, same_timers) v.sorted;
      armed = λ a. rw (same_heap, same_timers) (v.armed a);
    }
    | inr e ↦ record {
      sorted = rw (e, taken) loop-IsSorted;
      armed = λ a. rw (e, taken) (loop_armed a);
    }
  ]
