-- ===== src/Timer/Expiry.antt =====
-- listExpiredCb as a whole: which callbacks it hands out, and what it leaves behind.
use my_coroutine.Common.{
  ℕ, Bool, ◌≡◌, refl, ap, true, false, not, ◌&&◌, ◌⊎◌, List, [], ◌∷◌, arith, if◌then◌else◌, filter,
  inl, inr, Bool-cases,
}
use my_coroutine.Common.Int.{ℤ}
use my_coroutine.OrderedSet.{member}
use my_coroutine.OrderedSet.Order.{IsSorted}
use my_coroutine.OrderedSet.Filter.{member-filter}
use my_coroutine.Timer.{
  TimerManager, less, put, callbacks, deadline_timer, take_expired, list_expired_cb,
  detect_clock_rollover, is_empty, first_after, rearm,
}
use my_coroutine.Timer.Comparator.{Timer}
use my_coroutine.Timer.Heap.{put_self, put_other-IsSorted}
use my_coroutine.Timer.Validity.{IsValid}
use my_coroutine.Timer.Due.{due, not_due, split_at_now, NotBefore-After, none_due}

-- The timers that expire at `now`: all of them after a clock rollover, else those that are due.
abbrev pub expired_timers : ℤ → TimerManager → List ℕ
expired_timers now m =
    if (detect_clock_rollover now m).0 then m.timers else filter (due m.heap now) m.timers

-- What is left in the set before the recurring timers are put back.
abbrev pub kept_timers : Bool → ℤ → TimerManager → List ℕ
kept_timers rollover now m = if rollover then [] else filter (not_due m.heap now) m.timers

abbrev pub taken_timers : Bool → ℤ → TimerManager → List ℕ
taken_timers rollover now m = if rollover then m.timers else filter (due m.heap now) m.timers

callbacks-put :
    (heap : ℕ → Timer) (p : ℕ) (t : Timer) (xs : List ℕ)
    → member p xs ≡ false
    → callbacks (put heap p t) xs ≡ callbacks heap xs
unfolding callbacks
callbacks-put heap p t [] out = refl
callbacks-put heap p t (x ∷ xs) out = ground (arith, callbacks-put heap p t xs)

filter-put :
    (heap : ℕ → Timer) (p : ℕ) (t : Timer) (now : ℤ) (xs : List ℕ)
    → member p xs ≡ false
    → (filter (due (put heap p t) now) xs ≡ filter (due heap now) xs)
      × (filter (not_due (put heap p t) now) xs ≡ filter (not_due heap now) xs)
filter-put heap p t now [] out = (refl, refl)
filter-put heap p t now (x ∷ xs) out = ground (arith, filter-put heap p t now xs)

-- The search splits the set into the timers that are due and the others.
pub take_expired_lem :
    (p : ℕ) (rollover : Bool) (now : ℤ) (m : TimerManager)
    → member p m.timers ≡ false
    → IsValid m
    → take_expired p rollover now m ≡ (
      callbacks m.heap (taken_timers rollover now m),
      rearm now (taken_timers rollover now m) (record m {
        heap = put m.heap p (deadline_timer now);
        timers = kept_timers rollover now m;
      }),
    )
unfolding take_expired
take_expired_lem p true now m out v = rw (callbacks-put m.heap p (deadline_timer now) m.timers out)
take_expired_lem p false now m out v =
    let heap = put m.heap p (deadline_timer now) in
    let (low, high) =
      split_at_now heap now p m.timers
        (ap (λ (t : Timer). t.next) (put_self m.heap p (deadline_timer now)))
        (put_other-IsSorted m.heap p (deadline_timer now) m.timers out v.sorted) in
    let (due_same, left_same) = filter-put m.heap p (deadline_timer now) now m.timers out in
    let not_taken : member p (filter (due m.heap now) m.timers) ≡ false =
      ground (arith, member-filter (due m.heap now) p m.timers) in
    rw (
      low,
      high,
      due_same,
      left_same,
      callbacks-put m.heap p (deadline_timer now) (filter (due m.heap now) m.timers) not_taken,
    )

first_after-filter :
    (heap : ℕ → Timer) (now : ℤ) (xs : List ℕ)
    → IsSorted (less heap) xs
    → first_after heap xs now ≡ true
    → filter (due heap now) xs ≡ []
first_after-filter heap now [] s h = cc
first_after-filter heap now (x ∷ xs) s h =
    ground (arith, none_due heap now (heap x).next xs, NotBefore-After heap x xs s.0)

-- `checked` is the manager after the rollover test.
abbrev pub checked : ℤ → TimerManager → TimerManager
checked now m = (detect_clock_rollover now m).1

abbrev pub rolled : ℤ → TimerManager → Bool
rolled now m = (detect_clock_rollover now m).0

is_empty-nil : (xs : List ℕ) → is_empty xs ≡ true → xs ≡ []
is_empty-nil [] h = refl
is_empty-nil (x ∷ xs) h = cc

pub list_expired_cases :
    (p : ℕ) (now : ℤ) (m : TimerManager)
    → IsValid m
    → ((expired_timers now m ≡ [])
        × ((list_expired_cb p now m).0 ≡ [])
        × ((list_expired_cb p now m).1.heap ≡ m.heap)
        × ((list_expired_cb p now m).1.timers ≡ m.timers))
      ⊎ (list_expired_cb p now m ≡ take_expired p (rolled now m) now (checked now m))
unfolding list_expired_cb
list_expired_cases p now m v = elim (Bool-cases (is_empty m.timers)) [
  | inl e ↦
      rw (e, list_expired_cb) (inl (ground (arith, is_empty-nil m.timers e), refl, refl, refl))
  | inr e ↦ elim (Bool-cases (not (rolled now m) && first_after m.heap m.timers now)) [
    | inl f ↦
        rw (e, f, list_expired_cb)
          (inl (ground (arith, first_after-filter m.heap now m.timers v.sorted), refl, refl, refl))
    | inr f ↦ rw (e, f, list_expired_cb) (inr refl)
  ]
]
