-- ===== src/Timer/Validity.antt =====
-- An invariant of a TimerManager, between two calls of Timer.cpp.
use my_coroutine.Common.{
  ℕ, Bool, ◌≡◌, refl, true, false, not, ◌&&◌, Option, none, List, arith, ◌==◌, if◌then◌else◌,
  is_some, Returns, if_cases, ok, inl, inr, Bool-cases,
}
use my_coroutine.Common.Int.{ℤ, ◌+ℤ◌, ◌-ℤ◌, eqb_ℤ}
use my_coroutine.Callback.{Callback}
use my_coroutine.OrderedSet.{member, insert, find, erase}
use my_coroutine.OrderedSet.Order.{IsSorted}
use my_coroutine.OrderedSet.Laws.{
  insert-IsSorted, member-insert, find-member, erase-IsSorted, member-erase,
}
use my_coroutine.Timer.{
  TimerManager, less, put, new_timer, timer_manager, insert_timer, add_timer, cancel, refresh,
  reset, get_next_timer,
}
use my_coroutine.Timer.Comparator.{Timer, comparator-IsStrictOrder}
use my_coroutine.Timer.Heap.{put_other-IsSorted, put_same-IsSorted}

-- The set is in order, and a timer that has a callback is in it.
pub record IsValid (m : TimerManager) : Type 0 where
  pub sorted : IsSorted (less m.heap) m.timers
  pub armed : (a : ℕ) → member a m.timers ≡ false → (m.heap a).cb ≡ none

pub timer_manager-IsValid :
    (heap : ℕ → Timer) (now : ℤ) → ((a : ℕ) → (heap a).cb ≡ none) → IsValid (timer_manager heap now)
unfolding timer_manager
timer_manager-IsValid heap now blank = record { sorted = tt; armed = λ a _. blank a }

-- After a write to a timer that is not in the set, inserting it restores the invariant.
pub insert-put-IsValid :
    (a : ℕ) (t : Timer) (xs : List ℕ) (m : TimerManager)
    → IsSorted (less m.heap) xs
    → member a xs ≡ false
    → ((b : ℕ) → (a == b) ≡ false → member b xs ≡ false → (m.heap b).cb ≡ none)
    → IsValid (record m { heap = put m.heap a t; timers = insert (less (put m.heap a t)) a xs })
insert-put-IsValid a t xs m s out armed = record {
  sorted =
      insert-IsSorted (less (put m.heap a t)) (comparator-IsStrictOrder (put m.heap a t)) a xs
        (put_other-IsSorted m.heap a t xs out s);
  armed = λ b n. ground (
    arith,
    armed b,
    n,
    member-insert (less (put m.heap a t)) (comparator-IsStrictOrder (put m.heap a t)) b a xs,
  );
}

pub insert_timer-IsValid :
    (a : ℕ) (t : Timer) (m : TimerManager)
    → member a m.timers ≡ false
    → IsValid m
    → IsValid (insert_timer a (record m { heap = put m.heap a t })).1
unfolding insert_timer
insert_timer-IsValid a t m out v =
    let v' = insert-put-IsValid a t m.timers m v.sorted out (λ b _. v.armed b) in
    record { sorted = v'.sorted; armed = v'.armed }

pub add_timer-IsValid :
    (a : ℕ) (ms : ℤ) (cb : Option Callback) (recurring : Bool) (now : ℤ) (m : TimerManager)
    → member a m.timers ≡ false
    → IsValid m
    → IsValid (add_timer a ms cb recurring now m).1
unfolding add_timer
add_timer-IsValid a ms cb recurring now m out v =
    insert_timer-IsValid a (new_timer ms cb recurring now) m out v

-- A timer that is taken out, written and put back.
moved-IsValid :
    (a : ℕ) (t : Timer) (m : TimerManager)
    → IsValid m
    → IsValid (record m {
      heap = put m.heap a t;
      timers = insert (less (put m.heap a t)) a (erase (less m.heap) a m.timers);
    })
moved-IsValid a t m v =
    insert-put-IsValid a t (erase (less m.heap) a m.timers) m
      (erase-IsSorted (less m.heap) (comparator-IsStrictOrder m.heap) a m.timers v.sorted)
      (ground (arith, gone a)) (λ b n o. v.armed b (ground (arith, gone b)))
  where
    gone : (b : ℕ) → member b (erase (less m.heap) a m.timers) ≡ (not (b == a) && member b m.timers)
    gone b = member-erase (less m.heap) (comparator-IsStrictOrder m.heap) b a m.timers v.sorted

pub refresh-IsValid : (a : ℕ) (now : ℤ) (m : TimerManager) → IsValid m → IsValid (refresh a now m).1
unfolding refresh
refresh-IsValid a now m v = elim (Bool-cases (is_some (m.heap a).cb)) [
  | inl e ↦ elim (Bool-cases (is_some (find (less m.heap) a m.timers))) [
    | inl f ↦ rw (e, f) (moved-IsValid a (record (m.heap a) { next = now +ℤ (m.heap a).ms }) m v)
    | inr f ↦ rw (e, f) v
  ]
  | inr e ↦ rw e v
]

reinserted-IsValid :
    (a : ℕ) (t : Timer) (m : TimerManager)
    → IsValid m
    → IsValid
        (insert_timer a
          (record m { heap = put m.heap a t; timers = erase (less m.heap) a m.timers })).1
unfolding insert_timer
reinserted-IsValid a t m v =
    let moved = moved-IsValid a t m v in record { sorted = moved.sorted; armed = moved.armed }

pub reset-IsValid :
    (a : ℕ) (ms : ℤ) (from_now : Bool) (now : ℤ) (m : TimerManager)
    → IsValid m
    → IsValid (reset a ms from_now now m).2
unfolding reset
reset-IsValid a ms from_now now m v = elim (Bool-cases (eqb_ℤ (m.heap a).ms ms && not from_now)) [
  | inl s ↦ rw s v
  | inr s ↦ elim (Bool-cases (is_some (m.heap a).cb)) [
    | inl e ↦ elim (Bool-cases (is_some (find (less m.heap) a m.timers))) [
      | inl f ↦
          rw (s, e, f)
            (reinserted-IsValid a
              (record (m.heap a) {
                ms = ms;
                next = (if from_now then now else (m.heap a).next -ℤ ms) +ℤ ms;
              })
              m v)
      | inr f ↦ rw (s, e, f) v
    ]
    | inr e ↦ rw (s, e) v
  ]
]

pub member_of_armed :
    (a : ℕ) (m : TimerManager) → IsValid m → is_some (m.heap a).cb ≡ true → member a m.timers ≡ true
member_of_armed a m v e = ground (arith, v.armed a)

-- The manager that a cancellation leaves.
abbrev pub cancelled : ℕ → TimerManager → TimerManager
cancelled a m =
    let heap = put m.heap a (record (m.heap a) { cb = none }) in
    record m { heap = heap; timers = erase (less heap) a m.timers }

cancelled-IsSorted :
    (a : ℕ) (m : TimerManager) → IsValid m → IsSorted (less (cancelled a m).heap) m.timers
cancelled-IsSorted a m v =
    put_same-IsSorted m.heap a (record (m.heap a) { cb = none }) m.timers refl v.sorted

pub member-cancelled :
    (a b : ℕ) (m : TimerManager)
    → IsValid m
    → member b (cancelled a m).timers ≡ (not (b == a) && member b m.timers)
member-cancelled a b m v =
    member-erase (less (cancelled a m).heap) (comparator-IsStrictOrder (cancelled a m).heap) b a
      m.timers (cancelled-IsSorted a m v)

pub cancelled-IsValid : (a : ℕ) (m : TimerManager) → IsValid m → IsValid (cancelled a m)
cancelled-IsValid a m v = record {
  sorted =
      erase-IsSorted (less (cancelled a m).heap) (comparator-IsStrictOrder (cancelled a m).heap) a
        m.timers (cancelled-IsSorted a m v);
  armed = λ b n. ground (arith, member-cancelled a b m v, v.armed b, n);
}

-- On a valid manager `cancel` returns, and never erases `end()`: a timer that has a callback is
-- disarmed and taken out of the set; any other is left alone.
pub cancel_total :
    (a : ℕ) (m : TimerManager)
    → IsValid m
    → cancel a m ≡ (if is_some (m.heap a).cb then ok (true, cancelled a m) else ok (false, m))
unfolding cancel
cancel_total a m v = elim (Bool-cases (is_some (m.heap a).cb)) [
  | inl e ↦ rw (
    e,
    find-member (less (cancelled a m).heap) (comparator-IsStrictOrder (cancelled a m).heap) a
        m.timers (cancelled-IsSorted a m v),
    member_of_armed a m v e,
  )
  | inr e ↦ rw e
]

pub cancel-IsValid :
    (a : ℕ) (m : TimerManager) → IsValid m → Returns (λ r. IsValid r.1) (cancel a m)
cancel-IsValid a m v = rw (cancel_total a m v) (
    if_cases (Returns (λ (r : Bool × TimerManager). IsValid r.1)) (is_some (m.heap a).cb)
      (λ _. cancelled-IsValid a m v) (λ _. v))

pub get_next_timer-IsValid :
    (now : ℤ) (m : TimerManager) → IsValid m → IsValid (get_next_timer now m).1
unfolding get_next_timer
get_next_timer-IsValid now m v = record { sorted = v.sorted; armed = v.armed }
