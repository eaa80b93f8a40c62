-- ===== src/Timer/Rearm.antt =====
-- The loop of `listExpiredCb` over the expired timers: what it leaves in memory and in the set.
use my_coroutine.Common.{
  ℕ, Bool, ◌≡◌, refl, true, false, ◌&&◌, ◌||◌, none, List, [], ◌∷◌, arith, ◌==◌, if◌then◌else◌,
  if_cases,
}
use my_coroutine.Common.Int.{ℤ, ◌+ℤ◌}
use my_coroutine.OrderedSet.{member, insert}
use my_coroutine.OrderedSet.Order.{IsSorted, IsStrictOrder}
use my_coroutine.OrderedSet.Laws.{insert-IsSorted, member-insert, not-member_of_After}
use my_coroutine.Timer.{TimerManager, less, put, rearm, rearm_one}
use my_coroutine.Timer.Comparator.{Timer, comparator-IsStrictOrder}
use my_coroutine.Timer.Heap.{put_other-IsSorted}

-- A timer after it has expired: a recurring one is armed anew, any other loses its callback.
abbrev pub expired_timer : ℤ → Timer → Timer
expired_timer now t =
    if t.recurring then record t { next = now +ℤ t.ms } else record t { cb = none }

rearm_one-heap :
    (now : ℤ) (a b : ℕ) (m : TimerManager)
    → (rearm_one now a m).heap b ≡ (if a == b then expired_timer now (m.heap b) else m.heap b)
unfolding rearm_one
rearm_one-heap now a b m = ground arith

rearm_one-member :
    (now : ℤ) (a b : ℕ) (m : TimerManager)
    → member b (rearm_one now a m).timers ≡ (member b m.timers || (b == a && (m.heap b).recurring))
unfolding rearm_one
rearm_one-member now a b m =
    ground (arith, member-insert (less again) (comparator-IsStrictOrder again) b a m.timers)
  where
    again : ℕ → Timer
    again = put m.heap a (record (m.heap a) { next = now +ℤ (m.heap a).ms })

rearm_one-IsSorted :
    (now : ℤ) (a : ℕ) (m : TimerManager)
    → member a m.timers ≡ false
    → IsSorted (less m.heap) m.timers
    → IsSorted (less (rearm_one now a m).heap) (rearm_one now a m).timers
unfolding rearm_one
rearm_one-IsSorted now a m out s =
    if_cases (λ (n : TimerManager). IsSorted (less n.heap) n.timers) (m.heap a).recurring
      {x = record m { heap = again; timers = insert (less again) a m.timers }}
      {y = record m { heap = put m.heap a (record (m.heap a) { cb = none }) }}
      (λ _.
        insert-IsSorted (less again) (comparator-IsStrictOrder again) a m.timers
          (put_other-IsSorted m.heap a _ m.timers out s))
      (λ _. put_other-IsSorted m.heap a _ m.timers out s)
  where
    again : ℕ → Timer
    again = put m.heap a (record (m.heap a) { next = now +ℤ (m.heap a).ms })

module _ (order : ℕ → ℕ → Bool) (o : IsStrictOrder order) (now : ℤ) where
  pub rearm-heap :
      (b : ℕ) (es : List ℕ) (m : TimerManager)
      → IsSorted order es
      → (rearm now es m).heap b ≡ (if member b es then expired_timer now (m.heap b) else m.heap b)
  unfolding rearm
  rearm-heap b [] m s = refl
  rearm-heap b (a ∷ es) m s = ground (
    arith,
    rearm-heap b es (rearm_one now a m) s.1,
    rearm_one-heap now a b m,
    not-member_of_After order o a es s.0,
  )

  pub rearm-member :
      (b : ℕ) (es : List ℕ) (m : TimerManager)
      → IsSorted order es
      → member b (rearm now es m).timers
        ≡ (member b m.timers || (member b es && (m.heap b).recurring))
  unfolding rearm
  rearm-member b [] m s = ground arith
  rearm-member b (a ∷ es) m s = ground (
    arith,
    rearm-member b es (rearm_one now a m) s.1,
    rearm_one-member now a b m,
    rearm_one-heap now a b m,
    not-member_of_After order o a es s.0,
  )

  pub rearm-IsSorted :
      (es : List ℕ) (m : TimerManager)
      → IsSorted order es
      → ((b : ℕ) → member b es ≡ true → member b m.timers ≡ false)
      → IsSorted (less m.heap) m.timers
      → IsSorted (less (rearm now es m).heap) (rearm now es m).timers
  unfolding rearm
  rearm-IsSorted [] m s apart t = t
  rearm-IsSorted (a ∷ es) m s apart t =
      rearm-IsSorted es (rearm_one now a m) s.1
        (λ b i.
          ground
            (arith, i, apart b, rearm_one-member now a b m, not-member_of_After order o a es s.0))
        (rearm_one-IsSorted now a m (apart a (ground arith)) t)
