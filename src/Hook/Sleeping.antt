-- ===== src/Hook/Sleeping.antt =====
-- sleep of Hook.cpp: the timer that it makes, and the fiber that the timer wakes.
use my_coroutine.Common.{
  ℕ, ◌*◌, ◌%◌, ◌^◌, ◌≡◌, refl, sym, ap, true, false, ◌==◌, some, List, [], ◌∷◌, ◌++◌, arith, ok,
  inl, inr, Bool-cases,
}
use my_coroutine.Common.Int.{ℤ, pos, ◌+ℤ◌, leb_ℤ}
use my_coroutine.Callback.{wake_fiber}
use my_coroutine.OrderedSet.{member}
use my_coroutine.Timer.{TimerManager, add_timer, callbacks, list_expired_cb}
use my_coroutine.Timer.Comparator.{Timer}
use my_coroutine.Timer.Adding.{IsAdded, add_timer-IsAdded}
use my_coroutine.Timer.Validity.{IsValid, add_timer-IsValid}
use my_coroutine.Timer.Expiry.{expired_timers}
use my_coroutine.Timer.Fires.{list_expired_cb-callbacks, member-expired}
use my_coroutine.IoManager.Idle.{Loop}
use my_coroutine.IoManager.Idle.Rounds.{tickle_returns}
use my_coroutine.Hook.{World, Here, Wait}
use my_coroutine.Hook.Calls.{sleep, sleep_ms}

-- The element is one of the list.
abbrev pub Holds {ℓ} : {A : Type ℓ} → A → List A → Type ℓ
Holds {A = A} x xs = (before : List A) × (after : List A) × (xs ≡ before ++ x ∷ after)

pub callbacks-member :
    (heap : ℕ → Timer) (a : ℕ) (xs : List ℕ)
    → member a xs ≡ true
    → Holds (heap a).cb (callbacks heap xs)
unfolding callbacks
callbacks-member heap a [] h = ground (arith, h)
callbacks-member heap a (x ∷ xs) h = elim (Bool-cases (a == x)) [
  | inl e ↦ ([], callbacks heap xs, ground (arith, e))
  | inr e ↦
      let (before, after, same) = callbacks-member heap a xs (ground (arith, h, e)) in
      ((heap x).cb ∷ before, after, ap (◌∷◌ (heap x).cb) same)
]

-- The timers after the addTimer of sleep, in the fiber `f`.
abbrev pub sleep_timers : ℕ → ℕ → Wait → World → TimerManager
sleep_timers f seconds a w =
    (add_timer a.timer (pos (sleep_ms seconds)) (some (wake_fiber f)) false a.now w.loop.timers).1

pub sleep_timers-IsAdded :
    (f seconds : ℕ) (a : Wait) (w : World)
    → let ms = pos (sleep_ms seconds) in
      IsAdded a.timer ms
        (some (wake_fiber f))
        false
        (a.now +ℤ ms)
        w.loop.timers
        (sleep_timers f seconds a w)
sleep_timers-IsAdded f seconds a w =
    add_timer-IsAdded a.timer (pos (sleep_ms seconds)) (some (wake_fiber f)) false a.now
      w.loop.timers

pub sleep_returns :
    (here : Here) (f left seconds : ℕ) (a : Wait) (w : World)
    → w.enabled ≡ true
    → here.has_iom ≡ true
    → a.wrote ≡ true
    → (k : ℕ) × (sleep here f left seconds a w
        ≡ ok (
          0,
          a.after (record w {
            loop = record w.loop { timers = sleep_timers f seconds a w; tickled = k };
          }),
        ))
unfolding sleep
sleep_returns here f left seconds a w on iom wrote =
    let armed : Loop = record w.loop { timers = sleep_timers f seconds a w } in
    let made =
      add_timer a.timer (pos (sleep_ms seconds)) (some (wake_fiber f)) false a.now w.loop.timers in
    elim (Bool-cases made.0) [
      | inl front ↦
          let (k, e) = tickle_returns armed in (k, rw (sleep, iom, front, wrote, e, on) refl)
      | inr behind ↦ (w.loop.tickled, rw (sleep, iom, behind, on) refl)
    ]

-- sleep with the hook enabled, in a fiber of an IOManager with valid timers, at fresh addresses and
-- where tickle succeeds: it returns 0 once the fiber is resumed; the timers that it leaves are
-- valid, and are those that were there and one that is not recurring, whose period is the seconds
-- as milliseconds modulo 2^32, which ends that period from now and whose callback wakes the fiber;
-- and listExpiredCb on them hands out that callback at any time from that deadline on.
pub sleep_wakes :
    (here : Here) (f left seconds p : ℕ) (a : Wait) (now : ℤ) (w : World)
    → w.enabled ≡ true
    → here.has_iom ≡ true
    → a.wrote ≡ true
    → IsValid w.loop.timers
    → member a.timer w.loop.timers.timers ≡ false
    → member p w.loop.timers.timers ≡ false
    → (p == a.timer) ≡ false
    → leb_ℤ (a.now +ℤ pos (seconds * 1000 % 2 ^ 32)) now ≡ true
    → (asleep : World) × (sleep here f left seconds a w ≡ ok (0, a.after asleep))
      × IsValid asleep.loop.timers
      × IsAdded a.timer
          (pos (seconds * 1000 % 2 ^ 32))
          (some (wake_fiber f))
          false
          (a.now +ℤ pos (seconds * 1000 % 2 ^ 32))
          w.loop.timers
          asleep.loop.timers
      × Holds (some (wake_fiber f)) (list_expired_cb p now asleep.loop.timers).0
sleep_wakes here f left seconds p a now w on iom wrote valid fresh fresh_p other passed =
    let m : TimerManager = sleep_timers f seconds a w in
    let valid_m : IsValid m =
      add_timer-IsValid a.timer (pos (sleep_ms seconds)) (some (wake_fiber f)) false a.now
        w.loop.timers fresh valid in
    let added = sleep_timers-IsAdded f seconds a w in
    let (k, e) = sleep_returns here f left seconds a w on iom wrote in
    let expired : member a.timer (expired_timers now m) ≡ true = ground (
      arith,
      member-expired now m a.timer,
      added.members a.timer,
      ap (λ (t : Timer). t.next) added.timer,
      passed,
    ) in
    (
      record w { loop = record w.loop { timers = m; tickled = k } },
      e,
      valid_m,
      added,
      rw
          (
            list_expired_cb-callbacks p now m (ground (arith, added.members p, fresh_p, other))
                valid_m,
            sym (ap (λ (t : Timer). t.cb) added.timer),
          )
          (callbacks-member m.heap a.timer (expired_timers now m) expired),
    )
