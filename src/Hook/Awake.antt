-- ===== src/Hook/Awake.antt =====
-- A fiber that sleeps, and the idle fiber that puts it back into the queue: sleep of Hook.cpp together
-- with a round of IOManager::idle.
use my_coroutine.Common.{
  ℕ, ◌*◌, ◌%◌, ◌^◌, ◌≡◌, refl, sym, ap, subst, ◌∙◌, true, false, ◌==◌, Option, none, some, List, [],
  ◌∷◌, ◌++◌, arith, ok, inl, inr, Bool-cases, append_assoc,
}
use my_coroutine.Common.Int.{ℤ, pos, ◌+ℤ◌, leb_ℤ}
use my_coroutine.Callback.{Callback, wake_fiber}
use my_coroutine.OrderedSet.{member}
use my_coroutine.Scheduler.{ScheduleTask, cb_task, any_thread}
use my_coroutine.Timer.Comparator.{Timer}
use my_coroutine.Timer.{TimerManager, callbacks, get_next_timer, list_expired_cb}
use my_coroutine.Timer.Validity.{IsValid, add_timer-IsValid, get_next_timer-IsValid}
use my_coroutine.Timer.Expiry.{expired_timers}
use my_coroutine.Timer.Fires.{list_expired_cb-callbacks, member-expired}
use my_coroutine.IoManager.Idle.{Loop, Answers, io_stopping, idle_round}
use my_coroutine.IoManager.Idle.Rounds.{cb_tasks, io_stopping_complete, idle_round_continues}
use my_coroutine.Hook.{World, Here, Wait}
use my_coroutine.Hook.Calls.{sleep, sleep_ms}
use my_coroutine.Hook.Sleeping.{
  Holds, callbacks-member, sleep_timers, sleep_timers-IsAdded, sleep_returns,
}

Holds-append {ℓ} : {A : Type ℓ} (x : A) (xs ys : List A) → Holds x ys → Holds x (xs ++ ys)
Holds-append x xs ys (before, after, same) =
    (xs ++ before, after, ap (λ zs. xs ++ zs) same ∙ sym (append_assoc xs before (x ∷ after)))

cb_tasks-Holds :
    (cb : Callback) (before after : List (Option Callback))
    → Holds (cb_task (some cb) any_thread) (cb_tasks (before ++ some cb ∷ after))
cb_tasks-Holds cb [] after = ([], cb_tasks after, refl)
cb_tasks-Holds cb (none ∷ before) after = cb_tasks-Holds cb before after
cb_tasks-Holds cb (some c ∷ before) after =
    let (front, back, same) = cb_tasks-Holds cb before after in
    (cb_task (some c) any_thread ∷ front, back, ap (◌∷◌ (cb_task (some c) any_thread)) same)

queued-Holds :
    (cb : Callback) (tasks : List ScheduleTask) (cbs : List (Option Callback))
    → Holds (some cb) cbs
    → Holds (cb_task (some cb) any_thread) (tasks ++ cb_tasks cbs)
queued-Holds cb tasks cbs (before, after, same) =
    Holds-append (cb_task (some cb) any_thread) tasks (cb_tasks cbs)
      (rw same (cb_tasks-Holds cb before after))

-- An IOManager with a timer does not stop.
not_stopping :
    (now : ℤ) (a : ℕ) (l : Loop)
    → IsValid l.timers
    → member a l.timers.timers ≡ true
    → (io_stopping now l).0 ≡ false
not_stopping now a l v i = elim (Bool-cases (io_stopping now l).0) [
  | inr go ↦ go
  | inl stop ↦
      let (empty, _, _, _, _) = io_stopping_complete now l v stop in
      absurd (no_member (rw empty at i))
]
  where
    no_member : member a [] ≡ true → ⊥
    no_member h = ground (arith, h)

-- The callback of the sleeping fiber is handed out, after the timers have been asked.
asked_callback :
    (f seconds p : ℕ) (a : Wait) (asked_at now : ℤ) (w : World)
    → IsValid (sleep_timers f seconds a w)
    → member p w.loop.timers.timers ≡ false
    → (p == a.timer) ≡ false
    → leb_ℤ (a.now +ℤ pos (seconds * 1000 % 2 ^ 32)) now ≡ true
    → Holds
        (some (wake_fiber f))
        (list_expired_cb p now (get_next_timer asked_at (sleep_timers f seconds a w)).1).0
unfolding get_next_timer
asked_callback f seconds p a asked_at now w valid fresh_p other passed =
    let m : TimerManager = (get_next_timer asked_at (sleep_timers f seconds a w)).1 in
    let added = sleep_timers-IsAdded f seconds a w in
    let members = added.members in
    let cb = ap (λ (t : Timer). t.cb) added.timer in
    let expired : member a.timer (expired_timers now m) ≡ true = ground (
      arith,
      member-expired now m a.timer,
      members a.timer,
      ap (λ (t : Timer). t.next) added.timer,
      passed,
    ) in
    let due_callbacks : List (Option Callback) = callbacks m.heap (expired_timers now m) in
    let held : Holds (some (wake_fiber f)) due_callbacks =
      subst (λ c. Holds c due_callbacks) cb
        (callbacks-member m.heap a.timer (expired_timers now m) expired) in
    rw
      (list_expired_cb-callbacks p now m (ground (arith, members p, fresh_p, other))
        (get_next_timer-IsValid asked_at (sleep_timers f seconds a w) valid))
      held

-- sleep with the hook enabled, in a fiber of an IOManager with valid timers, at fresh addresses and
-- where tickle can write to the pipe: the next round of idle, if it has nothing before it that
-- changes the manager and epoll_wait returns once the seconds, as milliseconds modulo 2^32, are
-- over, is not the last, and puts the task that wakes the fiber into the queue.
pub sleep_queued :
    (here : Here) (f left seconds : ℕ) (a : Wait) (r : Answers) (w : World)
    → w.enabled ≡ true
    → here.has_iom ≡ true
    → a.wrote ≡ true
    → r.wrote ≡ true
    → IsValid w.loop.timers
    → member a.timer w.loop.timers.timers ≡ false
    → member r.now_timer w.loop.timers.timers ≡ false
    → (r.now_timer == a.timer) ≡ false
    → leb_ℤ (a.now +ℤ pos (seconds * 1000 % 2 ^ 32)) r.woken_at ≡ true
    → (asleep : World) × (sleep here f left seconds a w ≡ ok (0, a.after asleep))
      × (timeout : ℤ) × (u : Loop) × (idle_round r asleep.loop ≡ ok (some timeout, u))
      × Holds (cb_task (some (wake_fiber f)) any_thread) u.sched.tasks
unfolding io_stopping
sleep_queued here f left seconds a r w on iom wrote wrote' valid fresh fresh_p other passed =
    let m : TimerManager = sleep_timers f seconds a w in
    let valid_m : IsValid m =
      add_timer-IsValid a.timer (pos (sleep_ms seconds)) (some (wake_fiber f)) false a.now
        w.loop.timers fresh valid in
    let members = (sleep_timers-IsAdded f seconds a w).members in
    let (k, e) = sleep_returns here f left seconds a w on iom wrote in
    let l : Loop = record w.loop { timers = m; tickled = k } in
    let waiting : member a.timer m.timers ≡ true = ground (arith, members a.timer) in
    let (u, e', _, _, sched) =
      idle_round_continues r l wrote' (not_stopping r.asked_at a.timer l valid_m waiting) in
    (
      record w { loop = l },
      e,
      _,
      u,
      e',
      rw sched (
          queued-Holds (wake_fiber f) l.sched.tasks _ (
            asked_callback f seconds r.now_timer a r.asked_at r.woken_at w valid_m fresh_p other
              passed)),
    )
