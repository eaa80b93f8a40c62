-- ===== src/IoManager/Waiters/Adding.antt =====
-- addEvent of IOManager.cpp, and the waiters.
use my_coroutine.Common.{
  ℕ, ◌+◌, ◌≡◌, refl, sym, ap, subst, ◌≢◌, Bool, true, false, Option, none, some, [], ◌∷◌, arith,
  length, get_elem?, set, Result, ok, Ensures, Ensures-bind, anyway, guard, ◌>>=◌, ◌>>◌, inl, inr,
  Bool-cases, Option-cases,
}
use native.Mathlib.Decide.{dec_lt}
use my_coroutine.Common.Int.{ℤ, pos, negsuc}
use my_coroutine.Common.Family.{update}
use my_coroutine.Callback.{Callback}
use my_coroutine.Scheduler.{cb_task, fiber_task, any_thread}
use my_coroutine.IoManager.{
  IoManager, Caller, add_event, one_more, register, filled, is_blank, grown,
}
use my_coroutine.IoManager.FdContexts.{
  Event, none_event, read, write, has, with_event, EventContext, FdContext, event_task,
  set_event_context,
}
use my_coroutine.IoManager.Cancel.{context_for}
use my_coroutine.IoManager.Register.{add_event_beyond}
use my_coroutine.IoManager.Waiters.{Waiter, tally, held, known, waiting-set}
use my_coroutine.IoManager.Waiters.Calls.{if_done}

-- The waiter that addEvent adds.
abbrev pub waiter : Caller → Option Callback → Waiter
waiter caller none = (caller.scheduler, fiber_task (some caller.fiber) any_thread)
waiter caller (some cb) = (caller.scheduler, cb_task (some cb) any_thread)

abbrev pub Adds : Waiter → IoManager → Bool × IoManager → Type 0
Adds w m r = (q : Waiter → Bool) → known q r.1 ≡ known q m + tally q (if_done r.0 (w ∷ []))

pub filled-waiter :
    (caller : Caller) (cb : Option Callback)
    → Ensures (λ ctx. (ctx.scheduler, event_task ctx) ≡ waiter caller cb) (filled caller cb)
filled-waiter caller (some cb) = refl
filled-waiter caller none = elim (Bool-cases caller.fiber_running) [
  | inl r ↦ rw r refl
  | inr r ↦ rw r tt
]

held-set :
    (q : Waiter → Bool) (event : Event) (ctx : EventContext) (c : FdContext)
    → event ≢ none_event
    → has event c.events ≡ false
    → held q (set_event_context event ctx (record c { events = with_event event c.events }))
      ≡ held q c + tally q ((ctx.scheduler, event_task ctx) ∷ [])
unfolding tally
held-set q none_event ctx c some_event h = absurd (some_event refl)
held-set q read ctx c some_event h = ground (arith, h)
held-set q write ctx c some_event h = ground (arith, h)

-- addEvent once epoll has agreed
filled-Adds :
    (caller : Caller) (n : ℕ) (event : Event) (cb : Option Callback) (c : FdContext) (m : IoManager)
    → get_elem? m.contexts n ≡ some c
    → event ≢ none_event
    → has event c.events ≡ false
    → (old : EventContext)
    → Ensures (Adds (waiter caller cb) m) (do
      guard (is_blank old)
      ctx ← filled caller cb
      let left = record c { events = with_event event c.events }
      ok (
        true,
        record m {
          contexts = set m.contexts n (set_event_context event ctx left);
          watched = update m.watched n (with_event event c.events);
          pending = one_more m.pending;
        },
      ))
filled-Adds caller n event cb c m here some_event new old =
    let left : FdContext = record c { events = with_event event c.events } in
    let end : EventContext → Result (Bool × IoManager) = λ ctx. ok (
      true,
      record m {
        contexts = set m.contexts n (set_event_context event ctx left);
        watched = update m.watched n (with_event event c.events);
        pending = one_more m.pending;
      },
    ) in
    Ensures-bind (λ _. Unit {0}) (Adds (waiter caller cb) m) (guard (is_blank old))
      (λ _. filled caller cb >>= end) (anyway (guard (is_blank old)))
      (λ _ _.
        Ensures-bind (λ ctx. (ctx.scheduler, event_task ctx) ≡ waiter caller cb)
          (Adds (waiter caller cb) m) (filled caller cb) end (filled-waiter caller cb)
          (λ ctx same q. omega (
            arith,
            waiting-set q m.contexts n c (set_event_context event ctx left) here,
            held-set q event ctx c some_event new,
            ap (λ w. tally q (w ∷ [])) same,
          )))

register-Adds :
    (epoll : Bool) (caller : Caller) (n : ℕ) (event : Event) (cb : Option Callback) (c : FdContext)
    (m : IoManager)
    → get_elem? m.contexts n ≡ some c
    → Ensures (Adds (waiter caller cb) m) (register epoll caller n event cb c m)
unfolding register tally
register-Adds epoll caller n none_event cb c m here = elim (Bool-cases epoll) [
  | inl agrees ↦ rw (register, agrees) tt
  | inr refuses ↦ rw (register, refuses) (λ q. omega arith)
]
register-Adds epoll caller n event cb c m here = elim (Bool-cases (has event c.events)) [
  | inl registered ↦ rw (register, registered) tt
  | inr new ↦ elim (Bool-cases epoll) [
    | inl agrees ↦
        rw (register, new, agrees)
          (filled-Adds caller n event cb c m here (λ e. cc) new (context_for event c))
    | inr refuses ↦ rw (register, new, refuses) (λ q. omega arith)
  ]
]

pub add_event-Adds :
    (epoll : Bool) (caller : Caller) (fd : ℤ) (event : Event) (cb : Option Callback) (m : IoManager)
    → Ensures (Adds (waiter caller cb) m) (add_event epoll caller fd event cb m)
unfolding add_event grown
add_event-Adds epoll caller (negsuc n) event cb m = tt
add_event-Adds epoll caller (pos n) event cb m = elim (dec_lt n (length m.contexts)) [
  | no beyond ↦ rw (add_event_beyond epoll caller n event cb m (omega arith)) tt
  | yes within ↦
      let same : grown n m ≡ m = ground arith in
      elim (Option-cases (get_elem? m.contexts n)) [
        | inl e ↦ rw (add_event, same, e) tt
        | inr (c, here) ↦
            rw (add_event, same, here)
              (subst
                (λ m'. Ensures (Adds (waiter caller cb) m) (register epoll caller n event cb c m'))
                (sym same) (register-Adds epoll caller n event cb c m here))
      ]
]
