-- ===== src/IoManager/Preserved/Adding.antt =====
-- addEvent of IOManager.cpp, and the validity of the contexts after it.
use my_coroutine.Common.{
  ℕ, ◌+◌, ◌≡◌, refl, sym, subst, Bool, true, Option, none, some, arith, is_some, length, get_elem?,
  set, Result, ok, Ensures, Ensures-bind, anyway, guard, ◌>>=◌, ◌>>◌, inl, inr, Bool-cases,
  Option-cases,
}
use native.Mathlib.Decide.{dec_lt}
use my_coroutine.Common.Int.{ℤ, pos, negsuc}
use my_coroutine.Common.Family.{update}
use my_coroutine.Callback.{Callback}
use my_coroutine.IoManager.{
  IoManager, Caller, add_event, one_more, register, filled, is_blank, grown,
}
use my_coroutine.IoManager.FdContexts.{
  Event, none_event, has, size, with_event, EventContext, FdContext, event_task, set_event_context,
}
use my_coroutine.IoManager.Validity.{Valid}
use my_coroutine.IoManager.Cancel.{context_for}
use my_coroutine.IoManager.Register.{add_event_beyond, added, added-Valid}
use my_coroutine.IoManager.Waiters.Adding.{waiter, filled-waiter}

scheduler-waiter :
    (caller : Caller) (cb : Option Callback) → (waiter caller cb).0 ≡ caller.scheduler
scheduler-waiter caller none = refl
scheduler-waiter caller (some cb) = refl

-- addEvent once epoll has agreed
filled-Valid :
    (caller : Caller) (n : ℕ) (event : Event) (cb : Option Callback) (c : FdContext) (m : IoManager)
    → get_elem? m.contexts n ≡ some c
    → ((ctx : EventContext) → size (added event ctx c).events ≡ size c.events + 1)
    → ((ctx : EventContext) → (added event ctx c).events ≡ with_event event c.events)
    → is_some caller.scheduler ≡ true
    → Valid m
    → (old : EventContext)
    → Ensures
        (λ (r : Bool × IoManager). Valid r.1)
        (do
          guard (is_blank old)
          ctx ← filled caller cb
          let left = record c { events = with_event event c.events }
          ok (
            true,
            record m {
              contexts = set m.contexts n (set_event_context event ctx left);
              watched = update m.watched n (with_event event c.events);
              pending = one_more m.pending;
            },
          ))
filled-Valid caller n event cb c m here new same from v old =
    let end : EventContext → Result (Bool × IoManager) = λ ctx. ok (
      true,
      record m {
        contexts = set m.contexts n (added event ctx c);
        watched = update m.watched n (with_event event c.events);
        pending = one_more m.pending;
      },
    ) in
    Ensures-bind (λ _. Unit {0}) (λ (r : Bool × IoManager). Valid r.1) (guard (is_blank old))
      (λ _. filled caller cb >>= end) (anyway (guard (is_blank old)))
      (λ _ _.
        Ensures-bind (λ ctx. (ctx.scheduler, event_task ctx) ≡ waiter caller cb)
          (λ (r : Bool × IoManager). Valid r.1) (filled caller cb) end (filled-waiter caller cb)
          (λ ctx w.
            subst
              (λ es. Valid (record m {
                contexts = set m.contexts n (added event ctx c);
                watched = update m.watched n es;
                pending = one_more m.pending;
              }))
              (same ctx)
              (added-Valid n m v here event ctx (new ctx)
                (cc (w, scheduler-waiter caller cb, from)))))

register-Valid :
    (epoll : Bool) (caller : Caller) (n : ℕ) (event : Event) (cb : Option Callback) (c : FdContext)
    (m : IoManager)
    → get_elem? m.contexts n ≡ some c
    → is_some caller.scheduler ≡ true
    → Valid m
    → Ensures (λ r. Valid r.1) (register epoll caller n event cb c m)
unfolding register
register-Valid epoll caller n none_event cb c m here from v = elim (Bool-cases epoll) [
  | inl agrees ↦ rw (register, agrees) tt
  | inr refuses ↦ rw (register, refuses) v
]
register-Valid epoll caller n event cb c m here from v = elim (Bool-cases (has event c.events)) [
  | inl registered ↦ rw (register, registered) tt
  | inr new ↦ elim (Bool-cases epoll) [
    | inl agrees ↦
        rw (register, new, agrees)
          (filled-Valid caller n event cb c m here (λ ctx. ground (arith, new)) (λ ctx. refl) from v
            (context_for event c))
    | inr refuses ↦ rw (register, new, refuses) v
  ]
]

pub add_event-Valid :
    (epoll : Bool) (caller : Caller) (fd : ℤ) (event : Event) (cb : Option Callback) (m : IoManager)
    → is_some caller.scheduler ≡ true
    → Valid m
    → Ensures (λ r. Valid r.1) (add_event epoll caller fd event cb m)
unfolding add_event
add_event-Valid epoll caller (negsuc n) event cb m from v = tt
add_event-Valid epoll caller (pos n) event cb m from v = elim (dec_lt n (length m.contexts)) [
  | no beyond ↦ rw (add_event_beyond epoll caller n event cb m (omega arith)) tt
  | yes within ↦
      let same : grown n m ≡ m = ground arith in
      elim (Option-cases (get_elem? m.contexts n)) [
        | inl e ↦ rw (add_event, same, e) tt
        | inr (c, here) ↦
            rw (add_event, same, here)
              (subst
                (λ m'.
                  Ensures (λ (r : Bool × IoManager). Valid r.1)
                    (register epoll caller n event cb c m'))
                (sym same) (register-Valid epoll caller n event cb c m here from v))
      ]
]
