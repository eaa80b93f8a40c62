-- ===== src/IoManager/Register.antt =====
-- addEvent of IOManager.cpp, within the vector of contexts and beyond it.
use my_coroutine.Common.{
  ℕ, zero, suc, ◌+◌, ◌≤◌, ◌≡◌, ◌≢◌, refl, ap, Bool, true, false, inl, inr, Option, none, some, List,
  [], ◌∷◌, ◌++◌, arith, is_some, length, get_elem?, set, get_elem?-set, ok, err, out_of_bounds,
  Bool-cases,
}
use my_coroutine.Common.Int.{pos}
use my_coroutine.Common.Family.{update}
use my_coroutine.Callback.{Callback}
use my_coroutine.Scheduler.{ScheduleTask, cb_task, any_thread}
use my_coroutine.IoManager.{
  IoManager, Caller, one_more, filled, register, add_event, cancel_event, context_resize,
  resize_from, grown_size, grown,
}
use my_coroutine.IoManager.FdContexts.{
  Event, none_event, read, write, has, with_event, size, EventContext, FdContext, set_event_context,
  event_task,
}
use my_coroutine.IoManager.Validity.{
  ValidContext, Valid, registered-le, replaced-Valid, get_elem?-length,
}
use my_coroutine.IoManager.Cancel.{context_for, cancel_event_registered}

-- The context with the event `event` registered.
abbrev pub added : Event → EventContext → FdContext → FdContext
added event ctx c = set_event_context event ctx (record c { events = with_event event c.events })

added-ValidContext :
    (event : Event) (ctx : EventContext) (c : FdContext)
    → ValidContext c
    → is_some ctx.scheduler ≡ true
    → ValidContext (added event ctx c)
added-ValidContext none_event ctx c v h = v
added-ValidContext read ctx c v h = record {
  read_blank = λ e. cc;
  write_blank = v.write_blank;
  read_set = λ e. h;
  write_set = v.write_set;
}
added-ValidContext write ctx c v h = record {
  read_blank = v.read_blank;
  write_blank = λ e. cc;
  read_set = v.read_set;
  write_set = λ e. h;
}

filled_scheduler :
    (caller : Caller) (cb : Option Callback) (ctx : EventContext)
    → filled caller cb ≡ ok ctx
    → ctx.scheduler ≡ caller.scheduler
filled_scheduler caller none ctx e = elim (Bool-cases caller.fiber_running) [
  | inl r ↦ ground (arith, e, r)
  | inr r ↦ ground (arith, e, r)
]
filled_scheduler caller (some f) ctx e = ground (arith, e)

module _ (n : ℕ) (m : IoManager) (v : Valid m) {c : FdContext}
    (here : get_elem? m.contexts n ≡ some c) where
  pub added-Valid :
      (event : Event) (ctx : EventContext)
      → size (added event ctx c).events ≡ size c.events + 1
      → is_some ctx.scheduler ≡ true
      → Valid (record m {
        contexts = set m.contexts n (added event ctx c);
        watched = update m.watched n (added event ctx c).events;
        pending = one_more m.pending;
      })
  added-Valid event ctx new h =
      replaced-Valid m n c (added event ctx c) (one_more m.pending) m.scheduled v here
        (added-ValidContext event ctx c (v.contexts_valid n c here) h)
        (omega (arith, new, v.small, v.counted, registered-le m.contexts))

  grown_same : grown n m ≡ m
  unfolding grown
  grown_same = ground (arith, get_elem?-length m.contexts n c here)

  add_event-register :
      (caller : Caller) (event : Event) (cb : Option Callback)
      → add_event true caller (pos n) event cb m ≡ register true caller n event cb c m
  unfolding add_event
  add_event-register caller event cb =
      rw (add_event, grown_same, here) (ap (register true caller n event cb c) grown_same)

  -- addEvent of an event that is not registered, on valid contexts, within the vector, with a
  -- callback or from a running fiber, by a caller that has a scheduler, where epoll agrees: the
  -- event is registered and watched with the scheduler of the caller and the callback or fiber, the
  -- count of pending events is one more, and the contexts stay valid.
  pub add_event_registers :
      (caller : Caller) (event : Event) (cb : Option Callback) (ctx : EventContext)
      → event ≢ none_event
      → has event c.events ≡ false
      → filled caller cb ≡ ok ctx
      → is_some caller.scheduler ≡ true
      → (add_event true caller (pos n) event cb m
          ≡ ok (
            true,
            record m {
              contexts = set m.contexts n (added event ctx c);
              watched = update m.watched n (with_event event c.events);
              pending = one_more m.pending;
            },
          ))
        × Valid (record m {
          contexts = set m.contexts n (added event ctx c);
          watched = update m.watched n (with_event event c.events);
          pending = one_more m.pending;
        })
  unfolding register
  add_event_registers caller none_event cb ctx some_event new fill h = absurd (some_event refl)
  add_event_registers caller read cb ctx some_event new fill h = (
    rw (add_event-register, register, new, (v.contexts_valid n c here).read_blank new, fill) refl,
    added-Valid read ctx (ground arith) (cc (filled_scheduler caller cb ctx fill, h)),
  )
  add_event_registers caller write cb ctx some_event new fill h = (
    rw (add_event-register, register, new, (v.contexts_valid n c here).write_blank new, fill) refl,
    added-Valid write ctx (ground arith) (cc (filled_scheduler caller cb ctx fill, h)),
  )

  pub added_here :
      (event : Event) (ctx : EventContext)
      → get_elem? (set m.contexts n (added event ctx c)) n ≡ some (added event ctx c)
  added_here event ctx = ground (
    arith,
    get_elem?-set m.contexts n n (added event ctx c),
    get_elem?-length m.contexts n c here,
  )

  pub has-added :
      (event : Event) (ctx : EventContext)
      → event ≢ none_event
      → has event (added event ctx c).events ≡ true
  has-added none_event ctx h = absurd (h refl)
  has-added read ctx h = refl
  has-added write ctx h = refl

  pub added-handed :
      (event : Event) (ctx : EventContext)
      → event ≢ none_event
      → (t s : ℕ) → (context_for event (added event ctx c)).scheduler ≡ some t
      → ctx.scheduler ≡ some s
      → ◌≡◌ {A = ℕ × ScheduleTask}
          (t, event_task (context_for event (added event ctx c)))
          (s, event_task ctx)
  added-handed none_event ctx h t s to from = absurd (h refl)
  added-handed read ctx h t s to from = cc
  added-handed write ctx h t s to from = cc

  -- On valid contexts, for a descriptor within the vector, an event that is not registered, a
  -- caller with a scheduler, and where epoll agrees: what addEvent registered with a callback,
  -- cancelEvent hands to the scheduler it was added from, and nothing else; the count of pending
  -- events is what it was, and the contexts are valid.
  cancel_event-add_event :
      (caller : Caller) (event : Event) (f : Callback) (s : ℕ)
      → event ≢ none_event
      → has event c.events ≡ false
      → caller.scheduler ≡ some s
      → (m₁ m₂ : IoManager) × (add_event true caller (pos n) event (some f) m ≡ ok (true, m₁))
        × (cancel_event true true (pos n) event m₁ ≡ ok (true, m₂))
        × (m₂.scheduled ≡ m.scheduled ++ (s, cb_task (some f) any_thread) ∷ [])
        × (m₂.pending ≡ m.pending)
        × Valid m₂
  cancel_event-add_event caller event f s some_event new from =
      let ctx : EventContext = record { scheduler = caller.scheduler; fiber = none; cb = some f } in
      let (e, v₁) = add_event_registers caller event (some f) ctx some_event new refl (cc (from)) in
      let (t, to, e', v₂) =
        cancel_event_registered n _ v₁ (added_here event ctx) event
          (has-added event ctx some_event) in
      (
        _,
        _,
        e,
        e',
        ap (λ entry. m.scheduled ++ entry ∷ []) (added-handed event ctx some_event t s to from),
        omega (arith, v.small, v.counted, registered-le m.contexts),
        v₂,
      )

resize_from-beyond :
    (i size n : ℕ) (cs : List FdContext) → size ≤ n → get_elem? (resize_from i size cs) n ≡ none
unfolding resize_from
resize_from-beyond i zero n cs h = refl
resize_from-beyond i (suc size) zero cs h = absurd (omega arith)
resize_from-beyond i (suc size) (suc n) [] h = resize_from-beyond (suc i) size n [] (omega arith)
resize_from-beyond i (suc size) (suc n) (c ∷ cs) h =
    resize_from-beyond (suc i) size n cs (omega arith)

grown_beyond :
    (n : ℕ) (m : IoManager) → length m.contexts ≤ n → get_elem? (grown n m).contexts n ≡ none
unfolding grown context_resize
grown_beyond n m h = ground (arith, resize_from-beyond 0 (grown_size n) n m.contexts (ground arith))

-- addEvent of a descriptor beyond the vector always reads out of bounds.
pub add_event_beyond :
    (epoll : Bool) (caller : Caller) (n : ℕ) (event : Event) (cb : Option Callback) (m : IoManager)
    → length m.contexts ≤ n
    → add_event epoll caller (pos n) event cb m ≡ err out_of_bounds
unfolding add_event
add_event_beyond epoll caller n event cb m h = rw (add_event, grown_beyond n m h) refl
