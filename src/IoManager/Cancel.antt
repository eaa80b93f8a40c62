-- ===== src/IoManager/Cancel.antt =====
-- delEvent and cancelEvent of IOManager.cpp, on contexts that are valid.
use my_coroutine.Common.{
  ℕ, ◌+◌, ◌^◌, ◌<◌, ◌≡◌, refl, Bool, true, false, ◌&&◌, inl, inr, some, List, [], ◌∷◌, ◌++◌, arith,
  get_elem?, set, ok, ◌>>=◌, Option-cases,
}
use my_coroutine.Common.Int.{pos}
use my_coroutine.Common.Family.{update}
use my_coroutine.Scheduler.{ScheduleTask}
use my_coroutine.IoManager.{IoManager, one_less, del_event, cancel_event, fire}
use my_coroutine.IoManager.FdContexts.{
  Event, none_event, read, write, has, without, size, EventContext, FdContext, reset_event_context,
  trigger_event, event_task,
}
use my_coroutine.IoManager.Validity.{
  ValidContext, Valid, registered-le, size-le-registered, replaced-Valid,
}

-- The event context that an event stands for.
abbrev pub context_for : Event → FdContext → EventContext
context_for write c = c.write_ctx
context_for _ c = c.read_ctx

-- What triggering an event leaves of a context.
abbrev pub triggered : Event → FdContext → FdContext
triggered event c = reset_event_context event (record c { events = without event c.events })

triggered-ValidContext :
    (event : Event) (c : FdContext) → ValidContext c → ValidContext (triggered event c)
triggered-ValidContext none_event c v = v
triggered-ValidContext read c v = record {
  read_blank = λ h. refl;
  write_blank = v.write_blank;
  read_set = λ h. cc;
  write_set = v.write_set;
}
triggered-ValidContext write c v = record {
  read_blank = v.read_blank;
  write_blank = λ h. refl;
  read_set = v.read_set;
  write_set = λ h. cc;
}

size-triggered :
    (event : Event) (c : FdContext)
    → has event c.events ≡ true
    → size (triggered event c).events + 1 ≡ size c.events
size-triggered none_event c h = cc
size-triggered read c h = ground arith
size-triggered write c h = ground arith

-- An event that is registered in a valid context can be triggered: some scheduler gets its task.
trigger_registered :
    (event : Event) (c : FdContext)
    → ValidContext c
    → has event c.events ≡ true
    → (s : ℕ) × ((context_for event c).scheduler ≡ some s)
      × (trigger_event true event c ≡ ok (s, event_task (context_for event c), triggered event c))
unfolding trigger_event
trigger_registered none_event c v h = cc
trigger_registered read c v h = elim (Option-cases c.read_ctx.scheduler) [
  | inl e ↦ absurd (ground (arith, v.read_set h))
  | inr (s, e) ↦ (s, e, ground arith)
]
trigger_registered write c v h = elim (Option-cases c.write_ctx.scheduler) [
  | inl e ↦ absurd (ground (arith, v.write_set h))
  | inr (s, e) ↦ (s, e, ground arith)
]

-- The manager after one event of the context `n` has been triggered.
abbrev pub fired : ℕ → ℕ → Event → FdContext → IoManager → IoManager
fired s n event c m = record m {
  contexts = set m.contexts n (triggered event c);
  pending = one_less m.pending;
  scheduled = m.scheduled ++ (s, event_task (context_for event c)) ∷ [];
}

pub fire_registered :
    (n : ℕ) (event : Event) (c : FdContext) (m : IoManager)
    → ValidContext c
    → has event c.events ≡ true
    → (s : ℕ) × ((context_for event c).scheduler ≡ some s)
      × (fire true n event c m ≡ ok (triggered event c, fired s n event c m))
unfolding fire
fire_registered n event c m v h =
    let (s, to, e) = trigger_registered event c v h in (s, to, rw e refl)

one_less_lem : (n : ℕ) → n < 2 ^ 64 → 0 < n → one_less n + 1 ≡ n
one_less_lem n h k = omega arith

-- Without the event, by whatever call: the count stays that of the registered events.
pub dropped-Valid :
    (m : IoManager) (n : ℕ) (event : Event) (c : FdContext) (scheduled : List (ℕ × ScheduleTask))
    → Valid m
    → get_elem? m.contexts n ≡ some c
    → has event c.events ≡ true
    → Valid (record m {
      contexts = set m.contexts n (triggered event c);
      watched = update m.watched n (triggered event c).events;
      pending = one_less m.pending;
      scheduled = scheduled;
    })
dropped-Valid m n event c scheduled v here h =
    replaced-Valid m n c (triggered event c) (one_less m.pending) scheduled v here
      (triggered-ValidContext event c (v.contexts_valid n c here))
      (omega (
        arith,
        size-triggered event c h,
        one_less_lem m.pending,
        v.counted,
        v.small,
        registered-le m.contexts,
        size-le-registered m.contexts n c here,
      ))

module _ (n : ℕ) (m : IoManager) (v : Valid m) {c : FdContext}
    (here : get_elem? m.contexts n ≡ some c) where
  -- `dropped-Valid`, with the events that are left written out.
  cancelled-Valid :
      (event : Event)
      → has event c.events ≡ true
      → (scheduled : List (ℕ × ScheduleTask))
      → Valid (record m {
        contexts = set m.contexts n (triggered event c);
        watched = update m.watched n (without event c.events);
        pending = one_less m.pending;
        scheduled = scheduled;
      })
  cancelled-Valid none_event h scheduled = cc
  cancelled-Valid read h scheduled = dropped-Valid m n read c scheduled v here h
  cancelled-Valid write h scheduled = dropped-Valid m n write c scheduled v here h

  cancel_event-fire :
      (event : Event)
      → has event c.events ≡ true
      → cancel_event true true (pos n) event m ≡ (
          fire true n event c (record m { watched = update m.watched n (without event c.events) })
          >>= λ r. ok (true, r.1))
  unfolding cancel_event
  cancel_event-fire event h = rw (cancel_event, here, h) refl

  -- cancelEvent of a registered event, on valid contexts and where epoll agrees: exactly the task
  -- of the event is handed to the scheduler of its context, the event is no longer registered or
  -- watched, the count of pending events is one less, and the contexts stay valid.
  pub cancel_event_registered :
      (event : Event)
      → has event c.events ≡ true
      → (s : ℕ) × ((context_for event c).scheduler ≡ some s)
        × (cancel_event true true (pos n) event m
            ≡ ok (
              true,
              record (fired s n event c m) {
                watched = update m.watched n (without event c.events);
              },
            ))
        × Valid
            (record (fired s n event c m) { watched = update m.watched n (without event c.events) })
  cancel_event_registered event h =
      let m' : IoManager = record m { watched = update m.watched n (without event c.events) } in
      let (s, to, e) = fire_registered n event c m' (v.contexts_valid n c here) h in
      (
        s,
        to,
        rw (cancel_event-fire event h, e) refl,
        cancelled-Valid event h (m.scheduled ++ (s, event_task (context_for event c)) ∷ []),
      )

  -- delEvent of a registered event, on valid contexts and where epoll agrees: the event is no
  -- longer registered or watched, no task is handed out, the count of pending events is one less,
  -- and the contexts stay valid.
  pub del_event_registered :
      (event : Event)
      → has event c.events ≡ true
      → (del_event true (pos n) event m
          ≡ ok (
            true,
            record m {
              contexts = set m.contexts n (triggered event c);
              watched = update m.watched n (without event c.events);
              pending = one_less m.pending;
            },
          ))
        × Valid (record m {
          contexts = set m.contexts n (triggered event c);
          watched = update m.watched n (without event c.events);
          pending = one_less m.pending;
        })
  unfolding del_event
  del_event_registered none_event h = cc
  del_event_registered read h = (rw (del_event, here, h) refl, cancelled-Valid read h m.scheduled)
  del_event_registered write h = (rw (del_event, here, h) refl, cancelled-Valid write h m.scheduled)

  -- For a descriptor within the vector, an event that is not registered, or that epoll does not let
  -- go, is left alone by cancelEvent and by delEvent, which return false.
  cancel_refused :
      (epoll wrote : Bool) (event : Event)
      → (has event c.events && epoll) ≡ false
      → (cancel_event epoll wrote (pos n) event m ≡ ok (false, m))
        × (del_event epoll (pos n) event m ≡ ok (false, m))
  unfolding cancel_event del_event
  cancel_refused epoll wrote event h = (ground arith, ground arith)
