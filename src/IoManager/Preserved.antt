-- ===== src/IoManager/Preserved.antt =====
-- The calls of IOManager.cpp on the event contexts, and the validity of the contexts after them.
pub mod Adding
use my_coroutine.Common.{
  ℕ, ◌+◌, ◌≡◌, refl, sym, subst, Bool, true, false, not, ◌&&◌, ◌||◌, Option, none, some, arith,
  is_some, length, get_elem?, set, Result, ok, err, assertion, Ensures, Ensures-bind, anyway, guard,
  ◌>>=◌, ◌>>◌, inl, inr, Bool-cases, Option-cases,
}
use native.Mathlib.Decide.{dec_lt}
use my_coroutine.Common.Int.{ℤ, pos, negsuc}
use my_coroutine.Common.Family.{update}
use my_coroutine.Callback.{Callback}
use my_coroutine.IoManager.{
  IoManager, Caller, add_event, del_event, cancel_event, cancel_all, handle_event, EpollEvent,
  one_more, real_events, meets, register, filled, is_blank, fire, fire_if, grown, minus,
}
use my_coroutine.IoManager.FdContexts.{
  Event, none_event, read, write, Events, has, is_any, size, with_event, EventContext, FdContext,
  event_task, set_event_context, trigger_event, without, no_events,
}
use my_coroutine.IoManager.Validity.{Valid}
use my_coroutine.IoManager.Cancel.{context_for, cancel_event_registered, del_event_registered}
use my_coroutine.IoManager.Register.{add_event_beyond, added, added-Valid}
use my_coroutine.IoManager.Firing.{unwritten, both_unwritten, fire_unwritten}
use my_coroutine.IoManager.Drain.{cancel_all-Leaves, handle_event-Leaves}
use my_coroutine.IoManager.Waiters.Adding.{waiter, filled-waiter}

taken_event : (a b : Bool) → (not a || not b) ≡ false → (a ≡ true) × (b ≡ true)
taken_event a b h = (ground (arith, h), ground (arith, h))

cancel_taken :
    (epoll wrote : Bool) (n : ℕ) (event : Event) (m : IoManager) (c : FdContext)
    → Valid m
    → get_elem? m.contexts n ≡ some c
    → (not (has event c.events) || not epoll) ≡ false
    → has event c.events ≡ true
    → epoll ≡ true
    → Ensures (λ r. Valid r.1) (cancel_event epoll wrote (pos n) event m)
unfolding cancel_event
cancel_taken epoll true n event m c v here taken registered agrees =
    let (s, to, e, v') = cancel_event_registered n m v here event registered in
    subst (λ b. Ensures (λ (r : Bool × IoManager). Valid r.1) (cancel_event b true (pos n) event m))
      (sym agrees) (rw e v')
cancel_taken epoll false n event m c v here taken registered agrees =
    let m₀ : IoManager = record m { watched = update m.watched n (without event c.events) } in
    rw (cancel_event, here, taken)
      (unwritten (λ (r : Bool × IoManager). Valid r.1) n event c m₀ (λ r. ok (true, r.1)))

pub cancel_event-Valid :
    (epoll wrote : Bool) (fd : ℤ) (event : Event) (m : IoManager)
    → Valid m
    → Ensures (λ r. Valid r.1) (cancel_event epoll wrote fd event m)
unfolding cancel_event
cancel_event-Valid epoll wrote (negsuc n) event m v = v
cancel_event-Valid epoll wrote (pos n) event m v = elim (Option-cases (get_elem? m.contexts n)) [
  | inl e ↦ rw (cancel_event, e) v
  | inr (c, here) ↦ elim (Bool-cases (not (has event c.events) || not epoll)) [
    | inl refused ↦ rw (cancel_event, here, refused) v
    | inr taken ↦
        let (registered, agrees) = taken_event (has event c.events) epoll taken in
        cancel_taken epoll wrote n event m c v here taken registered agrees
  ]
]

pub del_event-Valid :
    (epoll : Bool) (fd : ℤ) (event : Event) (m : IoManager)
    → Valid m
    → Ensures (λ r. Valid r.1) (del_event epoll fd event m)
unfolding del_event
del_event-Valid epoll (negsuc n) event m v = v
del_event-Valid epoll (pos n) event m v = elim (Option-cases (get_elem? m.contexts n)) [
  | inl e ↦ rw (del_event, e) v
  | inr (c, here) ↦ elim (Bool-cases (not (has event c.events) || not epoll)) [
    | inl refused ↦ rw (del_event, here, refused) v
    | inr taken ↦
        let (registered, agrees) = taken_event (has event c.events) epoll taken in
        let (e, v') = del_event_registered n m v here event registered in
        subst (λ b. Ensures (λ (r : Bool × IoManager). Valid r.1) (del_event b (pos n) event m))
          (sym agrees) (rw e v')
  ]
]

cancel_all_taken :
    (epoll wrote : Bool) (n : ℕ) (m : IoManager) (c : FdContext)
    → Valid m
    → get_elem? m.contexts n ≡ some c
    → (not (is_any c.events) || not epoll) ≡ false
    → is_any c.events ≡ true
    → epoll ≡ true
    → Ensures (λ r. Valid r.1) (cancel_all epoll wrote (pos n) m)
unfolding cancel_all
cancel_all_taken epoll true n m c v here taken some_event agrees =
    let (m', e, left) = cancel_all-Leaves n c m v here some_event in
    subst (λ b. Ensures (λ (r : Bool × IoManager). Valid r.1) (cancel_all b true (pos n) m))
      (sym agrees) (rw e left.valid)
cancel_all_taken epoll false n m c v here taken some_event agrees =
    let m₀ : IoManager = record m { watched = update m.watched n no_events } in
    rw (cancel_all, here, taken)
      (both_unwritten (λ (r : Bool × IoManager). Valid r.1) n c.events.reads (λ d. d.events.writes)
        c m₀ (λ (d, m'). do guard (not (is_any d.events)); ok (true, m')) some_event)

pub cancel_all-Valid :
    (epoll wrote : Bool) (fd : ℤ) (m : IoManager)
    → Valid m
    → Ensures (λ r. Valid r.1) (cancel_all epoll wrote fd m)
unfolding cancel_all
cancel_all-Valid epoll wrote (negsuc n) m v = v
cancel_all-Valid epoll wrote (pos n) m v = elim (Option-cases (get_elem? m.contexts n)) [
  | inl e ↦ rw (cancel_all, e) v
  | inr (c, here) ↦ elim (Bool-cases (not (is_any c.events) || not epoll)) [
    | inl refused ↦ rw (cancel_all, here, refused) v
    | inr taken ↦
        let (some_event, agrees) = taken_event (is_any c.events) epoll taken in
        cancel_all_taken epoll wrote n m c v here taken some_event agrees
  ]
]

and_not : (a b : Bool) → (a && not b) ≡ true → (a ≡ true) × (b ≡ false)
and_not a b h = (ground (arith, h), ground (arith, h))

-- An event that is not registered cannot be triggered.
fire_missing :
    (wrote : Bool) (n : ℕ) (event : Event) (c : FdContext) (m : IoManager)
    → has event c.events ≡ false
    → fire wrote n event c m ≡ err assertion
unfolding fire trigger_event
fire_missing wrote n event c m h = rw (fire, h) refl

-- A write event that is not registered is not there after the read event has been triggered.
fire_if-writes :
    (wrote test : Bool) (n : ℕ) (c : FdContext) (m : IoManager)
    → c.events.writes ≡ false
    → Ensures (λ r. r.0.events.writes ≡ false) (fire_if wrote test n read c m)
unfolding fire_if fire trigger_event
fire_if-writes wrote false n c m h = h
fire_if-writes false true n c m h = fire_unwritten (λ r. r.0.events.writes ≡ false) n read c m
fire_if-writes true true n c m h = elim (Bool-cases c.events.reads) [
  | inr r ↦ rw (fire, r) tt
  | inl r ↦ elim (Option-cases c.read_ctx.scheduler) [
    | inl to ↦ rw (fire, r, to) tt
    | inr (s, to) ↦ rw (fire, r, to) h
  ]
]

-- Both fire_if of the handler, where the first or the second asks for an event that is not registered.
fires_missing :
    (wrote : Bool) (n : ℕ) (es : Events) (c : FdContext) (m : IoManager)
    → ((es.reads && not c.events.reads) || (es.writes && not c.events.writes)) ≡ true
    → Ensures Valid (do
      (read_done, after_read) ← fire_if wrote es.reads n read c m
      (write_done, after_write) ← fire_if wrote es.writes n write read_done after_read
      ok after_write)
unfolding fire_if
fires_missing wrote n es c m h = elim (Bool-cases (es.reads && not c.events.reads)) [
  | inl first ↦
      let (asked, missing) = and_not es.reads c.events.reads first in
      rw (fire_if, asked, fire_missing wrote n read c m missing) tt
  | inr later ↦
      let (asked, missing) = and_not es.writes c.events.writes (ground (arith, h, later)) in
      Ensures-bind (λ r. r.0.events.writes ≡ false) Valid (fire_if wrote es.reads n read c m)
        (λ (read_done, after_read). do
          (write_done, after_write) ← fire_if wrote es.writes n write read_done after_read
          ok after_write)
        (fire_if-writes wrote es.reads n c m missing)
        (λ (d, m') gone. rw (fire_if, asked, fire_missing wrote n write d m' gone) tt)
]

-- The epoll event reports an event that is not registered.
abbrev surprising : EpollEvent → FdContext → Bool
surprising e c = (e.epoll_in && not c.events.reads) || (e.epoll_out && not c.events.writes)

handle_event_taken :
    (epoll wrote : Bool) (e : EpollEvent) (m : IoManager) (c : FdContext)
    → Valid m
    → get_elem? m.contexts e.index ≡ some c
    → meets c.events (real_events e c.events) ≡ true
    → epoll ≡ true
    → surprising e c ≡ false
    → Ensures Valid (handle_event epoll wrote e m)
unfolding handle_event
handle_event_taken epoll true e m c v here met agrees expected =
    let (m', same, left) =
      handle_event-Leaves e c m v here (λ h. ground (arith, expected, h))
        (λ h. ground (arith, expected, h)) in
    subst (λ b. Ensures Valid (handle_event b true e m)) (sym agrees) (rw same left.valid)
handle_event_taken epoll false e m c v here met agrees expected =
    let real : Events = real_events e c.events in
    let m₀ : IoManager = record m { watched = update m.watched e.index (minus c.events real) } in
    rw (handle_event, here, met, agrees)
      (both_unwritten Valid e.index real.reads (λ _. real.writes) c m₀ (λ (d, m'). ok m')
        (ground (arith, met)))

pub handle_event-Valid :
    (epoll wrote : Bool) (e : EpollEvent) (m : IoManager)
    → Valid m
    → Ensures Valid (handle_event epoll wrote e m)
unfolding handle_event
handle_event-Valid epoll wrote e m v = elim (Option-cases (get_elem? m.contexts e.index)) [
  | inl none_there ↦ rw (handle_event, none_there) tt
  | inr (c, here) ↦ elim (Bool-cases (meets c.events (real_events e c.events))) [
    | inr missed ↦ rw (handle_event, here, missed) v
    | inl met ↦ elim (Bool-cases epoll) [
      | inr refuses ↦ rw (handle_event, here, met, refuses) tt
      | inl agrees ↦ elim (Bool-cases (surprising e c)) [
        | inl surprise ↦
            rw (handle_event, here, met, agrees)
              (fires_missing wrote e.index (real_events e c.events) c _ (ground (arith, surprise)))
        | inr expected ↦ handle_event_taken epoll wrote e m c v here met agrees expected
      ]
    ]
  ]
]
