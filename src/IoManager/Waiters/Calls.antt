-- ===== src/IoManager/Waiters/Calls.antt =====
-- Every call of IOManager.cpp on the event contexts, and the waiters.
use my_coroutine.Common.{
  ℕ, ◌+◌, ◌≡◌, refl, ◌∙◌, Bool, true, not, ◌||◌, none, some, List, [], ◌∷◌, arith, if◌then◌else◌,
  get_elem?, set, Result, ok, Ensures, Ensures-bind, anyway, guard, ◌>>=◌, ◌>>◌, inl, inr,
  Bool-cases, Option-cases,
}
use my_coroutine.Common.Int.{ℤ, pos, negsuc}
use my_coroutine.Common.Family.{update}
use my_coroutine.IoManager.{
  IoManager, del_event, cancel_event, cancel_all, handle_event, EpollEvent, one_less, real_events,
  meets, minus, fire, fire_if, context_of,
}
use my_coroutine.IoManager.FdContexts.{
  Event, none_event, read, write, has, is_any, no_events, without, Events, FdContext, event_task,
  get_event_context, reset_event_context,
}
use my_coroutine.IoManager.Cancel.{context_for}
use my_coroutine.IoManager.Waiters.{
  Waiter, tally, held, known, waiting-set, Hands, fire-Hands, fire_if-Hands,
}

-- No waiter comes or goes.
abbrev pub Kept : IoManager → IoManager → Type 0
Kept m m' = (q : Waiter → Bool) → known q m' ≡ known q m

pub cancel_event-Kept :
    (epoll wrote : Bool) (fd : ℤ) (event : Event) (m : IoManager)
    → Ensures (λ r. Kept m r.1) (cancel_event epoll wrote fd event m)
unfolding cancel_event
cancel_event-Kept epoll wrote (negsuc n) event m = λ q. refl
cancel_event-Kept epoll wrote (pos n) event m = elim (Option-cases (get_elem? m.contexts n)) [
  | inl e ↦ rw (cancel_event, e) (λ q. refl)
  | inr (c, here) ↦ elim (Bool-cases (not (has event c.events) || not epoll)) [
    | inl refused ↦ rw (cancel_event, here, refused) (λ q. refl)
    | inr taken ↦
        let m₀ : IoManager = record m { watched = update m.watched n (without event c.events) } in
        rw (cancel_event, here, taken)
          (Ensures-bind (Hands n m₀) (λ (r : Bool × IoManager). Kept m r.1)
            (fire wrote n event c m₀) (λ r. ok (true, r.1)) (fire-Hands wrote n event c m₀ here)
            (λ r hands. hands.1))
  ]
]

-- Both fire_if of a handler, and what follows them
two_fires-Ensures :
    {B : Type 0} (Q : B → Type 0) (wrote : Bool) (n : ℕ) (reads : Bool) (writes : FdContext → Bool)
    (c : FdContext) (m : IoManager) (f : FdContext → IoManager → Result B)
    → get_elem? m.contexts n ≡ some c
    → ((d : FdContext) (m' : IoManager) → Kept m m' → Ensures Q (f d m'))
    → Ensures Q (do
      (read_done, after_read) ← fire_if wrote reads n read c m
      (write_done, after_write) ← fire_if wrote (writes read_done) n write read_done after_read
      f write_done after_write)
two_fires-Ensures Q wrote n reads writes c m f here h =
    Ensures-bind (Hands n m) Q (fire_if wrote reads n read c m)
      (λ (read_done, after_read). do
        (write_done, after_write) ← fire_if wrote (writes read_done) n write read_done after_read
        f write_done after_write)
      (fire_if-Hands wrote reads n read c m here)
      (λ (d, m₁) (here₁, kept₁).
        Ensures-bind (Hands n m₁) Q (fire_if wrote (writes d) n write d m₁) (λ (d₂, m₂). f d₂ m₂)
          (fire_if-Hands wrote (writes d) n write d m₁ here₁)
          (λ (d₂, m₂) (here₂, kept₂). h d₂ m₂ (λ q. kept₂ q ∙ kept₁ q)))

pub cancel_all-Kept :
    (epoll wrote : Bool) (fd : ℤ) (m : IoManager)
    → Ensures (λ r. Kept m r.1) (cancel_all epoll wrote fd m)
unfolding cancel_all
cancel_all-Kept epoll wrote (negsuc n) m = λ q. refl
cancel_all-Kept epoll wrote (pos n) m = elim (Option-cases (get_elem? m.contexts n)) [
  | inl e ↦ rw (cancel_all, e) (λ q. refl)
  | inr (c, here) ↦ elim (Bool-cases (not (is_any c.events) || not epoll)) [
    | inl refused ↦ rw (cancel_all, here, refused) (λ q. refl)
    | inr taken ↦
        let m₀ : IoManager = record m { watched = update m.watched n no_events } in
        rw (cancel_all, here, taken)
          (two_fires-Ensures (λ (r : Bool × IoManager). Kept m r.1) wrote n c.events.reads
            (λ d. d.events.writes) c m₀ (λ d m'. do guard (not (is_any d.events)); ok (true, m'))
            here
            (λ d m' kept.
              Ensures-bind (λ _. Unit {0}) (λ (r : Bool × IoManager). Kept m r.1)
                (guard (not (is_any d.events))) (λ _. ok (true, m'))
                (anyway (guard (not (is_any d.events)))) (λ _ _. kept)))
  ]
]

pub handle_event-Kept :
    (epoll wrote : Bool) (e : EpollEvent) (m : IoManager)
    → Ensures (Kept m) (handle_event epoll wrote e m)
unfolding handle_event
handle_event-Kept epoll wrote e m = elim (Option-cases (get_elem? m.contexts e.index)) [
  | inl none_there ↦ rw (handle_event, none_there) tt
  | inr (c, here) ↦ elim (Bool-cases (meets c.events (real_events e c.events))) [
    | inr missed ↦ rw (handle_event, here, missed) (λ q. refl)
    | inl met ↦
        let real : Events = real_events e c.events in
        let m₀ : IoManager = record m {
          watched = update m.watched e.index (minus c.events real);
        } in
        rw (handle_event, here, met)
          (Ensures-bind (λ _. Unit {0}) (Kept m) (guard epoll)
            (λ _. do
              (read_done, after_read) ← fire_if wrote real.reads e.index read c m₀
              (write_done, after_write) ←
                  fire_if wrote real.writes e.index write read_done after_read
              ok after_write)
            (anyway (guard epoll))
            (λ _ _.
              two_fires-Ensures (Kept m) wrote e.index real.reads (λ _. real.writes) c m₀
                (λ d m'. ok m') here (λ d m' kept. kept)))
  ]
]

-- The waiter that delEvent drops.
abbrev pub waiter_of : Event → FdContext → Waiter
waiter_of event c = ((context_for event c).scheduler, event_task (context_for event c))

abbrev pub dropped : ℤ → Event → IoManager → List Waiter
dropped fd event m = elim (context_of fd m) [ none ↦ [] | some (_, c) ↦ waiter_of event c ∷ [] ]

abbrev pub if_done {ℓ} : {A : Type ℓ} → Bool → List A → List A
if_done done xs = if done then xs else []

held-reset :
    (q : Waiter → Bool) (event : Event) (c : FdContext)
    → has event c.events ≡ true
    → held q (reset_event_context event (record c { events = without event c.events }))
        + tally q (waiter_of event c ∷ [])
      ≡ held q c
unfolding tally
held-reset q none_event c h = cc
held-reset q read c h = ground (arith, h)
held-reset q write c h = ground (arith, h)

-- delEvent drops the waiter of the event if it returns true.
abbrev pub Drops : List Waiter → IoManager → Bool × IoManager → Type 0
Drops d m r = (q : Waiter → Bool) → known q r.1 + tally q (if_done r.0 d) ≡ known q m

pub del_event-Drops :
    (epoll : Bool) (fd : ℤ) (event : Event) (m : IoManager)
    → Ensures (Drops (dropped fd event m) m) (del_event epoll fd event m)
unfolding del_event tally
del_event-Drops epoll (negsuc n) event m = λ q. omega arith
del_event-Drops epoll (pos n) event m = elim (Option-cases (get_elem? m.contexts n)) [
  | inl e ↦ rw (del_event, e) (λ q. omega arith)
  | inr (c, here) ↦ elim (Bool-cases (not (has event c.events) || not epoll)) [
    | inl refused ↦ rw (del_event, here, refused) (λ q. omega arith)
    | inr taken ↦
        let left : FdContext =
          reset_event_context event (record c { events = without event c.events }) in
        let from : dropped (pos n) event m ≡ waiter_of event c ∷ [] = rw (dropped, here) refl in
        rw (del_event, here, taken)
          (Ensures-bind (λ _. Unit {0}) (Drops (dropped (pos n) event m) m)
            (get_event_context event c)
            (λ _. ok (
              true,
              record m {
                contexts = set m.contexts n left;
                watched = update m.watched n (without event c.events);
                pending = one_less m.pending;
              },
            ))
            (anyway (get_event_context event c))
            (λ _ _ q. rw from (
              omega (
                arith,
                waiting-set q m.contexts n c left here,
                held-reset q event c (ground (arith, taken)),
              ))))
  ]
]
