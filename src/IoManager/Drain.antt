-- ===== src/IoManager/Drain.antt =====
-- The calls that trigger both events of a context: cancalAll, and the loop of `idle` over the events
-- that epoll reports.
use my_coroutine.Common.{
  ℕ, ◌≡◌, refl, true, false, inl, inr, some, ◌++◌, arith, get_elem?, ok, Bool-cases,
}
use my_coroutine.Common.Int.{pos}
use my_coroutine.Common.Family.{update}
use my_coroutine.IoManager.{
  IoManager, cancel_all, fire_if, EpollEvent, real_events, meets, minus, handle_event,
}
use my_coroutine.IoManager.FdContexts.{read, write, Events, no_events, is_any, FdContext}
use my_coroutine.IoManager.Validity.{Valid}
use my_coroutine.IoManager.Firing.{
  Valid-At, after_if, addressed, event_tasks, after_read-writes, no_tasks, both_fired,
}

minus_self : (es : Events) → minus es es ≡ no_events
minus_self es = ground arith

update_self : (f : ℕ → Events) (n : ℕ) (a : Events) → update f n a n ≡ a
update_self f n a = ground arith

-- What is left of the context `n` after the events `es` of it have been triggered: the other events
-- are registered, the tasks of `es` have been handed out, and the contexts are valid.
pub record Leaves (n : ℕ) (es : Events) (c : FdContext) (m m' : IoManager) : Type 0 where
  pub valid : Valid m'
  pub context : FdContext
  pub here : get_elem? m'.contexts n ≡ some context
  pub rest : context.events ≡ minus c.events es
  pub handed_out : addressed m'.scheduled ≡ addressed m.scheduled ++ event_tasks es c

module _ (n : ℕ) (c : FdContext) (m : IoManager) (v : Valid m)
    (here : get_elem? m.contexts n ≡ some c) where
  cancel_all-steps :
      is_any c.events ≡ true
      → (d₁ d : FdContext) (m₁ m₂ : IoManager)
      → fire_if true c.events.reads n read c (record m { watched = update m.watched n no_events })
        ≡ ok (d₁, m₁)
      → fire_if true d₁.events.writes n write d₁ m₁ ≡ ok (d, m₂)
      → is_any d.events ≡ false
      → cancel_all true true (pos n) m ≡ ok (true, m₂)
  unfolding cancel_all
  cancel_all-steps some_event d₁ d m₁ m₂ e₁ e₂ none_left =
      rw (cancel_all, here, some_event, e₁, e₂, none_left) refl

  -- cancalAll of a descriptor with registered events, on valid contexts, where epoll agrees and the
  -- tickle of schedule, if it makes one, can write to the pipe: it returns true, hands exactly the
  -- tasks of the registered events, the read event first, to the schedulers of their contexts,
  -- leaves none registered, and keeps the contexts valid; its assertions do not fail.
  pub cancel_all-Leaves :
      is_any c.events ≡ true
      → (m' : IoManager) × (cancel_all true true (pos n) m ≡ ok (true, m'))
        × Leaves n c.events c m m'
  cancel_all-Leaves some_event =
      let m₀ : IoManager = record m { watched = update m.watched n no_events } in
      let (m₁, m₂, d, e₁, e₂, left) =
        both_fired n c.events c m₀ (Valid-At n c m v here no_events) (λ h. h) (λ h. h) in
      (
        m₂,
        cancel_all-steps some_event (after_if c.events.reads read c) d m₁ m₂ e₁
            (cc (e₂, after_read-writes c.events.reads c)) (ground (arith, left.rest)),
        record {
          valid = left.valid (cc (update_self m.watched n no_events, minus_self c.events));
          context = d;
          here = left.here;
          rest = left.rest;
          handed_out = left.handed_out;
        },
      )

module _ (e : EpollEvent) (c : FdContext) (m : IoManager) (v : Valid m)
    (here : get_elem? m.contexts e.index ≡ some c) where
  handle_event-steps :
      meets c.events (real_events e c.events) ≡ true
      → (d : FdContext) (m₁ m₂ : IoManager)
      → let real : Events = real_events e c.events in
        fire_if true real.reads e.index read c
            (record m { watched = update m.watched e.index (minus c.events real) })
          ≡ ok (after_if real.reads read c, m₁)
        → fire_if true
            (real_events e c.events).writes
            e.index
            write
            (after_if (real_events e c.events).reads read c)
            m₁
          ≡ ok (d, m₂)
        → handle_event true true e m ≡ ok m₂
  unfolding handle_event
  handle_event-steps met d m₁ m₂ e₁ e₂ = rw (handle_event, here, met, e₁, e₂) refl

  handle_event-missed :
      meets c.events (real_events e c.events) ≡ false → handle_event true true e m ≡ ok m
  unfolding handle_event
  handle_event-missed missed = rw (handle_event, here, missed) refl

  -- The body of the loop of idle over the epoll events, on valid contexts and for an epoll event
  -- that reports no EPOLLIN or EPOLLOUT for an event that is not registered, where epoll_ctl
  -- succeeds: it returns, exactly the tasks of the reported events (an error or hang-up reports all
  -- that are registered), the read event first, are handed to the schedulers of their contexts, the
  -- other events stay registered, and the contexts stay valid.
  pub handle_event-Leaves :
      (e.epoll_in ≡ true → c.events.reads ≡ true)
      → (e.epoll_out ≡ true → c.events.writes ≡ true)
      → (m' : IoManager) × (handle_event true true e m ≡ ok m')
        × Leaves e.index (real_events e c.events) c m m'
  handle_event-Leaves r w =
      let real : Events = real_events e c.events in
      let m₀ : IoManager = record m { watched = update m.watched e.index (minus c.events real) } in
      let (m₁, m₂, d, e₁, e₂, left) =
        both_fired e.index real c m₀ (Valid-At e.index c m v here (minus c.events real))
          (λ h. ground (arith, r)) (λ h. ground (arith, w)) in
      elim (Bool-cases (meets c.events real)) [
        | inl met ↦ (
          m₂,
          handle_event-steps met d m₁ m₂ e₁ e₂,
          record {
            valid = left.valid (update_self m.watched e.index (minus c.events real));
            context = d;
            here = left.here;
            rest = left.rest;
            handed_out = left.handed_out;
          },
        )
        | inr missed ↦ (
          m,
          handle_event-missed missed,
          record {
            valid = v;
            context = c;
            here = here;
            rest = ground arith;
            handed_out = no_tasks real c (addressed m.scheduled) (ground arith) (ground arith);
          },
        )
      ]
