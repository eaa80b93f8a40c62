-- ===== src/IoManager/Waiters/System.antt =====
-- The event contexts of an IOManager under the calls of all its threads, in any order: addEvent,
-- delEvent, cancelEvent and cancalAll of the tasks, and the loop of `idle` over the epoll events. A call
-- on a context is one step: all but addEvent hold its mutex.
use my_coroutine.Common.{
  ℕ, zero, suc, ◌+◌, ◌≡◌, refl, subst, Bool, true, Option, List, [], ◌∷◌, ◌++◌, arith, is_some,
  Result, ok, Ensures,
}
use my_coroutine.Common.Int.{ℤ}
use my_coroutine.Callback.{Callback}
use my_coroutine.IoManager.{
  IoManager, Caller, io_manager, resize_from, EpollEvent, add_event, del_event, cancel_event,
  cancel_all, handle_event,
}
use my_coroutine.IoManager.Idle.{Loop, io_stopping}
use my_coroutine.IoManager.FdContexts.{Event, FdContext, size}
use my_coroutine.IoManager.Validity.{Valid, registered}
use my_coroutine.IoManager.Initial.{io_manager-Valid}
use my_coroutine.IoManager.Firing.{addressed}
use my_coroutine.IoManager.Preserved.Adding.{add_event-Valid}
use my_coroutine.IoManager.Preserved.{
  del_event-Valid, cancel_event-Valid, cancel_all-Valid, handle_event-Valid,
}
use my_coroutine.IoManager.Waiters.Adding.{waiter, add_event-Adds}
use my_coroutine.IoManager.Waiters.{Waiter, tally, tally-append, waiting, known}
use my_coroutine.IoManager.Waiters.Calls.{
  dropped, if_done, del_event-Drops, cancel_event-Kept, cancel_all-Kept, handle_event-Kept,
}

-- The manager, with the waiters that addEvent has been given and those that delEvent has dropped.
pub record System : Type 0 where
  pub io : IoManager
  pub added : List Waiter
  pub deleted : List Waiter

-- One call that returns. An addEvent is made by a thread that has a scheduler.
pub data Step (s : System) : System → Type 0 where
  adds :
      (epoll : Bool) (caller : Caller) (fd : ℤ) (event : Event) (cb : Option Callback) (done : Bool)
      (io : IoManager)
      → is_some caller.scheduler ≡ true
      → add_event epoll caller fd event cb s.io ≡ ok (done, io)
      → Step s (record s { io = io; added = s.added ++ if_done done (waiter caller cb ∷ []) })
  deletes :
      (epoll : Bool) (fd : ℤ) (event : Event) (done : Bool) (io : IoManager)
      → del_event epoll fd event s.io ≡ ok (done, io)
      → Step s (record s { io = io; deleted = s.deleted ++ if_done done (dropped fd event s.io) })
  cancels :
      (epoll wrote : Bool) (fd : ℤ) (event : Event) (done : Bool) (io : IoManager)
      → cancel_event epoll wrote fd event s.io ≡ ok (done, io)
      → Step s (record s { io = io })
  cancels_all :
      (epoll wrote : Bool) (fd : ℤ) (done : Bool) (io : IoManager)
      → cancel_all epoll wrote fd s.io ≡ ok (done, io)
      → Step s (record s { io = io })
  handles :
      (epoll wrote : Bool) (e : EpollEvent) (io : IoManager)
      → handle_event epoll wrote e s.io ≡ ok io
      → Step s (record s { io = io })

-- The states that any sequence of calls leads to, from the one that the constructor makes.
pub data Reach : System → Type 0 where
  start : Reach (record { io = io_manager; added = []; deleted = [] })
  next : {s t : System} → Reach s → Step s t → Reach t

-- What an Ensures says where the call has returned.
returned {ℓ} : {A : Type ℓ} (P : A → Type 0) {r : Result A} {a : A} → r ≡ ok a → Ensures P r → P a
returned P e h = subst (Ensures P) e h

record Inv (s : System) : Type 0 where
  valid : Valid s.io
  balance : (q : Waiter → Bool) → tally q s.added ≡ known q s.io + tally q s.deleted

waiting-new : (q : Waiter → Bool) (i size : ℕ) → waiting q (resize_from i size []) ≡ 0
unfolding waiting resize_from
waiting-new q i zero = refl
waiting-new q i (suc size) = omega (arith, waiting-new q (suc i) size)

start-Inv : Inv (record { io = io_manager; added = []; deleted = [] })
unfolding io_manager tally
start-Inv = record { valid = io_manager-Valid; balance = λ q. omega (arith, waiting-new q 0 32) }

Step-Inv : {s t : System} → Step s t → Inv s → Inv t
Step-Inv {s} (adds epoll caller fd event cb done io from e) i = record {
  valid = returned _ e (add_event-Valid epoll caller fd event cb s.io from i.valid);
  balance = λ q. omega (
    arith,
    returned _ e (add_event-Adds epoll caller fd event cb s.io) q,
    tally-append q s.added (if_done done (waiter caller cb ∷ [])),
    i.balance q,
  );
}
Step-Inv {s} (deletes epoll fd event done io e) i = record {
  valid = returned _ e (del_event-Valid epoll fd event s.io i.valid);
  balance = λ q. omega (
    arith,
    returned _ e (del_event-Drops epoll fd event s.io) q,
    tally-append q s.deleted (if_done done (dropped fd event s.io)),
    i.balance q,
  );
}
Step-Inv {s} (cancels epoll wrote fd event done io e) i = record {
  valid = returned _ e (cancel_event-Valid epoll wrote fd event s.io i.valid);
  balance =
      λ q. omega (arith, returned _ e (cancel_event-Kept epoll wrote fd event s.io) q, i.balance q);
}
Step-Inv {s} (cancels_all epoll wrote fd done io e) i = record {
  valid = returned _ e (cancel_all-Valid epoll wrote fd s.io i.valid);
  balance = λ q. omega (arith, returned _ e (cancel_all-Kept epoll wrote fd s.io) q, i.balance q);
}
Step-Inv {s} (handles epoll wrote e io same) i = record {
  valid = returned _ same (handle_event-Valid epoll wrote e s.io i.valid);
  balance =
      λ q. omega (arith, returned _ same (handle_event-Kept epoll wrote e s.io) q, i.balance q);
}

Reach-Inv : {s : System} → Reach s → Inv s
Reach-Inv start = start-Inv
Reach-Inv (next r step) = Step-Inv step (Reach-Inv r)

-- Whatever calls of addEvent, delEvent, cancelEvent and cancalAll the threads make, and whatever
-- events idle handles, one after another in any order, each addEvent by a caller that has a
-- scheduler: the event contexts are valid, and each fiber or callback that addEvent was given for a
-- scheduler is, as often as it was given, waiting in a context, handed to that scheduler, or taken
-- out by delEvent.
pub waiters_balance :
    {s : System}
    → Reach s
    → Valid s.io
      × ((q : Waiter → Bool)
          → tally q s.added
            ≡ waiting q s.io.contexts + tally q (addressed s.io.scheduled) + tally q s.deleted)
waiters_balance r = ((Reach-Inv r).valid, (Reach-Inv r).balance)

nobody_waits : (q : Waiter → Bool) (cs : List FdContext) → registered cs ≡ 0 → waiting q cs ≡ 0
unfolding waiting registered
nobody_waits q [] none_left = refl
nobody_waits q (c ∷ cs) none_left = ground (arith, nobody_waits q cs)

-- After any such calls (addEvent, delEvent, cancelEvent, cancalAll and the handling of epoll
-- events, one after another in any order, each addEvent by a caller that has a scheduler), if
-- stopping of the IOManager answers yes, each fiber or callback that addEvent was given for a
-- scheduler has been handed to that scheduler or taken out by delEvent, as often as it was given:
-- none waits any more.
pub stopping_strands_none :
    (now : ℤ) (l : Loop) {added deleted : List Waiter}
    → Reach (record { io = l.io; added = added; deleted = deleted })
    → (io_stopping now l).0 ≡ true
    → ((q : Waiter → Bool) → waiting q l.io.contexts ≡ 0)
      × ((q : Waiter → Bool) → tally q added ≡ tally q (addressed l.io.scheduled) + tally q deleted)
unfolding io_stopping
stopping_strands_none now l r stops =
    let i : Inv _ = Reach-Inv r in
    let none_pending : l.io.pending ≡ 0 = ground (arith, stops) in
    let none_left : (q : Waiter → Bool) → waiting q l.io.contexts ≡ 0 =
      λ q. nobody_waits q l.io.contexts (omega (arith, i.valid.counted, none_pending)) in
    (none_left, λ q. omega (arith, i.balance q, none_left q))
