-- ===== src/Hook/Sockets.antt =====
-- The life of a socket's descriptor: socket and close of Hook.cpp.
use my_coroutine.Common.{
  ℕ, ◌<◌, ◌≤◌, ◌≡◌, refl, Bool, true, false, Option, none, some, arith, if◌then◌else◌, length,
  get_elem?, set, ltb, ok, err, out_of_bounds, inl, inr, Bool-cases, length-set, get_elem?-set_self,
  List, ◌>>=◌,
}
use my_coroutine.Common.Int.{pos, eqb_ℤ}
use my_coroutine.FdManager.{FdManager}
use my_coroutine.FdManager.Context.{Kernel}
use my_coroutine.FdManager.Table.{get_beyond, del-set}
use native.Mathlib.Decide.{dec_lt}
use my_coroutine.IoManager.{IoManager, cancel_all}
use my_coroutine.IoManager.FdContexts.{is_any, FdContext}
use my_coroutine.IoManager.Validity.{Valid}
use my_coroutine.IoManager.Drain.{Leaves, cancel_all-Leaves}
use my_coroutine.IoManager.Firing.{no_tasks, addressed}
use my_coroutine.Hook.{World, Here, Attempt, get_ctx, minus_one}
use my_coroutine.Hook.Calls.{socket, close}
use my_coroutine.Hook.Lookup.{looked_up, get_ctx_within}

get_ctx_past :
    (k : Kernel) (p n : ℕ) (w : World)
    → length w.fds.datas ≤ n
    → get_ctx k p (pos n) true w ≡ err out_of_bounds
unfolding get_ctx
get_ctx_past k p n w h = rw (get_ctx, get_beyond k p n true w.fds h) refl

no_minus_one : (n : ℕ) → eqb_ℤ (pos n) minus_one ≡ false
no_minus_one n = ground arith

socket_asks :
    (k : Kernel) (p n e : ℕ) (w : World)
    → w.enabled ≡ true
    → socket k p (record { value = pos n; errno = e }) w ≡ (do
      (ctx, registered) ← get_ctx k p (pos n) true (record w { errno = e })
      ok (pos n, registered))
unfolding socket
socket_asks k p n e w on = rw (socket, no_minus_one n, on) refl

-- socket with the hook enabled and a descriptor that the system has made: within the table it
-- returns the descriptor, which has a new context; beyond the table it reads out of bounds.
socket_lem :
    (k : Kernel) (p n e : ℕ) (w : World)
    → w.enabled ≡ true
    → let called : World = record w { errno = e } in
      socket k p (record { value = pos n; errno = e }) w ≡ (
        if ltb n (length w.fds.datas)
        then ok (pos n, looked_up k p n called)
        else err out_of_bounds)
socket_lem k p n e w on = elim (dec_lt n (length w.fds.datas)) [
  | yes within ↦
      rw (socket_asks k p n e w on, get_ctx_within k p n (record w { errno = e }) true within)
        (ground arith)
  | no beyond ↦
      rw (socket_asks k p n e w on, get_ctx_past k p n (record w { errno = e }) (omega arith))
        (ground arith)
]

-- cancalAll of a descriptor with or without events
no_events-Leaves :
    (n : ℕ) (c : FdContext) (m : IoManager)
    → Valid m
    → get_elem? m.contexts n ≡ some c
    → is_any c.events ≡ false
    → (cancel_all true true (pos n) m ≡ ok (false, m)) × Leaves n c.events c m m
unfolding cancel_all
no_events-Leaves n c m v here e = (
  rw (cancel_all, here, e) refl,
  record {
    valid = v;
    context = c;
    here = here;
    rest = ground (arith, e);
    handed_out =
        no_tasks c.events c (addressed m.scheduled) (ground (arith, e)) (ground (arith, e));
  },
)

all_cancelled :
    (n : ℕ) (c : FdContext) (m : IoManager)
    → Valid m
    → get_elem? m.contexts n ≡ some c
    → (done : Bool) × (m' : IoManager) × (cancel_all true true (pos n) m ≡ ok (done, m'))
      × Leaves n c.events c m m'
all_cancelled n c m v here = elim (Bool-cases (is_any c.events)) [
  | inl e ↦ let (m', e', left) = cancel_all-Leaves n c m v here e in (true, m', e', left)
  | inr e ↦ let (e', left) = no_events-Leaves n c m v here e in (false, m, e', left)
]

emptied :
    (datas : List (Option ℕ)) (n p : ℕ)
    → n < length datas
    → get_elem? (set (set datas n (some p)) n none) n ≡ some none
emptied datas n p within =
    get_elem?-set_self (set datas n (some p)) n none (rw (length-set datas n (some p)) within)

-- close with the hook enabled, of a descriptor within the table, in a thread of an IOManager with
-- valid contexts that has a context for it, where epoll agrees and tickle can write to the pipe: it
-- returns what close_f returns, exactly the tasks of the registered events have been handed to the
-- schedulers of their contexts, no event is left registered, and the entry of the table is empty.
pub close_lem :
    (k : Kernel) (p n : ℕ) (here : Here) (a : Attempt) (c : FdContext) (w : World)
    → w.enabled ≡ true
    → n < length w.fds.datas
    → here.has_iom ≡ true
    → Valid w.loop.io
    → get_elem? w.loop.io.contexts n ≡ some c
    → (v : World) × (close k p here true true (pos n) a w ≡ ok (a.value, v))
      × Leaves n c.events c w.loop.io v.loop.io
      × (get_elem? v.fds.datas n ≡ some none)
      × (v.errno ≡ a.errno)
unfolding close
close_lem k p n here a c w on within iom valid at =
    let (done, io, e, left) = all_cancelled n c w.loop.io valid at in
    let found : World = looked_up k p n w in
    let fds : FdManager = record found.fds { datas = set found.fds.datas n none } in
    (
      record found { fds = fds; loop = record w.loop { io = io }; errno = a.errno },
      rw (close, get_ctx_within k p n w false within, iom, e, del-set n found.fds, on) refl,
      left,
      emptied w.fds.datas n p within,
      refl,
    )
