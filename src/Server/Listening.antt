-- ===== src/Server/Listening.antt =====
-- The listening socket of server.cpp: test_accept and watch_io_read.
use my_coroutine.Common.{
  ℕ, ◌≡◌, ◌≢◌, refl, ap, ◌∙◌, true, false, none, some, List, [], ◌∷◌, ◌++◌, ◌==◌, is_some,
  get_elem?, set, get_elem?-set, ok, arith,
}
use my_coroutine.Common.Int.{pos, ltb_ℤ}
use my_coroutine.Callback.{Callback}
use my_coroutine.Scheduler.{cb_task, any_thread, schedule_no_lock}
use my_coroutine.IoManager.{IoManager}
use my_coroutine.IoManager.FdContexts.{FdContext, EventContext, read, none_event}
use my_coroutine.IoManager.Validity.{Valid, get_elem?-length}
use my_coroutine.IoManager.Register.{added, add_event_registers}
use my_coroutine.IoManager.Idle.{Loop, schedule}
use my_coroutine.IoManager.Idle.Rounds.{schedule_returns}
use my_coroutine.Hook.{Here}
use my_coroutine.Server.{
  Server, add_read, watch_io_read, test_accept, AcceptAnswers, connection_cb, test_accept_cb,
  watch_io_read_cb,
}

-- The context of the descriptor `n` waits for nothing to read.
abbrev pub IsFree : ℕ → FdContext → Loop → Type 0
IsFree n c l = (get_elem? l.io.contexts n ≡ some c) × (c.events.reads ≡ false)

-- A thread of the manager
abbrev pub IsThread : Here → Type 0
IsThread here = (here.has_iom ≡ true) × (is_some here.caller.scheduler ≡ true)

-- The context that addEvent(n, READ, cb) makes
abbrev pub reading : Here → Callback → FdContext → FdContext
reading here cb c =
    added read (record { scheduler = here.caller.scheduler; fiber = none; cb = some cb }) c

read_some : read ≢ none_event
read_some e = cc

pub add_read_lem :
    (here : Here) (n : ℕ) (cb : Callback) (c : FdContext) (s : Server)
    → IsThread here
    → Valid s.loop.io
    → IsFree n c s.loop
    → (io : IoManager) × (add_read true here (pos n) cb s
        ≡ ok (record s { loop = record s.loop { io = io } }))
      × Valid io
      × (io.contexts ≡ set s.loop.io.contexts n (reading here cb c))
unfolding add_read
add_read_lem here n cb c s (iom, from) v (at, new) =
    let ctx : EventContext = record {
      scheduler = here.caller.scheduler;
      fiber = none;
      cb = some cb;
    } in
    let (e, v') =
      add_event_registers n s.loop.io v {c = c} at here.caller read (some cb) ctx read_some new refl
        from in
    (_, rw (add_read, iom, e) refl, v', refl)

pub elsewhere :
    (cs ds : List FdContext) (k n : ℕ) (c d : FdContext)
    → ds ≡ set cs k d
    → (k == n) ≡ false
    → get_elem? cs n ≡ some c
    → get_elem? ds n ≡ some c
elsewhere cs ds k n c d e apart at = rw e (ground (arith, get_elem?-set cs k n d, apart, at))

pub replaced :
    (cs ds : List FdContext) (n : ℕ) (c d : FdContext)
    → ds ≡ set cs n d
    → get_elem? cs n ≡ some c
    → get_elem? ds n ≡ some d
replaced cs ds n c d e at =
    rw e (ground (arith, get_elem?-set cs n n d, get_elem?-length cs n c at))

-- The descriptor `n` waits for something to read, with this callback.
abbrev pub Waits : ℕ → FdContext → Loop → Type 0
Waits n c l = get_elem? l.io.contexts n ≡ some c

test_accept_steps :
    (a : AcceptAnswers) (here : Here) (k : ℕ) (s watched : Server) (l : Loop)
    → a.fd ≡ pos k
    → a.epoll ≡ true
    → a.wrote ≡ true
    → here.has_iom ≡ true
    → add_read true here (pos k) (connection_cb k) s ≡ ok watched
    → schedule true (cb_task (some watch_io_read_cb) any_thread) watched.loop ≡ ok l
    → test_accept a here s ≡ ok (record watched { loop = l })
unfolding test_accept
test_accept_steps a here k s watched l got epoll wrote iom e₁ e₂ =
    let accepted : ltb_ℤ (pos k) (pos 0) ≡ false = ground arith in
    rw (test_accept, got, accepted, epoll, e₁, iom, wrote, e₂) refl

watch_io_read_at :
    (here : Here) (n : ℕ) (s : Server)
    → s.listen_fd ≡ pos n
    → watch_io_read true here s ≡ add_read true here (pos n) test_accept_cb s
unfolding watch_io_read
watch_io_read_at here n s listens = ap (λ fd. add_read true here fd test_accept_cb s) listens

-- test_accept of the server, run by a thread of its IOManager with valid contexts, where the
-- listening descriptor and the accepted one, another, have contexts within the vector without a
-- read event, and epoll and tickle succeed: it returns and queues watch_io_read, which, run next by
-- a thread of the manager, returns with both descriptors waiting for something to read, the
-- accepted one with the callback of its connection and the listening one with test_accept again,
-- and with valid contexts.
pub accept_serves :
    (a : AcceptAnswers) (here here' : Here) (n k : ℕ) (c d : FdContext) (s : Server)
    → s.listen_fd ≡ pos n
    → a.fd ≡ pos k
    → (k == n) ≡ false
    → a.epoll ≡ true
    → a.wrote ≡ true
    → IsThread here
    → IsThread here'
    → Valid s.loop.io
    → IsFree n c s.loop
    → IsFree k d s.loop
    → (s₁ : Server) × (s₂ : Server) × (test_accept a here s ≡ ok s₁)
      × (s₁.loop.sched.tasks
          ≡ s.loop.sched.tasks ++ cb_task (some watch_io_read_cb) any_thread ∷ [])
      × (watch_io_read true here' s₁ ≡ ok s₂)
      × Waits k (reading here (connection_cb k) d) s₂.loop
      × Waits n (reading here' test_accept_cb c) s₂.loop
      × Valid s₂.loop.io
unfolding schedule_no_lock
accept_serves a here here' n k c d s listens got apart epoll wrote at at' v free_n free_k =
    let (io, e₁, v₁, now) = add_read_lem here k (connection_cb k) d s at v free_k in
    let (t, e₂) =
      schedule_returns (cb_task (some watch_io_read_cb) any_thread) (record s.loop { io = io }) in
    let l : Loop = record s.loop {
      sched = (schedule_no_lock (cb_task (some watch_io_read_cb) any_thread) s.loop.sched).1;
      io = io;
      tickled = t;
    } in
    let still_n : get_elem? io.contexts n ≡ some c =
      elsewhere s.loop.io.contexts io.contexts k n c (reading here (connection_cb k) d) now apart
        free_n.0 in
    let now_k : get_elem? io.contexts k ≡ some (reading here (connection_cb k) d) =
      replaced s.loop.io.contexts io.contexts k d (reading here (connection_cb k) d) now free_k.0 in
    let (io₂, e₃, v₂, now₂) =
      add_read_lem here' n test_accept_cb c (record s { loop = l }) at' v₁ (still_n, free_n.1) in
    (
      record s { loop = l },
      record s { loop = record l { io = io₂ } },
      test_accept_steps a here k s (record s { loop = record s.loop { io = io } }) l got epoll wrote
          at.0 e₁ e₂,
      refl,
      watch_io_read_at here' n (record s { loop = l }) listens ∙ e₃,
      elsewhere io.contexts io₂.contexts n k (reading here (connection_cb k) d)
          (reading here' test_accept_cb c) now₂ (ground (arith, apart)) now_k,
      replaced io.contexts io₂.contexts n c (reading here' test_accept_cb c) now₂ still_n,
      v₂,
    )
