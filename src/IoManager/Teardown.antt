-- ===== src/IoManager/Teardown.antt =====
-- The destructor of IOManager: `stop` of its base class, where tickle and stopping are those of
-- IOManager, and the end of the event contexts.
use my_coroutine.Common.{
  ℕ, zero, suc, ◌≡◌, Bool, true, false, not, List, [], is_some, if◌then◌else◌, Result, ok, guard,
  ◌>>=◌, ◌>>◌,
}
use my_coroutine.Common.Int.{ℤ}
use my_coroutine.Scheduler.Owner.{Owner, is_mine, destroy_scheduler}
use my_coroutine.IoManager.{is_blank, IoManager}
use my_coroutine.IoManager.FdContexts.{FdContext, is_any}
use my_coroutine.IoManager.Validity.{Valid}
use my_coroutine.IoManager.Idle.{Loop, tickle, io_stopping}

-- What happens in the calls that stop makes: whether `write` returns 1, which tickle asserts, and what
-- `resume` of the root fiber and `join` of the threads leave.
pub record IoEffects : Type 0 where
  pub wrote : Loop → Bool
  pub resume_root : Loop → Result Loop
  pub join : List ℕ → Loop → Result Loop

-- for(i = 0; i < n; i++) tickle();
unfoldable pub io_tickles : (Loop → Bool) → ℕ → Loop → Result Loop
io_tickles wrote zero l = ok l
io_tickles wrote (suc n) l = do ticked ← tickle (wrote l) l; io_tickles wrote n ticked

-- The part of stop for the root fiber
unfoldable pub io_run_root : IoEffects → Loop → Result Loop
io_run_root e l =
    if is_some l.sched.root_fiber
    then (do ticked ← tickle (e.wrote l) l; e.resume_root ticked)
    else ok l

-- stop: the threads that are joined, and the manager
unfoldable pub io_stop : IoEffects → ℤ → ℕ → Owner → Loop → Result (List ℕ × Loop)
unfolding io_tickles io_run_root
io_stop e now this o l =
    let (ended, timeout, asked) = io_stopping now l in
    if ended then ok ([], asked) else do
      let flagged = record asked { sched = record asked.sched { is_stopping = true } }
      guard (if asked.sched.use_caller then is_mine this o else not (is_mine this o))
      woken ← io_tickles e.wrote flagged.sched.thread_count flagged
      drained ← io_run_root e woken
      joined ←
          e.join drained.sched.threads
            (record drained { sched = record drained.sched { threads = [] } })
      ok (drained.sched.threads, joined)

-- ~IOManager: the threads that are joined, the contexts that are deleted, and what the thread knows
-- of its scheduler after the destructor of the base class. The close of the epoll descriptor and of
-- the pipe, between stop and the loop over the contexts, is left out: what it returns is not tested.
unfoldable pub destroy_io_manager :
    IoEffects → ℤ → ℕ → Owner → Loop → Result (List ℕ × List FdContext × Owner)
unfolding io_stop
destroy_io_manager e now this o l = do
  (joined, stopped) ← io_stop e now this o l
  rest ← destroy_scheduler this stopped.sched o
  ok (joined, stopped.io.contexts, rest)

-- A call returns, and leaves the threads and the root fiber.
abbrev pub Leaves : (Loop → Result Loop) → Type 0
Leaves f =
    (l : Loop)
    → (u : Loop) × (f l ≡ ok u)
      × (u.sched.threads ≡ l.sched.threads)
      × (u.sched.root_fiber ≡ l.sched.root_fiber)

-- The pipe can be written to, and what runs meanwhile returns with the contexts valid; the last
-- thread has ended because stopping has answered yes.
pub record WindsUp (e : IoEffects) : Type 0 where
  pub wrote : (l : Loop) → e.wrote l ≡ true
  pub resume_root : Leaves e.resume_root
  pub join :
      (ids : List ℕ) (l : Loop)
      → (u : Loop) × (e.join ids l ≡ ok u)
        × Valid u.io
        × (later : ℤ) × ((io_stopping later u).0 ≡ true)

-- No event is registered in the context, and it holds no fiber and no callback.
abbrev pub IsIdle : FdContext → Type 0
IsIdle c = (is_any c.events ≡ false) × (is_blank c.read_ctx ≡ true) × (is_blank c.write_ctx ≡ true)

-- How stop ends: with the threads joined, no event pending, and the contexts valid.
record IsStopped (joined : List ℕ) (r : Result (List ℕ × Loop)) : Type 0 where
  left : Loop
  ends : r ≡ ok (joined, left)
  valid : Valid left.io
  none_pending : left.io.pending ≡ 0
  flag : left.sched.is_stopping ≡ true
