-- ===== src/Fiber.antt =====
-- Fiber.h and Fiber.cpp: the coroutines of one thread. A method takes the thread's state and returns
-- it with the method's result, or the fault that ends the program. `getcontext` and `swapcontext` are
-- the operating system's: they are taken not to fail (the code stops the program where they do).
pub mod Switch
pub mod Lifecycle
pub mod Identity
use my_coroutine.Common.{
  ℕ, ◌+◌, ◌-◌, ◌^◌, ◌%◌, Bool, true, false, not, ◌&&◌, ◌||◌, Option, none, some, ◌==◌, is_some,
  if◌then◌else◌, Result, ok, err, null_pointer, assertion, guard, ◌>>=◌, ◌>>◌,
}
use my_coroutine.Callback.{Callback}

pub data State : Type 0 where
  ready running term : State

-- What a saved `ucontext_t` continues with: nothing yet, `MainFunc` from its start, or the code that
-- the fiber at an address was running when the context was saved.
pub data Context : Type 0 where
  unset entry : Context
  point : ℕ → Context

pub record Fiber : Type 0 where
  pub id : ℕ  -- uint64_t
  pub stacksize : ℕ  -- uint32_t
  pub state : State
  pub ctx : Context
  pub stack : Bool  -- m_stack != nullptr
  pub cb : Option Callback
  pub run_in_scheduler : Bool

-- The thread's variables, the memory of its fibers, and `cpu`, the fiber whose code is running; it is
-- `none` while the thread has no fiber. `s_fiber_id` and `s_fiber_count` are the counters.
pub record Thread : Type 0 where
  pub heap : ℕ → Fiber
  pub t_fiber : Option ℕ
  pub t_thread_fiber : Option ℕ
  pub t_scheduler_fiber : Option ℕ
  pub cpu : Option ℕ
  pub s_fiber_id : ℕ
  pub s_fiber_count : ℕ

abbrev pub u32 : ℕ → ℕ
u32 n = n % 2 ^ 32

abbrev pub u64 : ℕ → ℕ
u64 n = n % 2 ^ 64

abbrev pub fiber_stack_size : ℕ
fiber_stack_size = 131072

abbrev pub put : (ℕ → Fiber) → ℕ → Fiber → ℕ → Fiber
put heap a f b = if a == b then f else heap b

abbrev pub is_term : State → Bool
is_term term = true
is_term _ = false

abbrev pub is_running : State → Bool
is_running running = true
is_running _ = false

-- Fiber::GetFiberId
unfoldable pub get_fiber_id : Thread → ℕ
get_fiber_id t = elim t.t_fiber [ none ↦ 0 | some f ↦ (t.heap f).id ]

-- Fiber::SetThis
unfoldable pub set_this : Option ℕ → Thread → Thread
set_this f t = record t { t_fiber = f }

-- Fiber(), at the address `p`. It leaves `m_stack` and `m_runInScheduler` as the memory was.
unfoldable pub main_fiber : ℕ → Thread → Thread
unfolding set_this
main_fiber p t =
    let old = t.heap p in
    let made : Fiber = record {
      id = t.s_fiber_id;
      stacksize = 0;
      state = running;
      ctx = point p;
      stack = old.stack;
      cb = none;
      run_in_scheduler = old.run_in_scheduler;
    } in
    record (set_this (some p) t) {
      heap = put t.heap p made;
      cpu = some p;
      s_fiber_id = u64 (t.s_fiber_id + 1);
      s_fiber_count = u64 (t.s_fiber_count + 1);
    }

-- Fiber::GetThis; a main fiber that it has to make gets the address `p`.
unfoldable pub get_this : ℕ → Thread → ℕ × Thread
unfolding main_fiber
get_this p t = elim t.t_fiber [
  | some f ↦ (f, t)
  | none ↦ (p, record (main_fiber p t) { t_thread_fiber = some p })
]

-- Fiber(cb, stacksize, run_in_scheduler), at the address `p`
unfoldable pub new_fiber : ℕ → Option Callback → ℕ → Bool → Thread → Thread
new_fiber p cb stacksize run_in_scheduler t =
    let made : Fiber = record {
      id = t.s_fiber_id;
      stacksize = u32 (if stacksize == 0 then fiber_stack_size else stacksize);
      state = ready;
      ctx = entry;
      stack = true;
      cb = cb;
      run_in_scheduler = run_in_scheduler;
    } in
    record t {
      heap = put t.heap p made;
      s_fiber_id = u64 (t.s_fiber_id + 1);
      s_fiber_count = u64 (t.s_fiber_count + 1);
    }

abbrev pub is_this : Option ℕ → ℕ → Bool
is_this none f = false
is_this (some g) f = g == f

-- ~Fiber()
unfoldable pub destroy : ℕ → Thread → Result Thread
unfolding set_this
destroy f t =
    let fewer = record t { s_fiber_count = u64 (t.s_fiber_count + (2 ^ 64 - 1)) } in
    if (t.heap f).stack then (do guard (is_term (t.heap f).state); ok fewer) else do
      guard (not (is_some (t.heap f).cb))
      guard (is_running (t.heap f).state)
      ok (if is_this t.t_fiber f then set_this none fewer else fewer)

-- Fiber::reset
unfoldable pub reset : ℕ → Option Callback → Thread → Result Thread
reset f cb t = do
  guard (t.heap f).stack
  guard (is_term (t.heap f).state)
  ok (record t { heap = put t.heap f (record (t.heap f) { cb = cb; ctx = entry; state = ready }) })

-- Which fiber's code a context continues.
abbrev pub target : ℕ → Context → Option ℕ
target f unset = none
target f entry = some f
target f (point g) = some g

abbrev pub saved : Option ℕ → Context
saved none = unset
saved (some g) = point g

-- swapcontext(&from->m_ctx, &to->m_ctx): the running code is saved in `from`, and `to` is continued.
unfoldable pub swap_context : ℕ → ℕ → Thread → Thread
swap_context from to t =
    let heap = put t.heap from (record (t.heap from) { ctx = saved t.cpu }) in
    record t { heap = heap; cpu = target to (heap to).ctx }

-- The fiber that a switch leaves or enters on the other side: a null pointer is read through.
abbrev pub other_side : ℕ → Thread → Option ℕ
other_side f t = if (t.heap f).run_in_scheduler then t.t_scheduler_fiber else t.t_thread_fiber

abbrev pub set_state : State → ℕ → Thread → Thread
set_state s f t = record t { heap = put t.heap f (record (t.heap f) { state = s }) }

-- Fiber::resume, up to the switch. What runs then is `cpu`.
unfoldable pub resume : ℕ → Thread → Result Thread
unfolding set_this swap_context
resume f t = do
  guard (not (is_term (t.heap f).state) && not (is_running (t.heap f).state))
  elim (other_side f t) [
    | none ↦ err null_pointer
    | some from ↦ ok (swap_context from f (set_state running f (set_this (some f) t)))
  ]

-- Fiber::yield, up to the switch
unfoldable pub yield : ℕ → Thread → Result Thread
unfolding set_this swap_context
yield f t = do
  guard (is_running (t.heap f).state || is_term (t.heap f).state)
  let here = set_this t.t_thread_fiber t
  let parked = if is_term (t.heap f).state then here else set_state ready f here
  elim (other_side f t) [ none ↦ err null_pointer | some to ↦ ok (swap_context f to parked) ]

-- Fiber::MainFunc after the callback has returned, in the fiber `f`
unfoldable pub main_func_end : ℕ → Thread → Result Thread
unfolding yield
main_func_end f t =
    yield f (record t { heap = put t.heap f (record (t.heap f) { cb = none; state = term }) })

-- Fiber::MainFunc up to the callback: the fiber that `GetThis` names, and what it calls. Calling an
-- empty function throws.
unfoldable pub main_func_calls : Thread → Option Callback
main_func_calls t = elim t.t_fiber [ none ↦ none | some f ↦ (t.heap f).cb ]
