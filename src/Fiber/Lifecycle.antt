-- ===== src/Fiber/Lifecycle.antt =====
-- The states of a fiber, and its construction and destruction.
use my_coroutine.Common.{
  ℕ, ◌+◌, ◌-◌, ◌<◌, ◌^◌, ◌≡◌, Bool, false, Option, none, some, arith, ◌==◌, if◌then◌else◌, Result,
  ok, err, assertion,
}
use my_coroutine.Callback.{Callback}
use my_coroutine.Fiber.{
  State, ready, running, term, Thread, resume, yield, main_func_end, reset, get_this, new_fiber,
  destroy, u64, is_term,
}

pub data Op : Type 0 where
  resumes yields finishes : ℕ → Op
  resets : ℕ → Option Callback → Op

abbrev pub subject : Op → ℕ
subject (resumes f) = f
subject (yields f) = f
subject (finishes f) = f
subject (resets f cb) = f

unfoldable pub apply : Op → Thread → Result Thread
unfolding resume yield main_func_end reset
apply (resumes f) t = resume f t
apply (yields f) t = yield f t
apply (finishes f) t = main_func_end f t
apply (resets f cb) t = reset f cb t

-- What an operation makes of the state of its fiber; `none` where the program is stopped.
unfoldable pub next_state : Op → State → Option State
next_state (resumes f) ready = some running
next_state (resumes f) _ = none
next_state (yields f) ready = none
next_state (yields f) running = some ready
next_state (yields f) term = some term
next_state (finishes f) _ = some term
next_state (resets f cb) term = some ready
next_state (resets f cb) _ = none

-- resume, yield, the end of MainFunc and reset, where they return, have changed the state of their
-- fiber as the state table says, and of no other fiber.
pub apply-next_state :
    (op : Op) (t : Thread) {u : Thread}
    → apply op t ≡ ok u
    → (next_state op (t.heap (subject op)).state ≡ some (u.heap (subject op)).state)
      × ((g : ℕ) → (subject op == g) ≡ false → (u.heap g).state ≡ (t.heap g).state)
unfolding apply next_state
apply-next_state (resumes f) t h = (ground arith, λ g n. ground arith)
apply-next_state (yields f) t h = (ground arith, λ g n. ground arith)
apply-next_state (finishes f) t h = (ground arith, λ g n. ground arith)
apply-next_state (resets f cb) t h = (ground arith, λ g n. ground arith)

-- Where the state table has no entry for the operation and the state of its fiber, the program is
-- stopped by an assertion.
apply-assertion :
    (op : Op) (t : Thread)
    → next_state op (t.heap (subject op)).state ≡ none
    → apply op t ≡ err assertion
unfolding apply next_state
apply-assertion (resumes f) t h = ground arith
apply-assertion (yields f) t h = ground arith
apply-assertion (finishes f) t h = ground arith
apply-assertion (resets f cb) t h = ground arith

-- GetThis makes the current fiber of a thread that has none, and after that it returns that fiber
-- and changes nothing.
get_this_twice :
    (p q : ℕ) (t : Thread)
    → ((get_this p t).1.t_fiber ≡ some (get_this p t).0)
      × (get_this q (get_this p t).1 ≡ get_this p t)
unfolding get_this
get_this_twice p q t = (ground arith, ground arith)

count_back : (c : ℕ) → c < 2 ^ 64 → u64 (u64 (c + 1) + (2 ^ 64 - 1)) ≡ c
count_back c small = omega arith

-- For a thread without a fiber, whose count of fibers is below 2^64: the destructor of the main
-- fiber that GetThis makes stops the program by an assertion if the memory was not null where
-- m_stack is, and otherwise leaves the thread with no current fiber and the count as it was.
destroy_main :
    (p : ℕ) (t : Thread)
    → t.t_fiber ≡ none
    → t.s_fiber_count < 2 ^ 64
    → destroy p (get_this p t).1 ≡ (
        if (t.heap p).stack
        then err assertion
        else ok (record (get_this p t).1 { t_fiber = none; s_fiber_count = t.s_fiber_count }))
unfolding destroy get_this
destroy_main p t h small = ground (arith, count_back t.s_fiber_count)

-- A fiber that the constructor made, with a count below 2^64 that has not changed since and the
-- stack it was given, can be destroyed once it is finished, which leaves the count as it was before
-- the construction; until then the destructor stops the program.
destroy-new_fiber :
    (p : ℕ) (cb : Option Callback) (stacksize : ℕ) (in_scheduler : Bool) (t u : Thread)
    → t.s_fiber_count < 2 ^ 64
    → u.s_fiber_count ≡ (new_fiber p cb stacksize in_scheduler t).s_fiber_count
    → (u.heap p).stack ≡ ((new_fiber p cb stacksize in_scheduler t).heap p).stack
    → destroy p u ≡ (
        if is_term (u.heap p).state
        then ok (record u { s_fiber_count = t.s_fiber_count })
        else err assertion)
unfolding destroy new_fiber
destroy-new_fiber p cb stacksize in_scheduler t u small counted stacked =
    ground (arith, count_back t.s_fiber_count)
