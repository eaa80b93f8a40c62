-- ===== src/Fiber/Identity.antt =====
-- The ids of the fibers, over any calls of Fiber.cpp.
use my_coroutine.Common.{
  ℕ, ◌+◌, ◌<◌, ◌^◌, ◌≡◌, refl, sym, ◌∙◌, Bool, true, false, Option, none, arith, ◌==◌, ok,
}
use my_coroutine.Common.Family.{update}
use my_coroutine.Callback.{Callback}
use my_coroutine.Fiber.{Thread, get_this, new_fiber, destroy, u64}
use my_coroutine.Fiber.Lifecycle.{Op, resumes, yields, finishes, resets, subject, apply}

-- The states that calls lead to: the thread, the addresses where a fiber is, and how many fibers have been
-- made, by this thread or by another one.
pub data Reach : Thread → (ℕ → Bool) → ℕ → Type 0 where
  begins : (t : Thread) → t.s_fiber_id ≡ 0 → Reach t (λ _. false) 0
  gets :
      {t : Thread} {live : ℕ → Bool} {made : ℕ} (p : ℕ)
      → Reach t live made
      → live p ≡ false
      → t.t_fiber ≡ none
      → Reach (get_this p t).1 (update live p true) (made + 1)
  makes :
      {t : Thread} {live : ℕ → Bool} {made : ℕ} (p : ℕ) (cb : Option Callback) (stacksize : ℕ)
      (run_in_scheduler : Bool)
      → Reach t live made
      → live p ≡ false
      → Reach (new_fiber p cb stacksize run_in_scheduler t) (update live p true) (made + 1)
  calls :
      {t : Thread} {live : ℕ → Bool} {made : ℕ} (op : Op) (u : Thread)
      → Reach t live made
      → live (subject op) ≡ true
      → apply op t ≡ ok u
      → Reach u live made
  destroys :
      {t : Thread} {live : ℕ → Bool} {made : ℕ} (f : ℕ) (u : Thread)
      → Reach t live made
      → live f ≡ true
      → destroy f t ≡ ok u
      → Reach u (update live f false) made
  -- another thread makes a fiber
  elsewhere :
      {t : Thread} {live : ℕ → Bool} {made : ℕ}
      → Reach t live made
      → Reach (record t { s_fiber_id = u64 (t.s_fiber_id + 1) }) live (made + 1)

-- The ids of the fibers
abbrev ids : Thread → ℕ → ℕ
ids t f = (t.heap f).id

-- The counter has counted the fibers that have been made, and the ids are below it and distinct.
record HasIds (id : ℕ → ℕ) (counter : ℕ) (live : ℕ → Bool) (made : ℕ) : Type 0 where
  next : counter ≡ made
  below : (f : ℕ) → live f ≡ true → id f < made
  distinct : (f g : ℕ) → live f ≡ true → live g ≡ true → id f ≡ id g → f ≡ g

-- A new fiber gets the next id.
one_more :
    (id id' : ℕ → ℕ) (counter : ℕ) (live : ℕ → Bool) (made p : ℕ)
    → HasIds id counter live made
    → made + 1 < 2 ^ 64
    → id' p ≡ counter
    → ((f : ℕ) → (p == f) ≡ false → id' f ≡ id f)
    → HasIds id' (u64 (counter + 1)) (update live p true) (made + 1)
one_more id id' counter live made p v small new old = record {
  next = omega (arith, v.next, small);
  below = λ f h. ground (arith, new, old f, v.below f, v.next);
  distinct =
      λ f g a b e. ground (arith, new, old f, old g, v.below f, v.below g, v.distinct f g, v.next);
}

apply_kept :
    (op : Op) (t u : Thread)
    → apply op t ≡ ok u
    → (u.s_fiber_id ≡ t.s_fiber_id) × ((f : ℕ) → ids u f ≡ ids t f)
unfolding apply
apply_kept (resumes g) t u h = (ground arith, λ f. ground arith)
apply_kept (yields g) t u h = (ground arith, λ f. ground arith)
apply_kept (finishes g) t u h = (ground arith, λ f. ground arith)
apply_kept (resets g cb) t u h = (ground arith, λ f. ground arith)

destroy_kept :
    (g : ℕ) (t u : Thread)
    → destroy g t ≡ ok u
    → (u.s_fiber_id ≡ t.s_fiber_id) × ((f : ℕ) → ids u f ≡ ids t f)
unfolding destroy
destroy_kept g t u h = (ground arith, λ f. ground arith)

get_this-ids :
    (p : ℕ) (t : Thread)
    → t.t_fiber ≡ none
    → (ids (get_this p t).1 p ≡ t.s_fiber_id)
      × ((get_this p t).1.s_fiber_id ≡ u64 (t.s_fiber_id + 1))
      × ((f : ℕ) → (p == f) ≡ false → ids (get_this p t).1 f ≡ ids t f)
unfolding get_this
get_this-ids p t h = (ground arith, ground arith, λ f other. ground arith)

new_fiber-ids :
    (p : ℕ) (cb : Option Callback) (stacksize : ℕ) (run_in_scheduler : Bool) (t : Thread)
    → let u = new_fiber p cb stacksize run_in_scheduler t in
      (ids u p ≡ t.s_fiber_id)
      × (u.s_fiber_id ≡ u64 (t.s_fiber_id + 1))
      × ((f : ℕ) → (p == f) ≡ false → ids u f ≡ ids t f)
unfolding new_fiber
new_fiber-ids p cb stacksize run_in_scheduler t = (ground arith, refl, λ f other. ground arith)

-- Where a call keeps the ids and the counter, and no fiber is added, the ids stay distinct.
none_more :
    {id id' : ℕ → ℕ} {counter counter' : ℕ} {live live' : ℕ → Bool} {made : ℕ}
    → HasIds id counter live made
    → counter' ≡ counter
    → ((f : ℕ) → id' f ≡ id f)
    → ((f : ℕ) → live' f ≡ true → live f ≡ true)
    → HasIds id' counter' live' made
none_more v same kept fewer = record {
  next = same ∙ v.next;
  below = λ f h. ground (arith, kept f, v.below f (fewer f h));
  distinct = λ f g a b e. v.distinct f g (fewer f a) (fewer g b) (sym (kept f) ∙ e ∙ kept g);
}

Reach-HasIds :
    {t : Thread} {live : ℕ → Bool} {made : ℕ}
    → Reach t live made
    → made < 2 ^ 64
    → HasIds (ids t) t.s_fiber_id live made
Reach-HasIds (begins t start) small = record {
  next = start;
  below = λ f h. ground arith;
  distinct = λ f g a b e. ground arith;
}
Reach-HasIds (gets {t = t} {live = live} {made = made} p r free bare) small =
    let (new, counter, old) = get_this-ids p t bare in
    none_more
      (one_more (ids t) (ids (get_this p t).1) t.s_fiber_id live made p
        (Reach-HasIds r (omega (arith, small))) small new old)
      counter (λ f. refl) (λ f h. h)
Reach-HasIds (makes {t = t} {live = live} {made = made} p cb stacksize run_in_scheduler r free)
      small =
    let u : Thread = new_fiber p cb stacksize run_in_scheduler t in
    let (new, counter, old) = new_fiber-ids p cb stacksize run_in_scheduler t in
    none_more
      (one_more (ids t) (ids u) t.s_fiber_id live made p (Reach-HasIds r (omega (arith, small)))
        small new old)
      counter (λ f. refl) (λ f h. h)
Reach-HasIds (calls {t = t} op u r exists e) small =
    let (counter, kept) = apply_kept op t u e in
    none_more (Reach-HasIds r small) counter kept (λ f h. h)
Reach-HasIds (destroys {t = t} g u r exists e) small =
    let (counter, kept) = destroy_kept g t u e in
    none_more (Reach-HasIds r small) counter kept (λ f h. ground arith)
Reach-HasIds (elsewhere {t = t} {made = made} r) small =
    let v = Reach-HasIds r (omega (arith, small)) in
    record {
      next = omega (arith, v.next, small);
      below = λ f h. omega (arith, v.below f h);
      distinct = v.distinct;
    }

-- After any calls of GetThis on a thread without a fiber, of the constructor, resume, yield, the
-- end of MainFunc, reset and the destructor, on fibers that exist and at addresses where none is,
-- with fibers that other threads make in between, from a start with the counter of ids at 0 and
-- while fewer than 2^64 fibers have been made: the id of a fiber that exists is below the number of
-- fibers made, and two fibers that exist have different ids.
pub distinct_ids :
    {t : Thread} {live : ℕ → Bool} {made : ℕ} (f g : ℕ)
    → Reach t live made
    → made < 2 ^ 64
    → live f ≡ true
    → live g ≡ true
    → (f == g) ≡ false
    → ((t.heap f).id < made) × (((t.heap f).id == (t.heap g).id) ≡ false)
distinct_ids f g r small a b other =
    let v = Reach-HasIds r small in (v.below f a, ground (arith, v.distinct f g a b))
