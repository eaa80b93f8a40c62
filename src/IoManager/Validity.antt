-- ===== src/IoManager/Validity.antt =====
-- An invariant of the event contexts of IOManager.cpp, between two calls.
use my_coroutine.Common.{
  ℕ, zero, suc, ◌+◌, ◌*◌, ◌^◌, ◌≤◌, ◌<◌, ◌≡◌, true, false, ◌⊎◌, inl, inr, some, List, [], ◌∷◌,
  arith, ◌==◌, is_some, length, get_elem?, set, get_elem?-set, length-set,
}
use my_coroutine.Common.Family.{update}
use my_coroutine.Scheduler.{ScheduleTask}
use my_coroutine.IoManager.{IoManager, is_blank}
use my_coroutine.IoManager.FdContexts.{size, FdContext}

-- An event that is not registered has a blank context, and one that is has a scheduler.
pub record ValidContext (c : FdContext) : Type 0 where
  pub read_blank : c.events.reads ≡ false → is_blank c.read_ctx ≡ true
  pub write_blank : c.events.writes ≡ false → is_blank c.write_ctx ≡ true
  pub read_set : c.events.reads ≡ true → is_some c.read_ctx.scheduler ≡ true
  pub write_set : c.events.writes ≡ true → is_some c.write_ctx.scheduler ≡ true

-- How many events are registered.
unfoldable pub registered : List FdContext → ℕ
registered [] = 0
registered (c ∷ cs) = size c.events + registered cs

pub record Valid (m : IoManager) : Type 0 where
  pub contexts_valid : (n : ℕ) (c : FdContext) → get_elem? m.contexts n ≡ some c → ValidContext c
  pub counted : m.pending ≡ registered m.contexts
  pub watches : (n : ℕ) (c : FdContext) → get_elem? m.contexts n ≡ some c → m.watched n ≡ c.events
  pub small : 2 * length m.contexts < 2 ^ 64

pub registered-set :
    (cs : List FdContext) (n : ℕ) (c c' : FdContext)
    → get_elem? cs n ≡ some c
    → registered (set cs n c') + size c.events ≡ registered cs + size c'.events
unfolding registered
registered-set [] n c c' e = cc
registered-set (x ∷ cs) zero c c' e = ground arith
registered-set (x ∷ cs) (suc n) c c' e = ground (arith, registered-set cs n c c' e)

pub registered-le : (cs : List FdContext) → registered cs ≤ 2 * length cs
unfolding registered
registered-le [] = omega arith
registered-le (c ∷ cs) = ground (arith, registered-le cs)

pub size-le-registered :
    (cs : List FdContext) (n : ℕ) (c : FdContext)
    → get_elem? cs n ≡ some c
    → size c.events ≤ registered cs
unfolding registered
size-le-registered [] n c e = cc
size-le-registered (x ∷ cs) zero c e = ground arith
size-le-registered (x ∷ cs) (suc n) c e = ground (arith, size-le-registered cs n c e)

pub get_elem?-length {ℓ} :
    {A : Type ℓ} (xs : List A) (n : ℕ) (a : A) → get_elem? xs n ≡ some a → n < length xs
get_elem?-length [] n a e = cc
get_elem?-length (x ∷ xs) zero a e = omega arith
get_elem?-length (x ∷ xs) (suc n) a e = omega (arith, get_elem?-length xs n a e)

pub set-cases :
    (xs : List FdContext) (n i : ℕ) (c d : FdContext)
    → get_elem? (set xs n c) i ≡ some d
    → ((n == i) ≡ true) × (d ≡ c) ⊎ ((n == i) ≡ false) × (get_elem? xs i ≡ some d)
set-cases xs n i c d e = ground (arith, get_elem?-set xs n i c)

-- One context is replaced, what epoll watches follows, and the count moves with the registered events.
pub replaced-Valid :
    (m : IoManager) (n : ℕ) (c c' : FdContext) (pending : ℕ) (scheduled : List (ℕ × ScheduleTask))
    → Valid m
    → get_elem? m.contexts n ≡ some c
    → ValidContext c'
    → pending + size c.events ≡ m.pending + size c'.events
    → Valid (record m {
      contexts = set m.contexts n c';
      watched = update m.watched n c'.events;
      pending = pending;
      scheduled = scheduled;
    })
replaced-Valid m n c c' pending scheduled v here valid' moved = record {
  contexts_valid = λ i d e. elim (set-cases m.contexts n i c' d e) [
    | inl (_, new) ↦ rw new valid'
    | inr (_, old) ↦ v.contexts_valid i d old
  ];
  counted = omega (arith, registered-set m.contexts n c c' here, v.counted);
  watches = λ i d e. elim (set-cases m.contexts n i c' d e) [
    | inl (hit, new) ↦ ground (arith, hit, new)
    | inr (miss, old) ↦ ground (arith, miss, v.watches i d old)
  ];
  small = omega (arith, v.small, length-set m.contexts n c');
}
