-- ===== src/Timer/Due.antt =====
-- Which timers `listExpiredCb` takes: its binary search and its loop over the timers whose deadline is
-- `now` split the set into the timers that are due and the others.
use my_coroutine.Common.{
  ℕ, Bool, ◌≡◌, refl, ap, true, false, not, List, [], ◌∷◌, ◌++◌, arith, filter, inl, inr,
  Bool-cases,
}
use my_coroutine.Common.Int.{ℤ, ◌≤ℤ◌, ◌<ℤ◌, leb_ℤ}
use my_coroutine.OrderedSet.{before_bound, from_bound}
use my_coroutine.OrderedSet.Order.{IsSorted, After}
use my_coroutine.Timer.{less, passed_now, left_now}
use my_coroutine.Timer.Comparator.{Timer, comparator}

-- A timer is due once its deadline has come.
abbrev pub due : (ℕ → Timer) → ℤ → ℕ → Bool
due heap now a = leb_ℤ (heap a).next now

abbrev pub not_due : (ℕ → Timer) → ℤ → ℕ → Bool
not_due heap now a = not (due heap now a)

-- No deadline of the list is before `t`.
abbrev pub NotBefore : (ℕ → Timer) → ℤ → List ℕ → Type 0
NotBefore heap t [] = Unit {0}
NotBefore heap t (x ∷ xs) = (t ≤ℤ (heap x).next) × NotBefore heap t xs

module _ (heap : ℕ → Timer) where
  pub NotBefore-mono : (s t : ℤ) (xs : List ℕ) → s ≤ℤ t → NotBefore heap t xs → NotBefore heap s xs
  NotBefore-mono s t [] h n = tt
  NotBefore-mono s t (x ∷ xs) h n = (omega arith, NotBefore-mono s t xs h n.1)

  pub NotBefore-After :
      (x : ℕ) (xs : List ℕ) → After (less heap) x xs → NotBefore heap (heap x).next xs
  unfolding comparator
  NotBefore-After x [] t = tt
  NotBefore-After x (y ∷ ys) t = (ground arith, NotBefore-After x ys t.1)

  module _ (now : ℤ) where
    pub none_due :
        (t : ℤ) (xs : List ℕ) → now <ℤ t → NotBefore heap t xs → filter (due heap now) xs ≡ []
    none_due t [] h n = refl
    none_due t (x ∷ xs) h n = ground (arith, none_due t xs h n.1)

    pub all_left :
        (t : ℤ) (xs : List ℕ) → now <ℤ t → NotBefore heap t xs → filter (not_due heap now) xs ≡ xs
    all_left t [] h n = refl
    all_left t (x ∷ xs) h n = ground (arith, all_left t xs h n.1)

    passed_now-filter :
        (xs : List ℕ)
        → IsSorted (less heap) xs
        → NotBefore heap now xs
        → (passed_now heap now xs ≡ filter (due heap now) xs)
          × (left_now heap now xs ≡ filter (not_due heap now) xs)
    unfolding passed_now left_now
    passed_now-filter [] s n = (refl, refl)
    passed_now-filter (x ∷ xs) s n =
        let later = NotBefore-After x xs s.0 in
        ground (
          arith,
          passed_now-filter xs s.1 n.1,
          λ (h : now <ℤ (heap x).next). none_due (heap x).next xs h later,
          λ (h : now <ℤ (heap x).next). all_left (heap x).next xs h later,
        )

    due_of_less : (x p : ℕ) → (heap p).next ≡ now → less heap x p ≡ true → due heap now x ≡ true
    unfolding comparator
    due_of_less x p e l = ground arith

    not_before_of_less :
        (x p : ℕ) → (heap p).next ≡ now → less heap x p ≡ false → now ≤ℤ (heap x).next
    unfolding comparator
    not_before_of_less x p e l = ground arith

    -- The search for `now_timer`, at address `p`, and the loop after it.
    pub split_at_now :
        (p : ℕ) (xs : List ℕ)
        → (heap p).next ≡ now
        → IsSorted (less heap) xs
        → (before_bound (less heap) p xs ++ passed_now heap now (from_bound (less heap) p xs)
            ≡ filter (due heap now) xs)
          × (left_now heap now (from_bound (less heap) p xs) ≡ filter (not_due heap now) xs)
    unfolding before_bound from_bound
    split_at_now p [] e s = passed_now-filter [] tt tt
    split_at_now p (x ∷ xs) e s = elim (Bool-cases (less heap x p)) [
      | inl l ↦
          let (low, high) = split_at_now p xs e s.1 in
          rw (l, due_of_less x p e l) (ap (◌∷◌ x) low, high)
      | inr l ↦ rw l (
          passed_now-filter (x ∷ xs) s (
            not_before_of_less x p e l,
            NotBefore-mono now (heap x).next xs (not_before_of_less x p e l)
                (NotBefore-After x xs s.0),
          ))
    ]
