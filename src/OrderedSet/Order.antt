-- ===== src/OrderedSet/Order.antt =====
-- Strict orders given by a Boolean comparator, and lists in their order.
use my_coroutine.Common.{ℕ, ◌≡◌, Bool, true, false, List, [], ◌∷◌}

-- What `std::set` asks of its comparator, for one that tells all addresses apart.
pub record IsStrictOrder (less : ℕ → ℕ → Bool) : Type 0 where
  pub irrefl : (a : ℕ) → less a a ≡ false
  pub trans : (a b c : ℕ) → less a b ≡ true → less b c ≡ true → less a c ≡ true
  pub total : (a b : ℕ) → less a b ≡ false → less b a ≡ false → a ≡ b

-- All elements come after `x`.
abbrev pub After : (ℕ → ℕ → Bool) → ℕ → List ℕ → Type 0
After less x [] = Unit {0}
After less x (y ∷ ys) = (less x y ≡ true) × After less x ys

abbrev pub IsSorted : (ℕ → ℕ → Bool) → List ℕ → Type 0
IsSorted less [] = Unit {0}
IsSorted less (x ∷ xs) = After less x xs × IsSorted less xs
