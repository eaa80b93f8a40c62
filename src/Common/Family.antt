-- ===== src/Common/Family.antt =====
-- Families indexed by a thread's number: a write at one index, and sums over the first `n`.
use Prim.Native.Nat.{ℕ, zero, suc, ◌+◌, ◌≤◌, ◌<◌}
use mathlib.Core.Path.{◌≡◌, refl}
use native.Mathlib.Omega.{arith}
use native.Mathlib.Decide.{dec_lt}
use my_coroutine.Common.Tests.{◌==◌, if◌then◌else◌}

abbrev pub update {ℓ} : {A : Type ℓ} → (ℕ → A) → ℕ → A → ℕ → A
update f i a j = if i == j then a else f j

-- Of two writes at one index the second counts.
pub update_twice {ℓ} :
    {A : Type ℓ} (f : ℕ → A) (i : ℕ) (a b : A) (j : ℕ)
    → update (update f i a) i b j ≡ update f i b j
update_twice f i a b j = ground arith

module _ {ℓ} {A : Type ℓ} (w : A → ℕ) where
  unfoldable pub sum_over : ℕ → (ℕ → A) → ℕ
  sum_over zero f = 0
  sum_over (suc n) f = w (f n) + sum_over n f

  pub sum_over-update_beyond :
      (n : ℕ) (f : ℕ → A) (i : ℕ) (a : A) → n ≤ i → sum_over n (update f i a) ≡ sum_over n f
  unfolding sum_over
  sum_over-update_beyond zero f i a h = refl
  sum_over-update_beyond (suc n) f i a h = ground (arith, sum_over-update_beyond n f i a)

  -- A write moves the sum by the difference of the weights.
  pub sum_over-update :
      (n : ℕ) (f : ℕ → A) (i : ℕ) (a : A)
      → i < n
      → sum_over n (update f i a) + w (f i) ≡ sum_over n f + w a
  unfolding sum_over
  sum_over-update zero f i a h = absurd (omega arith)
  sum_over-update (suc n) f i a h = elim (dec_lt i n) [
    | yes below ↦ ground (arith, sum_over-update n f i a below)
    | no last ↦ ground (arith, sum_over-update_beyond n f i a)
  ]

  pub sum_over-const : (n : ℕ) (a : A) → w a ≡ 0 → sum_over n (λ _. a) ≡ 0
  unfolding sum_over
  sum_over-const zero a h = refl
  sum_over-const (suc n) a h = omega (arith, sum_over-const n a h)

-- Where one weight bounds another, so do the sums.
pub sum_over_mono {ℓ} :
    {A : Type ℓ} (v w : A → ℕ)
    → ((a : A) → v a ≤ w a)
    → (n : ℕ) (f : ℕ → A) → sum_over v n f ≤ sum_over w n f
unfolding sum_over
sum_over_mono v w le zero f = omega arith
sum_over_mono v w le (suc n) f = omega (arith, le (f n), sum_over_mono v w le n f)
