-- ===== src/Common/Fault.antt =====
-- Code that may stop the program: a failed `assert` or `MYASSERT`, or undefined behaviour.
use mathlib.Core.Bool.{Bool, true, false}

-- `assertion` is `assert(false)`; the others are undefined behaviour that the code can reach.
pub data Fault : Type 0 where
  assertion out_of_bounds null_pointer erase_end : Fault

pub data Result {ℓ} (A : Type ℓ) : Type ℓ where
  ok : A → Result A
  err : Fault → Result A

infixl 5 ◌>>=◌ ◌>>◌
-- What follows a call: it is skipped where the call has stopped the program.
abbrev pub ◌>>=◌ {ℓ κ} : {A : Type ℓ} → {B : Type κ} → Result A → (A → Result B) → Result B
ok value >>= next = next value
err fault >>= next = err fault

abbrev pub ◌>>◌ {ℓ} : {B : Type ℓ} → Result (Unit {0}) → Result B → Result B
check >> rest = check >>= λ _. rest

-- `MYASSERT(flag, ...)` and `assert(flag)`.
abbrev pub guard : Bool → Result (Unit {0})
guard true = ok tt
guard false = err assertion

-- The code returns, and what it returns has the property.
abbrev pub Returns {ℓ} : {A : Type ℓ} → (A → Type 0) → Result A → Type 0
Returns P (ok a) = P a
Returns P (err e) = ⊥

-- Where the code returns, what it returns has the property.
abbrev pub Ensures {ℓ} : {A : Type ℓ} → (A → Type 0) → Result A → Type 0
Ensures P (ok a) = P a
Ensures P (err e) = Unit {0}

pub Ensures-bind {ℓ κ} :
    {A : Type ℓ} {B : Type κ} (P : A → Type 0) (Q : B → Type 0) (r : Result A) (f : A → Result B)
    → Ensures P r
    → ((a : A) → P a → Ensures Q (f a))
    → Ensures Q (r >>= f)
Ensures-bind P Q (ok a) f h k = k a h
Ensures-bind P Q (err e) f h k = tt

pub anyway {ℓ} : {A : Type ℓ} (r : Result A) → Ensures (λ _. Unit {0}) r
anyway (ok a) = tt
anyway (err e) = tt
