-- ===== src/Prelude/Process.antt =====
-- Computations that the process may not survive.
use mathlib.Core.Bool.{Bool, true, false}
use mathlib.Core.Path.{◌≡◌}
use tiny_compile.Prelude.Tests.{if◌then◌else◌}

-- a read through a null pointer, a call of `exit(1)`, one of `abort()`, or a division that traps
pub data Stop : Type 0 where
  null_dereference exit_failure aborted arithmetic_trap : Stop

pub data Run {ℓ} (A : Type ℓ) : Type ℓ where
  ok : A → Run A
  stop : Stop → Run A

-- The rest of the computation is run unless the process has stopped.
infixl 5 ◌>>=◌
abbrev pub ◌>>=◌ {ℓ κ} : {S : Type ℓ} {T : Type κ} → Run S → (S → Run T) → Run T
stop reason >>= rest = stop reason
ok state >>= rest = rest state

-- a property of what a computation returns, if the process lives on
abbrev pub IfRuns {ℓ} : {A : Type ℓ} → (A → Type 0) → Run A → Type 0
IfRuns P (ok a) = P a
IfRuns P (stop reason) = Unit

pub IfRuns-bind {ℓ κ} :
    {A : Type ℓ} {B : Type κ} (P : A → Type 0) (Q : B → Type 0) (m : Run A) (k : A → Run B)
    → IfRuns P m
    → ((a : A) → P a → IfRuns Q (k a))
    → IfRuns Q (m >>= k)
IfRuns-bind P Q (ok a) k h next = next a h
IfRuns-bind P Q (stop reason) k h next = tt

-- where the first result does not matter
pub IfRuns-any {ℓ κ} :
    {A : Type ℓ} {B : Type κ} (Q : B → Type 0) (m : Run A) (k : A → Run B)
    → ((a : A) → IfRuns Q (k a))
    → IfRuns Q (m >>= k)
IfRuns-any Q (ok a) k next = next a
IfRuns-any Q (stop reason) k next = tt

pub IfRuns-if {ℓ} :
    {A : Type ℓ} (b : Bool) (P : A → Type 0) (m n : Run A)
    → IfRuns P m
    → IfRuns P n
    → IfRuns P (if b then m else n)
IfRuns-if true P m n p q = p
IfRuns-if false P m n p q = q

pub IfRuns-ok {ℓ} : {A : Type ℓ} (P : A → Type 0) (m : Run A) (a : A) → IfRuns P m → m ≡ ok a → P a
IfRuns-ok P m a h e = rw e at h
