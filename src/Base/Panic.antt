-- ===== src/Base/Panic.antt =====
-- Code that may stop in `assertion_failed`, which does not return: `none` is that stop. `ENSURE`
-- always checks; `ASSERT` checks in a build with ASSERTIONS, and the theorems that a step returns
-- `some` say that no check of either kind fails. An access outside a block of memory is `none` too.
use mathlib.Core.Bool.{Bool, true, false}
use mathlib.Core.Option.{Option, none, some}

infixl 5 ◌>>=◌ ◌>>◌
abbrev pub ◌>>=◌ {ℓ κ} : {A : Type ℓ} {B : Type κ} → Option A → (A → Option B) → Option B
none >>= f = none
some a >>= f = f a

abbrev pub ◌>>◌ {ℓ} : {B : Type ℓ} → Option (Unit {0}) → Option B → Option B
m >> k = m >>= λ _. k

abbrev pub assert : Bool → Option (Unit {0})
assert true = some tt
assert false = none
