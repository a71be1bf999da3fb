-- ===== src/Base/Outcome.antt =====
-- Code with a loop on fuel that may panic: `no_fuel` is told apart, and theorems exclude it.
pub data Outcome {ℓ} (A : Type ℓ) : Type ℓ where
  done : A → Outcome A
  panic : Outcome A
  no_fuel : Outcome A

infixl 5 ◌>>=◌
abbrev pub ◌>>=◌ {ℓ κ} : {A : Type ℓ} {B : Type κ} → Outcome A → (A → Outcome B) → Outcome B
done a >>= f = f a
panic >>= f = panic
no_fuel >>= f = no_fuel
