-- ===== src/Base/Slices.antt =====
-- `memcpy` into and out of a block of memory, and the laws of the two copies.
use Prim.Native.Nat.{ℕ, zero, suc, ◌+◌, ◌≤◌}
use mathlib.Core.Path.{◌≡◌, refl, ap}
use mathlib.Core.List.{List, [], ◌∷◌, ◌++◌}
use native.Mathlib.Omega.{arith}
use umbongo.Base.Lists.{length, take, drop, length-take, length-drop}

module _ {ℓ} {A : Type ℓ} where
  -- `memcpy(memory + at, source, length source)`; what would fall outside `memory` is dropped.
  unfoldable pub copy_in : List A → ℕ → List A → List A
  copy_in [] at source = []
  copy_in (y ∷ memory) (suc at) source = y ∷ copy_in memory at source
  copy_in (y ∷ memory) zero [] = y ∷ memory
  copy_in (y ∷ memory) zero (x ∷ source) = x ∷ copy_in memory zero source

  -- `memcpy(destination, memory + at, n)`.
  unfoldable pub copy_out : List A → ℕ → ℕ → List A
  copy_out memory at n = take n (drop at memory)

  pub length-copy_in :
      (memory : List A) (at : ℕ) (source : List A)
      → length (copy_in memory at source) ≡ length memory
  unfolding copy_in
  length-copy_in [] at source = refl
  length-copy_in (y ∷ memory) (suc at) source = ap suc (length-copy_in memory at source)
  length-copy_in (y ∷ memory) zero [] = refl
  length-copy_in (y ∷ memory) zero (x ∷ source) = ap suc (length-copy_in memory zero source)

  pub length-copy_out :
      (memory : List A) (at n : ℕ) → at + n ≤ length memory → length (copy_out memory at n) ≡ n
  unfolding copy_out
  length-copy_out memory at n h =
      omega (arith, length-take n (drop at memory), length-drop at memory)

  -- What lies before the bytes that are written is not changed,
  pub copy_out-copy_in_before :
      (memory source : List A) (at from n : ℕ)
      → from + n ≤ at
      → copy_out (copy_in memory at source) from n ≡ copy_out memory from n
  unfolding copy_in copy_out
  copy_out-copy_in_before [] source at from n h = refl
  copy_out-copy_in_before (y ∷ memory) source (suc at) (suc from) n h =
      copy_out-copy_in_before memory source at from n (omega arith)
  copy_out-copy_in_before (y ∷ memory) source zero (suc from) n h = absurd (omega arith)
  copy_out-copy_in_before (y ∷ memory) source at zero zero h = refl
  copy_out-copy_in_before (y ∷ memory) source zero zero (suc n) h = absurd (omega arith)
  copy_out-copy_in_before (y ∷ memory) source (suc at) zero (suc n) h =
      ap (λ t. y ∷ t) (copy_out-copy_in_before memory source at zero n (omega arith))

  -- nor what lies behind them;
  pub copy_out-copy_in_behind :
      (memory source : List A) (at from n : ℕ)
      → at + length source ≤ from
      → copy_out (copy_in memory at source) from n ≡ copy_out memory from n
  unfolding copy_in copy_out
  copy_out-copy_in_behind [] source at from n h = refl
  copy_out-copy_in_behind (y ∷ memory) source (suc at) zero n h = absurd (omega arith)
  copy_out-copy_in_behind (y ∷ memory) source (suc at) (suc from) n h =
      copy_out-copy_in_behind memory source at from n (omega arith)
  copy_out-copy_in_behind (y ∷ memory) [] zero from n h = refl
  copy_out-copy_in_behind (y ∷ memory) (x ∷ source) zero zero n h = absurd (omega arith)
  copy_out-copy_in_behind (y ∷ memory) (x ∷ source) zero (suc from) n h =
      copy_out-copy_in_behind memory source zero from n (omega arith)

  -- they themselves are the source.
  pub copy_out-copy_in_self :
      (memory source : List A) (at : ℕ)
      → at + length source ≤ length memory
      → copy_out (copy_in memory at source) at (length source) ≡ source
  unfolding copy_in copy_out
  copy_out-copy_in_self [] [] zero h = refl
  copy_out-copy_in_self [] [] (suc at) h = absurd (omega arith)
  copy_out-copy_in_self [] (x ∷ source) at h = absurd (omega arith)
  copy_out-copy_in_self (y ∷ memory) source (suc at) h =
      copy_out-copy_in_self memory source at (omega arith)
  copy_out-copy_in_self (y ∷ memory) [] zero h = refl
  copy_out-copy_in_self (y ∷ memory) (x ∷ source) zero h =
      ap (λ t. x ∷ t) (copy_out-copy_in_self memory source zero (omega arith))

copy_out-nil {ℓ} : (A : Type ℓ) (at n : ℕ) → copy_out {A = A} [] at n ≡ []
unfolding copy_out
copy_out-nil A zero zero = refl
copy_out-nil A zero (suc n) = refl
copy_out-nil A (suc at) zero = refl
copy_out-nil A (suc at) (suc n) = refl

module _ {ℓ} {A : Type ℓ} where
  -- Two copies that meet are one. The sums are variables with an equation, since `suc a + b` is
  -- stuck.
  pub copy_out-append :
      (memory : List A) (at n m k l : ℕ)
      → n + m ≡ k
      → at + n ≡ l
      → copy_out memory at k ≡ copy_out memory at n ++ copy_out memory l m
  unfolding copy_out
  copy_out-append [] at n m k l e f =
      rw (copy_out-nil A at k, copy_out-nil A at n, copy_out-nil A l m)
  copy_out-append (y ∷ memory) (suc at) n m k zero e f = absurd (omega arith)
  copy_out-append (y ∷ memory) (suc at) n m k (suc l) e f =
      copy_out-append memory at n m k l e (omega arith)
  copy_out-append (y ∷ memory) zero zero m k zero e f =
      ap (λ t. copy_out (y ∷ memory) 0 t) (omega arith)
  copy_out-append (y ∷ memory) zero zero m k (suc l) e f = absurd (omega arith)
  copy_out-append (y ∷ memory) zero (suc n) m zero l e f = absurd (omega arith)
  copy_out-append (y ∷ memory) zero (suc n) m (suc k) zero e f = absurd (omega arith)
  copy_out-append (y ∷ memory) zero (suc n) m (suc k) (suc l) e f =
      ap (λ t. y ∷ t) (copy_out-append memory zero n m k l (omega arith) (omega arith))

  pub copy_out-zero : (memory : List A) (at : ℕ) → copy_out memory at 0 ≡ []
  unfolding copy_out
  copy_out-zero memory at = refl
