-- ===== src/Base/Words.antt =====
-- Unsigned machine arithmetic: `size_t` and `uintptr_t` have 64 bits, `uint32_t` has 32. `-` on ℕ
-- stops at 0, so the modulus is added before a subtraction.
use Prim.Native.Nat.{ℕ, ◌+◌, ◌-◌, ◌*◌, ◌%◌, ◌^◌}

abbrev pub add_size : ℕ → ℕ → ℕ
add_size a b = (a + b) % 2 ^ 64

abbrev pub sub_size : ℕ → ℕ → ℕ
sub_size a b = (2 ^ 64 + a - b) % 2 ^ 64

abbrev pub mul_size : ℕ → ℕ → ℕ
mul_size a b = (a * b) % 2 ^ 64

abbrev pub add_u32 : ℕ → ℕ → ℕ
add_u32 a b = (a + b) % 2 ^ 32

abbrev pub sub_u32 : ℕ → ℕ → ℕ
sub_u32 a b = (2 ^ 32 + a - b) % 2 ^ 32

abbrev pub mul_u32 : ℕ → ℕ → ℕ
mul_u32 a b = (a * b) % 2 ^ 32
