-- ===== src/Base/Bits.antt =====
-- The bits of a machine word, and what `|`, `&`, `~` and `1 << k` do to each of them.
pub mod Fields
use Prim.Native.Nat.{
  ℕ, zero, suc, ◌+◌, ◌-◌, ◌*◌, ◌/◌, ◌%◌, ◌^◌, ◌≤◌, ◌<◌, min, max, digits, bitwise, bit_and, bit_or,
  bit_and-bitwise, bit_or-bitwise,
}
use mathlib.Core.Path.{◌≡◌, refl, sym, ap, ap₂, ◌∙◌}
use mathlib.Core.Bool.{Bool, false, not, ◌&&◌, ◌||◌}
use native.Mathlib.Nat.{le_refl, pow-suc, one-le-pow, div-div-eq-div-mul}
use native.Mathlib.Omega.{arith}
use umbongo.Base.Tests.{◌==◌}
use umbongo.Base.Words.{add_size, sub_size}

-- The native operations are `digits`, which spends a unit of fuel on each digit. A unit more than
-- the first operand needs makes no difference,
extra_unit :
    (rest : ℕ → ℕ) (op : ℕ → ℕ → ℕ) (fuel x y : ℕ)
    → x ≤ fuel
    → digits rest op (suc fuel) x y ≡ digits rest op fuel x y
extra_unit rest op zero zero y enough = refl
extra_unit rest op (suc fuel) zero y enough = refl
extra_unit rest op (suc fuel) (suc x) y enough =
    ap (λ t. t * 2 + op (suc x % 2) (y % 2))
      (extra_unit rest op fuel (suc x / 2) (y / 2) (omega arith))
extra_unit rest op zero (suc x) y enough = absurd (omega arith)

-- so any surplus makes none.
surplus :
    (rest : ℕ → ℕ) (op : ℕ → ℕ → ℕ) (extra fuel total x y : ℕ)
    → total ≡ fuel + extra
    → x ≤ fuel
    → digits rest op total x y ≡ digits rest op fuel x y
surplus rest op zero fuel total x y sum enough = ap (λ t. digits rest op t x y) (omega arith)
surplus rest op (suc extra) fuel zero x y sum enough = absurd (omega arith)
surplus rest op (suc extra) fuel (suc total) x y sum enough =
    extra_unit rest op total x y (omega arith)
    ∙ surplus rest op extra fuel total x y (omega arith) enough

-- The operation on all digits is the operation on the lowest ones and that on the halves.
lowest_digit :
    (rest : ℕ → ℕ) (op : ℕ → ℕ → ℕ) (x y : ℕ)
    → bitwise rest op (suc x) y ≡ bitwise rest op (suc x / 2) (y / 2) * 2 + op (suc x % 2) (y % 2)
lowest_digit rest op x y =
    ap (λ t. t * 2 + op (suc x % 2) (y % 2))
      (surplus rest op (x - suc x / 2) (suc x / 2) x (suc x / 2) (y / 2) (omega arith)
        (omega arith))

pub or_halves : (x y : ℕ) → bit_or x y ≡ bit_or (x / 2) (y / 2) * 2 + max (x % 2) (y % 2)
or_halves (suc x) y = simp bit_or-bitwise (lowest_digit (λ t. t) max x y)
or_halves zero y = simp bit_or-bitwise (omega arith)

pub and_halves : (x y : ℕ) → bit_and x y ≡ bit_and (x / 2) (y / 2) * 2 + min (x % 2) (y % 2)
and_halves (suc x) y = simp bit_and-bitwise (lowest_digit (λ t. 0) min x y)
and_halves zero y = simp bit_and-bitwise (omega arith)

-- The bit of place `k`.
unfoldable pub bit : ℕ → ℕ → Bool
bit zero w = w % 2 == 1
bit (suc k) w = bit k (w / 2)

-- `~w` of a word of 64 bits.
abbrev pub complement : ℕ → ℕ
complement w = 2 ^ 64 - 1 - w

bit-halves : (w a d : ℕ) → w ≡ a * 2 + d → d < 2 → w / 2 ≡ a
bit-halves w a d e h = omega arith

pub bit-bit_or : (k a b : ℕ) → bit k (bit_or a b) ≡ (bit k a || bit k b)
unfolding bit
bit-bit_or zero a b = ground (arith, or_halves a b)
bit-bit_or (suc k) a b = ap (bit k) (omega (arith, or_halves a b)) ∙ bit-bit_or k (a / 2) (b / 2)

pub bit-bit_and : (k a b : ℕ) → bit k (bit_and a b) ≡ (bit k a && bit k b)
unfolding bit
bit-bit_and zero a b = ground (arith, and_halves a b)
bit-bit_and (suc k) a b = ap (bit k) (omega (arith, and_halves a b)) ∙ bit-bit_and k (a / 2) (b / 2)

pub bit-zero : (k : ℕ) → bit k 0 ≡ false
unfolding bit
bit-zero zero = refl
bit-zero (suc k) = bit-zero k

pow_half : (j : ℕ) → 2 ^ suc j / 2 ≡ 2 ^ j
pow_half j = omega (arith, pow-suc 2 j)

pub bit-pow : (k j : ℕ) → bit k (2 ^ j) ≡ (k == j)
unfolding bit
bit-pow zero zero = refl
bit-pow zero (suc j) = ground (arith, pow-suc 2 j)
bit-pow (suc k) zero = ground (arith, bit-zero k)
bit-pow (suc k) (suc j) = ap (bit k) (pow_half j) ∙ ground (arith, bit-pow k j)

bit-complement_width : (n k w : ℕ) → k < n → w < 2 ^ n → bit k (2 ^ n - 1 - w) ≡ not (bit k w)
unfolding bit
bit-complement_width zero k w h v = absurd (omega arith)
bit-complement_width (suc n) zero w h v = ground (arith, pow-suc 2 n)
bit-complement_width (suc n) (suc k) w h v =
    ap (bit k) (omega (arith, pow-suc 2 n))
    ∙ bit-complement_width n k (w / 2) (omega arith) (omega (arith, pow-suc 2 n))

pub bit-complement : (k w : ℕ) → k < 64 → w < 2 ^ 64 → bit k (complement w) ≡ not (bit k w)
bit-complement k w h v = bit-complement_width 64 k w h v

zero_and : (y : ℕ) → bit_and 0 y ≡ 0
zero_and y = bit_and-bitwise 0 y

pub and_zero : (bound x : ℕ) → x ≤ bound → bit_and x 0 ≡ 0
and_zero bound zero small = zero_and 0
and_zero (suc bound) (suc x) small =
    and_halves (suc x) 0 ∙ omega (arith, and_zero bound (suc x / 2) (omega arith))
and_zero zero (suc x) small = absurd (omega arith)

-- The test `(w & (1 << k)) != 0` reads the bit of place `k`.
pub bit_and-pow : (k w : ℕ) → (not (bit_and w (2 ^ k) == 0)) ≡ bit k w
unfolding bit
bit_and-pow zero w = ground (arith, and_halves w 1, and_zero (w / 2) (w / 2))
bit_and-pow (suc k) w = ground (arith, and_halves w (2 ^ suc k), pow-suc 2 k, bit_and-pow k (w / 2))

pub bit_or-lt : (n a b : ℕ) → a < 2 ^ n → b < 2 ^ n → bit_or a b < 2 ^ n
bit_or-lt zero a b p q =
    let e : a ≡ 0 = omega arith in let f : b ≡ 0 = omega arith in rw (e, f) (omega arith)
bit_or-lt (suc n) a b p q = omega (
  arith,
  or_halves a b,
  pow-suc 2 n,
  bit_or-lt n (a / 2) (b / 2) (omega (arith, pow-suc 2 n)) (omega (arith, pow-suc 2 n)),
)

bit_and-le_fuel : (n a b : ℕ) → a ≤ n → bit_and a b ≤ a
bit_and-le_fuel zero a b h = let e : a ≡ 0 = omega arith in rw e (omega (arith, zero_and b))
bit_and-le_fuel (suc n) zero b h = omega (arith, zero_and b)
bit_and-le_fuel (suc n) (suc a) b h =
    omega (arith, and_halves (suc a) b, bit_and-le_fuel n (suc a / 2) (b / 2) (omega arith))

pub bit_and-le : (a b : ℕ) → bit_and a b ≤ a
bit_and-le a b = bit_and-le_fuel a a b (le_refl a)

-- A power of two is below a larger one.
pub pow-lt : (n k : ℕ) → k < n → 2 ^ k < 2 ^ n
pow-lt zero k h = absurd (omega arith)
pow-lt (suc n) zero h = omega (arith, pow-suc 2 n, one-le-pow n 2 (omega arith))
pow-lt (suc n) (suc k) h = omega (arith, pow-suc 2 n, pow-suc 2 k, pow-lt n k (omega arith))

-- A mask of high bits: `x & ~(2^k - 1)` is `x` rounded down to a multiple of `2^k`.
bit_and_ones : (n x : ℕ) → x < 2 ^ n → bit_and x (2 ^ n - 1) ≡ x
bit_and_ones zero x h = let e : x ≡ 0 = omega arith in rw e (omega (arith, zero_and 0))
bit_and_ones (suc n) x h = omega (
  arith,
  and_halves x (2 ^ suc n - 1),
  pow-suc 2 n,
  one-le-pow n 2 (omega arith),
  bit_and_ones n (x / 2) (omega (arith, pow-suc 2 n)),
  ap (λ t. bit_and (x / 2) t) (half_ones n),
)
  where
    half_ones : (n : ℕ) → (2 ^ suc n - 1) / 2 ≡ 2 ^ n - 1
    half_ones n = omega (arith, pow-suc 2 n)

pow_mono : (k n : ℕ) → k ≤ n → 2 ^ k ≤ 2 ^ n
pow_mono zero n h = one-le-pow n 2 (omega arith)
pow_mono (suc k) zero h = absurd (omega arith)
pow_mono (suc k) (suc n) h = omega (arith, pow-suc 2 k, pow-suc 2 n, pow_mono k n (omega arith))

bit_and_high :
    (k n x : ℕ) → k ≤ n → x < 2 ^ n → bit_and x (2 ^ n - 1 - (2 ^ k - 1)) ≡ x / 2 ^ k * 2 ^ k
bit_and_high zero n x h v = ap (λ t. bit_and x t) (omega arith) ∙ bit_and_ones n x v ∙ omega arith
bit_and_high (suc k) zero x h v = absurd (omega arith)
bit_and_high (suc k) (suc n) x h v = omega (
  arith,
  and_halves x (2 ^ suc n - 1 - (2 ^ suc k - 1)),
  ap (λ t. bit_and (x / 2) t) half_mask,
  bit_and_high k n (x / 2) (omega arith) (omega (arith, pow-suc 2 n)),
  pow-suc 2 n,
  pow-suc 2 k,
  one-le-pow k 2 (omega arith),
  pow-le,
  div-div-eq-div-mul x 2 (2 ^ k),
  ap (λ t. x / t) (pow-suc 2 k),
  ap (λ t. x / 2 / 2 ^ k * t) (pow-suc 2 k),
  same_product,
)
  where
    pow-le : 2 ^ k ≤ 2 ^ n
    pow-le = pow_mono k n (omega arith)

    half_mask : (2 ^ suc n - 1 - (2 ^ suc k - 1)) / 2 ≡ 2 ^ n - 1 - (2 ^ k - 1)
    half_mask = omega (arith, pow-suc 2 n, pow-suc 2 k, one-le-pow k 2 (omega arith), pow-le)

    same_quotient : x / 2 ^ suc k ≡ x / 2 / 2 ^ k
    same_quotient =
        ap (λ t. x / t) (omega (arith, pow-suc 2 k)) ∙ sym (div-div-eq-div-mul x 2 (2 ^ k))

    same_product : x / 2 ^ suc k * 2 ^ suc k ≡ x / 2 / 2 ^ k * 2 ^ suc k
    same_product = ap (λ t. t * 2 ^ suc k) same_quotient

-- `ustd::align_up` and `ustd::align_down` of a `size_t`.
unfoldable pub align_down : ℕ → ℕ → ℕ
align_down value alignment = bit_and value (complement (sub_size alignment 1))

unfoldable pub align_up : ℕ → ℕ → ℕ
align_up value alignment =
    bit_and (sub_size (add_size value alignment) 1) (complement (sub_size alignment 1))

-- Rounding up by a power of two gives the first multiple of it from the value on, if no sum wraps.
pub align_up-pow :
    (value k : ℕ)
    → k < 64
    → value + 2 ^ k < 2 ^ 64
    → align_up value (2 ^ k) ≡ (value + 2 ^ k - 1) / 2 ^ k * 2 ^ k
unfolding align_up
align_up-pow value k h v =
    ap₂ bit_and last mask ∙ bit_and_high k 64 (value + 2 ^ k - 1) (omega arith) (omega arith)
  where
    pos : 1 ≤ 2 ^ k
    pos = one-le-pow k 2 (omega arith)

    last : sub_size (add_size value (2 ^ k)) 1 ≡ value + 2 ^ k - 1
    last = omega (arith, pos)

    mask : complement (sub_size (2 ^ k) 1) ≡ 2 ^ 64 - 1 - (2 ^ k - 1)
    mask = omega (arith, pos)
