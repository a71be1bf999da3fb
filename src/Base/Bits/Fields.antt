-- ===== src/Base/Bits/Fields.antt =====
-- A word that is put together of fields by `|` and shifts, and read again by masks.
use Prim.Native.Nat.{bit_and, bit_or, bit_or-bitwise}
use umbongo.Base.{ℕ, zero, suc, ◌+◌, ◌-◌, ◌*◌, ◌/◌, ◌%◌, ◌^◌, ◌<◌, ◌≡◌, ap, ◌∙◌, false, arith}
use native.Mathlib.Nat.{pow-suc, one-le-pow, div-add-mod, div-div-eq-div-mul}
use umbongo.Base.Bits.{bit, or_halves, and_halves, and_zero}

mod_double : (x m : ℕ) → x % (2 * m) ≡ x / 2 % m * 2 + x % 2
mod_double x m = omega (arith, whole, div-add-mod (x / 2) m, twice (x / 2 / m))
  where
    whole : 2 * m * (x / 2 / m) + x % (2 * m) ≡ x
    whole = ap (λ t. 2 * m * t + x % (2 * m)) (div-div-eq-div-mul x 2 m) ∙ div-add-mod x (2 * m)

    twice : (q : ℕ) → 2 * m * q ≡ m * q * 2
    twice q = grind arith

-- A mask of the lowest bits takes the remainder.
pub bit_and_low : (n x : ℕ) → bit_and x (2 ^ n - 1) ≡ x % 2 ^ n
bit_and_low zero x = and_zero x x (omega arith) ∙ omega arith
bit_and_low (suc n) x = omega (
  arith,
  and_halves x (2 ^ suc n - 1),
  pow-suc 2 n,
  ap (λ t. bit_and (x / 2) t) half_ones,
  bit_and_low n (x / 2),
  mod_double x (2 ^ n),
  one-le-pow n 2 (omega arith),
  whole,
)
  where
    half_ones : (2 ^ suc n - 1) / 2 ≡ 2 ^ n - 1
    half_ones = omega (arith, pow-suc 2 n, one-le-pow n 2 (omega arith))

    whole : x % 2 ^ suc n ≡ x % (2 * 2 ^ n)
    whole = ap (λ t. x % t) (omega (arith, pow-suc 2 n))

or_zero_left : (y : ℕ) → bit_or 0 y ≡ y
or_zero_left y = bit_or-bitwise 0 y

-- A number of the lowest bits and one that is shifted behind them share no bit, so `|` is the sum.
pub bit_or_shifted : (n low high : ℕ) → low < 2 ^ n → bit_or low (high * 2 ^ n) ≡ high * 2 ^ n + low
bit_or_shifted zero low high h =
    let none : low ≡ 0 = omega arith in rw none (or_zero_left (high * 1) ∙ omega arith)
bit_or_shifted (suc n) low high h = omega (
  arith,
  or_halves low (high * 2 ^ suc n),
  pow-suc 2 n,
  double,
  ap (λ t. bit_or (low / 2) t) half,
  bit_or_shifted n (low / 2) high (omega (arith, pow-suc 2 n)),
)
  where
    double : high * 2 ^ suc n ≡ high * 2 ^ n * 2
    double = ap (λ t. high * t) (pow-suc 2 n) ∙ grind arith

    half : high * 2 ^ suc n / 2 ≡ high * 2 ^ n
    half = omega (arith, double)

pub bit_or_zero : (n x : ℕ) → x < 2 ^ n → bit_or x 0 ≡ x
bit_or_zero n x h = ap (bit_or x) (omega arith) ∙ bit_or_shifted n x 0 h ∙ omega arith

pub bit-lt : (k w : ℕ) → w < 2 ^ k → bit k w ≡ false
unfolding bit
bit-lt zero w h = ground arith
bit-lt (suc k) w h = bit-lt k (w / 2) (omega (arith, pow-suc 2 k))
