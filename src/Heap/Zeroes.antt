-- ===== src/Heap/Zeroes.antt =====
-- `ctz` and shifts: the lowest bits that are not set.
use native.Mathlib.Nat.{pow-succ', div-div-eq-div-mul, div-le_self}
use umbongo.Base.{
  ℕ, zero, suc, ◌+◌, ◌/◌, ◌%◌, ◌^◌, ◌≤◌, ◌<◌, ◌≡◌, ◌≢◌, sym, ap, subst, ◌∙◌, false, inl, inr, arith,
  ◌==◌, Bool-cases,
}
use umbongo.Base.Bits.{bit, complement}
use umbongo.Heap.{ctz}

half_shift : (k w : ℕ) → w / 2 ^ suc k ≡ w / 2 / 2 ^ k
half_shift k w = ap (λ t. w / t) (pow-succ' 2 k) ∙ sym (div-div-eq-div-mul w 2 (2 ^ k))

pub bit-shift : (k j w : ℕ) → bit j (w / 2 ^ k) ≡ bit (k + j) w
unfolding bit
bit-shift zero j w =
    let same : w / 2 ^ 0 ≡ w = omega arith in
    let place : j ≡ 0 + j = omega arith in ap (bit j) same ∙ ap (λ n. bit n w) place
bit-shift (suc k) j w =
    let place : suc (k + j) ≡ suc k + j = omega arith in
    ap (bit j) (half_shift k w) ∙ bit-shift k j (w / 2) ∙ ap (λ n. bit n w) place

half-lt : (n w : ℕ) → w < 2 ^ suc n → w / 2 < 2 ^ n
half-lt n w h = omega (arith, pow-succ' 2 n)

pub shift-lt : (k m w : ℕ) → w < 2 ^ (k + m) → w / 2 ^ k < 2 ^ m
shift-lt zero m w h =
    let place : 0 + m ≡ m = omega arith in let small = subst (λ n. w < 2 ^ n) place h in omega arith
shift-lt (suc k) m w h =
    let place : suc k + m ≡ suc (k + m) = omega arith in
    rw (half_shift k w) (shift-lt k m (w / 2) (half-lt (k + m) w (subst (λ n. w < 2 ^ n) place h)))

pub ctz-low : (n w j : ℕ) → j < ctz n w → bit j w ≡ false
unfolding ctz bit
ctz-low zero w j h = absurd (omega arith)
ctz-low (suc n) w zero h = ground arith
ctz-low (suc n) w (suc j) h = ctz-low n (w / 2) j (ground arith)

half_some : (w : ℕ) → w ≢ 0 → (w % 2 == 1) ≡ false → w / 2 ≢ 0
half_some w some_bit even e = some_bit (ground arith)

pub ctz-lt : (n w m : ℕ) → w ≢ 0 → w < 2 ^ m → m ≤ n → ctz n w < m
unfolding ctz
ctz-lt zero w m some_bit h le =
    let none_left : m ≡ 0 = omega arith in
    let small = subst (λ n. w < 2 ^ n) none_left h in absurd (some_bit (omega arith))
ctz-lt (suc n) w zero some_bit h le = absurd (some_bit (omega arith))
ctz-lt (suc n) w (suc m) some_bit h le = elim (Bool-cases (w % 2 == 1)) [
  | inl odd ↦ rw odd (omega arith)
  | inr even ↦
      rw even (
        omega (arith, ctz-lt n (w / 2) m (half_some w some_bit even) (half-lt m w h) (omega arith)))
]

ctz-odd : (n w : ℕ) → w ≢ 0 → w < 2 ^ n → (w / 2 ^ ctz n w) % 2 ≡ 1
unfolding ctz
ctz-odd zero w some_bit h = absurd (some_bit (omega arith))
ctz-odd (suc n) w some_bit h = elim (Bool-cases (w % 2 == 1)) [
  | inl odd ↦ rw odd (ground arith)
  | inr even ↦ rw even (
      rw (half_shift (ctz n (w / 2)) w)
        (ctz-odd n (w / 2) (half_some w some_bit even) (half-lt n w h)))
]

ctz-pos : (n w : ℕ) → w % 2 ≡ 0 → 0 < ctz (suc n) w
unfolding ctz
ctz-pos n w e = ground arith

-- A shift to the lowest bit that is set leaves ones to shift out.
pub ones_pos :
    (bucket : ℕ)
    → bucket ≢ 0
    → bucket < 2 ^ 64
    → 0 < ctz 64 (complement (bucket / 2 ^ ctz 64 bucket))
ones_pos bucket set word =
    ctz-pos 63 (complement (bucket / 2 ^ ctz 64 bucket))
      (omega (arith, ctz-odd 64 bucket set word, div-le_self bucket (2 ^ ctz 64 bucket)))
