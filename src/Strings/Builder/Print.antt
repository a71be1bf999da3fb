-- ===== src/Strings/Builder/Print.antt =====
-- A number that is printed in decimal fits the builder's buffer and is read back.
use native.Mathlib.Nat.{pow-suc, pow-zero, div-lt_iff_lt-mul}
use umbongo.Base.{
  ℕ, zero, suc, ◌+◌, ◌-◌, ◌*◌, ◌/◌, ◌%◌, ◌^◌, ◌≤◌, ◌<◌, ◌≡◌, refl, ap, subst, ◌∙◌, List, [], ◌∷◌,
  ◌++◌, Option, none, some, true, false, ◌&&◌, arith, leb, lt→ltb, ◌==◌, length, Bool-cases,
  Option-cases, inl, inr,
}
use umbongo.Strings.Cast.{cast, cast_lem, all_digits, value_from}
use umbongo.Strings.Builder.{digits_of, digit_char, emit, append_single}

digits_of-last :
    (room base arg : ℕ)
    → (arg / base == 0) ≡ true
    → digits_of (suc room) base arg ≡ some (digit_char (arg % base) ∷ [])
unfolding digits_of
digits_of-last room base arg last = rw last

digits_of-more :
    (room base arg : ℕ) (buf : List ℕ)
    → (arg / base == 0) ≡ false
    → digits_of room base (arg / base) ≡ some buf
    → digits_of (suc room) base arg ≡ some (digit_char (arg % base) ∷ buf)
unfolding digits_of
digits_of-more room base arg buf more e = rw (more, e)

pow-one' : (n : ℕ) → n ^ 1 ≡ n
pow-one' n = pow-suc n 0 ∙ ap (λ m. m * n) (pow-zero n) ∙ omega arith

-- What the digit loop leaves in the buffer: at most `n` characters.
abbrev pub FitsIn : ℕ → Option (List ℕ) → Type 0
FitsIn n r = (buf : List ℕ) × ((r ≡ some buf) × (length buf ≤ n))

-- Room for the digits of a number below a power of the base.
pub digits_of-FitsIn :
    (room k base arg : ℕ)
    → 0 < base
    → k ≤ room
    → arg < base ^ suc k
    → FitsIn (suc k) (digits_of (suc room) base arg)
digits_of-FitsIn room zero base arg h le small =
    let one : arg < 1 * base = omega (arith, pow-one' base) in
    let quotient : arg / base < 1 = (div-lt_iff_lt-mul h).1 one in
    (digit_char (arg % base) ∷ [], (digits_of-last room base arg (ground arith), omega arith))
digits_of-FitsIn zero (suc k) base arg h le small = ground arith
digits_of-FitsIn (suc room) (suc k) base arg h le small =
    let scaled : arg < base ^ suc k * base = subst (λ n. arg < n) (pow-suc base (suc k)) small in
    let part : arg / base < base ^ suc k = (div-lt_iff_lt-mul h).1 scaled in
    let (buf, (e, short)) = digits_of-FitsIn room k base (arg / base) h (omega arith) part in
    elim (Bool-cases (arg / base == 0)) [
      | inl last ↦
          (digit_char (arg % base) ∷ [], (digits_of-last (suc room) base arg last, omega arith))
      | inr more ↦ (
        digit_char (arg % base) ∷ buf,
        (digits_of-more (suc room) base arg buf more e, omega arith),
      )
    ]

value_from-append :
    (n c : ℕ) (s : List ℕ) → value_from n (s ++ c ∷ []) ≡ value_from n s * 10 + (c - 48)
value_from-append n c [] = refl
value_from-append n c (d ∷ s) = value_from-append (n * 10 + (d - 48)) c s

all_digits-append :
    (c : ℕ) (s : List ℕ) → all_digits (s ++ c ∷ []) ≡ (all_digits s && (leb 48 c && leb c 57))
all_digits-append c [] = ground arith
all_digits-append c (d ∷ s) = ground (arith, all_digits-append c s)

digits_of-zero : (arg : ℕ) → digits_of 0 10 arg ≡ none
unfolding digits_of
digits_of-zero arg = refl

digits_of-none :
    (room base arg : ℕ)
    → (arg / base == 0) ≡ false
    → digits_of room base (arg / base) ≡ none
    → digits_of (suc room) base arg ≡ none
unfolding digits_of
digits_of-none room base arg more e = rw (more, e)

-- The decimal digits of a number are digits, and their number is it.
abbrev Reads : ℕ → List ℕ → Type 0
Reads arg buf = (all_digits (emit buf) ≡ true) × (value_from 0 (emit buf) ≡ arg)

digit-Reads :
    (arg : ℕ) (buf : List ℕ) → Reads (arg / 10) buf → Reads arg (digit_char (arg % 10) ∷ buf)
digit-Reads arg buf (digits, value) = (
  ground (arith, all_digits-append (digit_char (arg % 10)) (emit buf)),
  ground (arith, value_from-append 0 (digit_char (arg % 10)) (emit buf)),
)

digits_of-Reads : (room arg : ℕ) (buf : List ℕ) → digits_of room 10 arg ≡ some buf → Reads arg buf
digits_of-Reads zero arg buf e = cc (digits_of-zero arg)
digits_of-Reads (suc room) arg buf e =
    let rest = digits_of-Reads room (arg / 10) in
    elim (Bool-cases (arg / 10 == 0)) [
      | inl last ↦
          let same : digit_char (arg % 10) ∷ [] ≡ buf = cc (digits_of-last room 10 arg last) in
          let low : Reads (arg / 10) [] = (refl, ground arith) in
          subst (Reads arg) same (digit-Reads arg [] low)
      | inr more ↦ elim (Option-cases (digits_of room 10 (arg / 10))) [
        | inl none_left ↦ cc (digits_of-none room 10 arg more none_left)
        | inr (high, got) ↦
            let same : digit_char (arg % 10) ∷ high ≡ buf =
              cc (digits_of-more room 10 arg high more got) in
            subst (Reads arg) same (digit-Reads arg high (rest high got))
      ]
    ]

-- A 64-bit number that is printed in decimal and without padding never overruns the builder's
-- buffer, and casting the text to 64 bits gives the number again.
pub cast-append_single :
    (arg : ℕ)
    → arg < 2 ^ 64
    → (text : List ℕ) × ((append_single [] arg ≡ some text) × (cast 64 text ≡ some arg))
unfolding append_single
cast-append_single arg small =
    let (buf, (e, short)) =
      digits_of-FitsIn 19 19 10 arg (omega arith) (omega arith) (omega arith) in
    let (digits, value) = digits_of-Reads 20 arg buf e in
    let read : cast 64 (emit buf) ≡ some arg =
      cast_lem 64 (emit buf) ∙ rw (digits, value, lt→ltb arg (2 ^ 64) small) in
    (emit buf, (rw e, read))
