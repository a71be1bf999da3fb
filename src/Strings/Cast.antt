-- ===== src/Strings/Cast.antt =====
-- `cast` of ustd/string_cast.hh to an unsigned type of `w` bits.
use native.Mathlib.Nat.{one-le-pow}
use umbongo.Base.{
  ℕ, ◌+◌, ◌-◌, ◌*◌, ◌^◌, ◌≤◌, ◌<◌, ◌≡◌, List, [], ◌∷◌, Option, none, some, Bool, true, ◌&&◌, ◌||◌,
  ltb, leb, arith, if◌then◌else◌,
}

-- The loop, with the number so far. The two `overflow` tests are against the type's width.
unfoldable pub cast_from : ℕ → ℕ → List ℕ → Option ℕ
cast_from w ret [] = some ret
cast_from w ret (ch ∷ string) =
    let rest = cast_from w (ret * 10 + (ch - 48)) string in
    if ltb ch 48 || ltb 57 ch
    then none
    else if leb (2 ^ w) (ret * 10)
    then none
    else if leb (2 ^ w) (ret * 10 + (ch - 48))
    then none
    else rest

unfoldable pub cast : ℕ → List ℕ → Option ℕ
unfolding cast_from
cast w string = cast_from w 0 string

-- The number that the digits of a text are, whatever its size.
abbrev pub all_digits : List ℕ → Bool
all_digits [] = true
all_digits (ch ∷ s) = leb 48 ch && leb ch 57 && all_digits s

abbrev pub value_from : ℕ → List ℕ → ℕ
value_from n [] = n
value_from n (ch ∷ s) = value_from (n * 10 + (ch - 48)) s

le-value_from : (n : ℕ) (s : List ℕ) → n ≤ value_from n s
le-value_from n [] = omega arith
le-value_from n (ch ∷ s) = omega (arith, le-value_from (n * 10 + (ch - 48)) s)

cast_from_lem :
    (w n : ℕ) (s : List ℕ)
    → n < 2 ^ w
    → cast_from w n s
      ≡ (if all_digits s && ltb (value_from n s) (2 ^ w) then some (value_from n s) else none)
unfolding cast_from
cast_from_lem w n [] h = ground arith
cast_from_lem w n (ch ∷ s) h =
    ground (arith, cast_from_lem w (n * 10 + (ch - 48)) s, le-value_from (n * 10 + (ch - 48)) s)

-- A text is cast to the number of its decimal digits, if it has no other character and the number
-- fits into the type's `w` bits; to nothing otherwise.
pub cast_lem :
    (w : ℕ) (s : List ℕ)
    → cast w s
      ≡ (if all_digits s && ltb (value_from 0 s) (2 ^ w) then some (value_from 0 s) else none)
unfolding cast
cast_lem w s = cast_from_lem w 0 s (one-le-pow w 2 (omega arith))
