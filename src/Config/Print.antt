-- ===== src/Config/Print.antt =====
-- A configuration that is written line by line is read back.
use umbongo.Base.{
  ℕ, zero, suc, ◌+◌, ◌-◌, ◌<◌, ◌^◌, ◌≡◌, refl, ap, ◌∙◌, List, [], ◌∷◌, ◌++◌, length, length-append,
  some, Bool, true, false, ◌&&◌, ◌==◌, not, arith, take, drop,
}
use umbongo.Config.{
  KeyValue, lines_from, lines_of, equal_index, is_skipped, parse_pair, parse_lines, parse,
}
use umbongo.Config.Parse.{has, parse_pair-has}

abbrev pub line_of : KeyValue → List ℕ
line_of pair = pair.key ++ 61 ∷ pair.value

-- `key=value` and a new line for each pair.
abbrev pub print : List KeyValue → List ℕ
print [] = []
print (pair ∷ pairs) = line_of pair ++ 10 ∷ print pairs

-- A pair whose line the parser reads as this pair.
abbrev pub is_plain : KeyValue → Bool
is_plain pair =
    not (is_skipped (line_of pair)) && not (has 61 pair.key) && not (has 10 (line_of pair))

abbrev pub ArePlain : List KeyValue → Type 0
ArePlain [] = Unit
ArePlain (pair ∷ pairs) = (is_plain pair ≡ true) × ArePlain pairs

take-length-append : (xs ys : List ℕ) → take (length xs) (xs ++ ys) ≡ xs
take-length-append [] ys = refl
take-length-append (x ∷ xs) ys = ap (λ t. x ∷ t) (take-length-append xs ys)

drop-length-append : (xs : List ℕ) (c : ℕ) (ys : List ℕ) → drop (length xs + 1) (xs ++ c ∷ ys) ≡ ys
drop-length-append [] c ys = refl
drop-length-append (x ∷ xs) c ys =
    let shift : suc (length xs) + 1 ≡ suc (length xs + 1) = omega arith in
    rw shift (drop-length-append xs c ys)

take-length : (xs : List ℕ) (n : ℕ) → n ≡ length xs → take n xs ≡ xs
take-length [] zero e = refl
take-length [] (suc n) e = absurd (omega arith)
take-length (x ∷ xs) zero e = absurd (omega arith)
take-length (x ∷ xs) (suc n) e = ap (λ t. x ∷ t) (take-length xs n (omega arith))

equal_index-append :
    (key value : List ℕ) → has 61 key ≡ false → equal_index (key ++ 61 ∷ value) ≡ length key
unfolding equal_index
equal_index-append [] value h = refl
equal_index-append (ch ∷ key) value h = ground (arith, equal_index-append key value)

has-append : (key value : List ℕ) → has 61 (key ++ 61 ∷ value) ≡ true
has-append [] value = refl
has-append (ch ∷ key) value = ground (arith, has-append key value)

parse_pair-line_of :
    (pair : KeyValue)
    → length (line_of pair) < 2 ^ 64
    → has 61 pair.key ≡ false
    → parse_pair (line_of pair) ≡ some pair
parse_pair-line_of pair small plain =
    let line = line_of pair in
    let index = equal_index-append pair.key pair.value plain in
    let key = take-length-append pair.key (61 ∷ pair.value) in
    let rest = drop-length-append pair.key 61 pair.value in
    let count = length-append pair.key (61 ∷ pair.value) in
    let value : take (length (line_of pair) - (length pair.key + 1)) pair.value ≡ pair.value =
      take-length pair.value (length (line_of pair) - (length pair.key + 1))
        (omega (arith, count)) in
    parse_pair-has (line_of pair) small (has-append pair.key pair.value)
    ∙ rw (index, key, rest, value) refl

lines_from-append :
    (line source : List ℕ)
    → has 10 line ≡ false
    → lines_from (line ++ 10 ∷ source) ≡ (line, lines_of source)
unfolding lines_from
lines_from-append [] source h = refl
lines_from-append (ch ∷ line) source h =
    let other : (ch == 10) ≡ false = ground arith in
    rw (lines_from-append line source (ground arith), other) refl

parse_lines-cons :
    (line : List ℕ) (lines : List (List ℕ)) (pair : KeyValue) (pairs : List KeyValue)
    → is_skipped line ≡ false
    → parse_pair line ≡ some pair
    → parse_lines lines ≡ some pairs
    → parse_lines (line ∷ lines) ≡ some (pair ∷ pairs)
unfolding parse_lines
parse_lines-cons line lines pair pairs kept here rest = rw (kept, here, rest) refl

parse_empty : parse_lines (lines_of []) ≡ some []
unfolding parse_lines lines_from
parse_empty = refl

-- Pairs that are written a line each, `key=value`, are read back as they were. No key has `=` or
-- begins a comment, no line is broken, and the file has fewer than 2^64 bytes.
pub parse-print :
    (pairs : List KeyValue)
    → ArePlain pairs
    → length (print pairs) < 2 ^ 64
    → parse (print pairs) ≡ some pairs
unfolding parse
parse-print [] h small = parse_empty
parse-print (pair ∷ pairs) (plain, h) small =
    let rest = parse-print pairs h in
    let count = length-append (line_of pair) (10 ∷ print pairs) in
    let kept : is_skipped (line_of pair) ≡ false = ground arith in
    let keyed : has 61 pair.key ≡ false = ground arith in
    let whole : has 10 (line_of pair) ≡ false = ground arith in
    rw (lines_from-append (line_of pair) (print pairs) whole) (
      parse_lines-cons (line_of pair) (lines_of (print pairs)) pair pairs kept
        (parse_pair-line_of pair (omega (arith, count)) keyed) (rest (omega (arith, count))))
