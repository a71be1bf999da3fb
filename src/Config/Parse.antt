-- ===== src/Config/Parse.antt =====
-- The configuration files: what the parser makes of a written file, and where it stops the server.
use umbongo.Base.{
  ℕ, suc, ◌+◌, ◌<◌, ◌≤◌, ◌^◌, ◌≡◌, ◌↔◌, refl, List, [], ◌∷◌, length, Option, none, some, Bool, true,
  false, ◌&&◌, ◌||◌, ◌==◌, not, Bool-cases, Option-cases, inl, inr, arith, take, drop, leb,
  sub_size, add_size, ◌-◌,
}
use umbongo.Strings.{substr, substr_from}
use umbongo.Config.{
  KeyValue, lines_from, lines_of, equal_index, is_skipped, parse_pair, parse_lines, parse,
}

abbrev pub has : ℕ → List ℕ → Bool
has c [] = false
has c (ch ∷ s) = ch == c || has c s

-- A line that the parser reads as a pair.
abbrev pub is_pair : List ℕ → Bool
is_pair line = not (is_skipped line) && has 61 line

-- A line that is neither skipped nor a pair.
abbrev pub is_malformed : List ℕ → Bool
is_malformed line = not (is_skipped line) && not (has 61 line)

abbrev pub any_malformed : List (List ℕ) → Bool
any_malformed [] = false
any_malformed (line ∷ lines) = is_malformed line || any_malformed lines

equal_index-le : (line : List ℕ) → equal_index line ≤ length line
unfolding equal_index
equal_index-le [] = omega arith
equal_index-le (ch ∷ line) = ground (arith, equal_index-le line)

equal_index-lt : (line : List ℕ) → (suc (equal_index line) ≤ length line) ↔ (has 61 line ≡ true)
unfolding equal_index
equal_index-lt [] = ground arith
equal_index-lt (ch ∷ line) = ground (arith, equal_index-lt line)

sub_size-sub : (a b : ℕ) → b ≤ a → a < 2 ^ 64 → sub_size a b ≡ a - b
sub_size-sub a b h small = omega arith

substr-some :
    (begin end : ℕ) (s : List ℕ)
    → begin ≤ end
    → end ≤ length s
    → length s < 2 ^ 64
    → substr begin end s ≡ some (take (end - begin) (drop begin s))
unfolding substr
substr-some begin end s h h' small =
    let count = sub_size-sub end begin h (omega arith) in
    let sum : add_size begin (end - begin) ≡ end = omega arith in
    let sum' : begin + (end - begin) ≡ end = omega arith in
    let room : leb end (length s) ≡ true = ground arith in rw (count, sum, sum', room) refl

-- The view behind the end, which the assertion lets pass: its length wraps.
substr-none : (s : List ℕ) → length s < 2 ^ 64 → substr (length s + 1) (length s) s ≡ none
unfolding substr
substr-none s small =
    let count : sub_size (length s) (length s + 1) ≡ 2 ^ 64 - 1 = omega arith in
    let outside : leb (length s + 1 + (2 ^ 64 - 1)) (length s) ≡ false = ground arith in
    let passes : leb (add_size (length s + 1) (2 ^ 64 - 1)) (length s) ≡ true = ground arith in
    rw (count, outside, passes) refl

pub parse_pair-has :
    (line : List ℕ)
    → length line < 2 ^ 64
    → has 61 line ≡ true
    → parse_pair line
      ≡ some (record {
        key = take (equal_index line) line;
        value = take (length line - (equal_index line + 1)) (drop (equal_index line + 1) line);
      })
unfolding parse_pair substr_from
parse_pair-has line small found =
    let inside = (equal_index-lt line).1 found in
    let whole : equal_index line - 0 ≡ equal_index line = omega arith in
    rw (substr-some 0 (equal_index line) line (omega arith) (omega arith) small) (
      rw
        (
          substr-some (equal_index line + 1) (length line) line (omega arith) (omega arith) small,
          whole,
        )
        refl)

equal_index-missing : (line : List ℕ) → has 61 line ≡ false → equal_index line ≡ length line
unfolding equal_index
equal_index-missing [] h = refl
equal_index-missing (ch ∷ line) h = ground (arith, equal_index-missing line)

parse_pair-missing :
    (line : List ℕ) → length line < 2 ^ 64 → has 61 line ≡ false → parse_pair line ≡ none
unfolding parse_pair substr_from
parse_pair-missing line small missing =
    let end = equal_index-missing line missing in
    rw
      (
        end,
        substr-some 0 (length line) line (omega arith) (omega arith) small,
        substr-none line small,
      )
      refl

-- Every line is short.
abbrev AreShort : List (List ℕ) → Type 0
AreShort [] = Unit
AreShort (line ∷ lines) = (length line < 2 ^ 64) × AreShort lines

abbrev is_some : Option (List KeyValue) → Bool
is_some none = false
is_some (some pairs) = true

parse_lines-none :
    (lines : List (List ℕ))
    → AreShort lines
    → is_some (parse_lines lines) ≡ not (any_malformed lines)
unfolding parse_lines
parse_lines-none [] h = refl
parse_lines-none (line ∷ lines) (small, h) =
    let rest = parse_lines-none lines h in
    elim (Bool-cases (is_skipped line)) [
      | inl skipped ↦ rw skipped rest
      | inr kept ↦ elim (Bool-cases (has 61 line)) [
        | inr missing ↦ rw (kept, parse_pair-missing line small missing, missing) refl
        | inl found ↦ elim (Option-cases (parse_lines lines)) [
          | inl stopped ↦
              ground (arith, kept, parse_pair-has line small found, found, stopped, rest)
          | inr (pairs, e) ↦ ground (arith, kept, parse_pair-has line small found, found, e, rest)
        ]
      ]
    ]

lines_from-length :
    (source : List ℕ) (n : ℕ)
    → length source < n
    → n ≤ 2 ^ 64
    → (length (lines_from source).0 < n) × AreShort (lines_from source).1
unfolding lines_from
lines_from-length [] n h small = (h, tt)
lines_from-length (ch ∷ source) n h small =
    let (first, rest) = lines_from-length source (n - 1) (omega arith) (omega arith) in
    elim (Bool-cases (ch == 10)) [
      | inl ended ↦ rw ended (omega arith, (omega arith, rest))
      | inr inside ↦ rw inside (omega arith, rest)
    ]

none_iff : (o : Option (List KeyValue)) (b : Bool) → is_some o ≡ not b → (o ≡ none) ↔ (b ≡ true)
none_iff none b h = ground (arith, h)
none_iff (some pairs) b h = ground (arith, h)

-- Reading a configuration of fewer than 2^64 bytes stops the server exactly when some line that is
-- neither empty nor a comment has no `=`.
pub parse-none_iff :
    (source : List ℕ)
    → length source < 2 ^ 64
    → (parse source ≡ none) ↔ (any_malformed (lines_of source) ≡ true)
unfolding parse
parse-none_iff source small =
    let short : AreShort (lines_of source) =
      lines_from-length source (2 ^ 64) small (omega arith) in
    none_iff (parse_lines (lines_of source)) (any_malformed (lines_of source))
      (parse_lines-none (lines_of source) short)
