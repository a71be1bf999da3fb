-- ===== src/Strings/Builder.antt =====
-- ustd/string_builder.{hh,cc}: the text of an unsigned number. `opts` is what stands between the
-- braces of a format, four bytes with zeros behind it.
pub mod Print
pub mod Room
use umbongo.Base.{
  ℕ, zero, suc, ◌+◌, ◌-◌, ◌/◌, ◌%◌, List, [], ◌∷◌, ◌++◌, Option, none, some, Bool, true, false,
  ◌||◌, ◌==◌, ltb, if◌then◌else◌, length, get_or,
}
use umbongo.Base.Panic.{◌>>=◌, ◌>>◌, assert}

abbrev pub buf_size : ℕ
buf_size = 20

abbrev pub digit_char : ℕ → ℕ
digit_char digit = if ltb digit 10 then 48 + digit else 97 + digit - 10

-- The `do` loop with `room` places left in `buf`, which fails an assertion when none is: the
-- digits from the last to the first.
unfoldable pub digits_of : ℕ → ℕ → ℕ → Option (List ℕ)
digits_of zero base arg = none
digits_of (suc room) base arg =
    let rest = digits_of room base (arg / base) in
    if arg / base == 0
    then some (digit_char (arg % base) ∷ [])
    else (rest >>= λ buf. some (digit_char (arg % base) ∷ buf))

-- `buf[len++] = ch`
abbrev pub push_buf : ℕ → List ℕ → Option (List ℕ)
push_buf ch buf = assert (ltb (length buf) buf_size) >> some (buf ++ ch ∷ [])

-- The padding loop with `n` rounds left.
unfoldable pub pad_with : ℕ → ℕ → List ℕ → Option (List ℕ)
pad_with zero ch buf = some buf
pad_with (suc n) ch buf = push_buf ch buf >>= pad_with n ch

-- The last loop: from the end of `buf` to its start.
abbrev pub emit : List ℕ → List ℕ
emit [] = []
emit (ch ∷ buf) = emit buf ++ ch ∷ []

abbrev pub opt : ℕ → List ℕ → ℕ
opt i opts = get_or opts i 0

abbrev pub base_of : List ℕ → ℕ
base_of opts = if opt 1 opts == 104 || opt 1 opts == 120 then 16 else 10

abbrev pub padded : List ℕ → List ℕ → Option (List ℕ)
padded opts buf =
    if opt 2 opts == 0
    then some buf
    else pad_with (opt 2 opts - 48 - length buf) (if opt 3 opts == 0 then 48 else opt 3 opts) buf

abbrev pub prefixed : List ℕ → List ℕ → Option (List ℕ)
prefixed opts buf = if opt 1 opts == 104 then (push_buf 120 buf >>= push_buf 48) else some buf

-- `append_single`: what is pushed to the builder's buffer.
unfoldable pub append_single : List ℕ → ℕ → Option (List ℕ)
append_single opts arg =
    let text = digits_of buf_size (base_of opts) arg >>= padded opts >>= prefixed opts >>= λ buf.
    some (emit buf) in
    if opt 1 opts == 99 then some (arg % 256 ∷ []) else text
