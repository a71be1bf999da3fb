-- ===== src/Shell/LineBuffer.antt =====
-- The loops of shell/line_editor.cc over the line's buffer, and the sequences that it prints.
use umbongo.Base.{
  ℕ, zero, suc, ◌+◌, List, [], ◌∷◌, ◌++◌, Option, some, ◌==◌, ltb, if◌then◌else◌, length, get_elem?,
  take, drop, add_u32,
}
use umbongo.Base.Panic.{◌>>=◌, ◌>>◌, assert}
use umbongo.Base.Vector.{move_elem}

-- `\x1b[C`, `\x1b[D` and `\x1b[J`.
abbrev pub right : List ℕ
right = 27 ∷ 91 ∷ 67 ∷ []

abbrev pub left : List ℕ
left = 27 ∷ 91 ∷ 68 ∷ []

abbrev pub erase_all : List ℕ
erase_all = 27 ∷ 91 ∷ 74 ∷ []

abbrev pub repeat : ℕ → List ℕ → List ℕ
repeat zero s = []
repeat (suc n) s = s ++ repeat n s

-- `Vector::remove` and `Vector::push` of a character.
unfoldable pub remove : ℕ → List ℕ → Option (List ℕ)
remove i v = assert (ltb i (length v)) >> some (take i v ++ drop (i + 1) v)

abbrev pub push : ℕ → List ℕ → List ℕ
push ch v = v ++ ch ∷ []

-- The loop of `clear_line` with `k` rounds left, the next of which removes at `k - 1`.
unfoldable pub remove_before : ℕ → List ℕ → Option (List ℕ)
unfolding remove
remove_before zero v = some v
remove_before (suc k) v = remove k v >>= remove_before k

-- The loop behind ctrl and the right arrow, with `n` characters to the right of the cursor: how far
-- the cursor goes.
unfoldable pub word_right : ℕ → ℕ → List ℕ → Option ℕ
word_right zero pos v = some 0
word_right (suc n) pos v =
    let at_end = pos + 1 == length v in
    let rest = word_right n (pos + 1) v in
    if at_end
    then some 1
    else (get_elem? v (pos + 1) >>= λ ch. if ch == 32 then some 1 else (rest >>= λ k. some (suc k)))

-- The loop behind ctrl and the left arrow, from the position `i`: where it stops.
unfoldable pub word_left : ℕ → List ℕ → Option ℕ
word_left zero v = some 0
word_left (suc i) v =
    let rest = word_left i v in get_elem? v i >>= λ ch. if ch == 32 then some i else rest

-- The loop that makes room for a character, with `i` rounds left.
unfoldable pub shift_right : ℕ → ℕ → List ℕ → Option (List ℕ)
shift_right zero pos v = some v
shift_right (suc i) pos v = do
  moved ← move_elem v (add_u32 pos (suc i)) (add_u32 pos i)
  shift_right i pos moved
