-- ===== src/Console/Terminal.antt =====
-- servers/console/terminal.{hh,cc}, less what draws to the framebuffer. A character and a colour are
-- the unsigned number of their bits. Indexing a vector out of bounds fails an assertion.
pub mod Edits
use umbongo.Base.{
  ℕ, zero, suc, ◌+◌, ◌-◌, ◌*◌, ◌/◌, ◌%◌, ◌^◌, List, [], ◌∷◌, ◌++◌, map, Option, none, some, Bool,
  true, false, ◌==◌, ltb, if◌then◌else◌, length, get_elem?, get_or, set, drop, replicate, add_u32,
  sub_u32, mul_u32, copy_in, copy_out,
}
use Prim.Native.Nat.{bit_or}
use umbongo.Base.Panic.{◌>>=◌, ◌>>◌, assert}
use umbongo.Base.Vector.{put, move_elem}

pub record Line : Type 0 where
  pub chars : List ℕ
  pub colours : List ℕ
  pub dirty : Bool

pub record Terminal : Type 0 where
  pub lines : List Line
  pub column_count : ℕ
  pub row_count : ℕ
  pub cursor_x : ℕ
  pub cursor_y : ℕ
  pub colour : ℕ

-- `Line(column_count)`, its vectors filled with zeros.
abbrev pub new_line : ℕ → Line
new_line n = record { chars = replicate n 0; colours = replicate n 0; dirty = false }

-- The constructor, with the counts that it computes from the framebuffer and the font.
abbrev pub terminal : ℕ → ℕ → Terminal
terminal columns rows = record {
  lines = replicate rows (new_line columns);
  column_count = columns;
  row_count = rows;
  cursor_x = 0;
  cursor_y = 0;
  colour = 0xffffffff;
}

abbrev pub set_line_dirty : Line → Line
set_line_dirty l = record l { dirty = true }

-- `old` with its `r` low bytes from `new`.
abbrev pub low_bytes : ℕ → ℕ → ℕ → ℕ
low_bytes r old new = (old / 2 ^ (8 * r)) * 2 ^ (8 * r) + new % 2 ^ (8 * r)

-- `memcpy(&v[col], &v[col + 1], n)` on words of four bytes: `n / 4` words, and what is left of `n`
-- from the next.
abbrev pub copy_words : List ℕ → ℕ → ℕ → List ℕ
copy_words v col n =
    let whole = n / 4 in
    let next = col + whole in
    set (copy_in v col (copy_out v (col + 1) whole)) next
      (low_bytes (n % 4) (get_or v next 0) (get_or v (next + 1) 0))

-- `set_char` of a backspace.
unfoldable pub remove_char : ℕ → Line → Option Line
remove_char col l = do
  assert (ltb col (length l.chars))
  assert (ltb (col + 1) (length l.chars))
  assert (ltb col (length l.colours))
  assert (ltb (col + 1) (length l.colours))
  some (record l {
    chars = copy_in l.chars col (copy_out l.chars (col + 1) (length l.chars - col - 1));
    colours = copy_words l.colours col (length l.colours - col - 1);
  })

-- The loop of `set_char` with `i` rounds left: `col + i` may wrap around, and then fails to index.
unfoldable pub shift_right : ℕ → ℕ → Line → Option Line
shift_right zero col l = some l
shift_right (suc i) col l = do
  chars ← move_elem l.chars (add_u32 col (suc i)) (add_u32 col i)
  colours ← move_elem l.colours (add_u32 col (suc i)) (add_u32 col i)
  shift_right i col (record l { chars = chars; colours = colours })

unfoldable pub insert_char : ℕ → ℕ → Line → Option Line
unfolding shift_right
insert_char col ch l = do
  shifted ← shift_right (sub_u32 (sub_u32 (length l.chars) col) 1) col l
  chars ← put shifted.chars col ch
  some (record shifted { chars = chars })

unfoldable pub set_char : ℕ → ℕ → ℕ → Terminal → Option Terminal
unfolding remove_char insert_char
set_char row col ch t = do
  line ← get_elem? t.lines row
  changed ←
      (if ch == 8
        then remove_char col (set_line_dirty line)
        else insert_char col ch (set_line_dirty line))
  some (record t { lines = set t.lines row changed })

-- `backspace` up to the call of `set_char`, with the decrement in its argument.
abbrev pub step_back : Terminal → Terminal
step_back t = record t {
  cursor_x = sub_u32 (if t.cursor_x == 0 then sub_u32 t.column_count 1 else t.cursor_x) 1;
  cursor_y =
      if t.cursor_x == 0 then (if t.cursor_y == 0 then 0 else t.cursor_y - 1) else t.cursor_y;
}

unfoldable pub backspace : Terminal → Option Terminal
unfolding set_char
backspace t = set_char (step_back t).cursor_y (step_back t).cursor_x 8 (step_back t)

abbrev pub clear_line : Line → Line
clear_line l = record { chars = map (λ _. 32) l.chars; colours = l.colours; dirty = true }

unfoldable pub clear : Terminal → Terminal
clear t = record t { lines = map clear_line t.lines; cursor_x = 0; cursor_y = 0 }

-- `newline` where the cursor leaves the last row.
abbrev pub scroll : Terminal → Option Terminal
scroll t =
    assert (ltb 0 (length t.lines))
    >> some
        (record t { lines = map set_line_dirty (drop 1 t.lines ++ new_line t.column_count ∷ []) })

unfoldable pub newline : Terminal → Option Terminal
newline t =
    let down = add_u32 t.cursor_y 1 in
    if down == t.row_count
    then scroll (record t { cursor_x = 0; cursor_y = sub_u32 down 1 })
    else some (record t { cursor_x = 0; cursor_y = down })

unfoldable pub move_left : Terminal → Terminal
move_left t = record t { cursor_x = sub_u32 t.cursor_x 1 }

unfoldable pub move_right : Terminal → Terminal
move_right t = record t { cursor_x = add_u32 t.cursor_x 1 }

-- `put_char` behind the line break.
unfoldable pub put_at_cursor : ℕ → Terminal → Option Terminal
unfolding set_char
put_at_cursor ch t = do
  written ← set_char t.cursor_y t.cursor_x ch t
  line ← get_elem? written.lines written.cursor_y
  colours ← put line.colours written.cursor_x written.colour
  some (record written {
    lines = set written.lines written.cursor_y (record line { colours = colours });
    cursor_x = add_u32 written.cursor_x 1;
  })

unfoldable pub put_char : ℕ → Terminal → Option Terminal
unfolding newline put_at_cursor
put_char ch t =
    if t.cursor_x == sub_u32 t.column_count 1
    then newline t >>= put_at_cursor ch
    else put_at_cursor ch t

unfoldable pub set_colour : ℕ → ℕ → ℕ → Terminal → Terminal
set_colour r g b t = record t {
  colour = bit_or (bit_or b (mul_u32 g (2 ^ 8))) (mul_u32 r (2 ^ 16));
}

unfoldable pub set_cursor : ℕ → ℕ → Terminal → Terminal
set_cursor x y t = record t { cursor_x = x; cursor_y = y }

unfoldable pub set_dirty : Terminal → Terminal
set_dirty t = record t { lines = map set_line_dirty t.lines }
