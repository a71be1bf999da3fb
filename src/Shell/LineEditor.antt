-- ===== src/Shell/LineEditor.antt =====
-- shell/line_editor.{hh,cc}: the line that is being typed, and the history. Each function gives what
-- it prints, as bytes, with the state behind it. Printing is a `write` whose failure is ignored.
pub mod Edits
pub mod Printed
pub mod Moves
pub mod Keys
pub mod Screen
mod Tests
use umbongo.Base.{
  ℕ, zero, suc, ◌+◌, ◌-◌, List, [], ◌∷◌, ◌++◌, Option, none, some, Bool, true, false, not, ◌&&◌,
  ◌||◌, ◌==◌, ltb, leb, if◌then◌else◌, length, get_elem?, get_or, set, take, drop, replicate,
  add_u32, sub_u32,
}
use umbongo.Shell.LineBuffer.{
  right, left, erase_all, repeat, remove, push, remove_before, word_right, word_left, shift_right,
}
use umbongo.Base.Panic.{◌>>=◌, ◌>>◌, assert}
use umbongo.Base.Vector.{put, move_elem}

-- `core::KeyEvent`; whether alt is pressed is never asked.
pub record KeyEvent : Type 0 where
  pub code : ℕ
  pub character : ℕ
  pub ctrl_pressed : Bool

pub record LineEditor : Type 0 where
  pub buffer : List ℕ
  pub history : List (List ℕ)
  pub cursor_pos : ℕ
  pub history_pos : ℕ

abbrev pub line_editor : LineEditor
line_editor = record { buffer = []; history = []; cursor_pos = 0; history_pos = 0 }

-- What a function prints, and the state behind it.
abbrev pub Step : Type 0
Step = List ℕ × LineEditor

abbrev pub then_step : Option Step → (LineEditor → Option Step) → Option Step
then_step m f = m >>= λ a. f a.1 >>= λ b. some (a.0 ++ b.0, b.1)

unfoldable pub clear_line : LineEditor → Option Step
unfolding remove_before
clear_line e = remove_before e.cursor_pos e.buffer >>= λ v.
    some (replicate e.cursor_pos 8, record e { buffer = v; cursor_pos = 0 })

unfoldable pub goto_start : LineEditor → Step
goto_start e = (repeat e.cursor_pos left, record e { cursor_pos = 0 })

unfoldable pub goto_end : LineEditor → Step
goto_end e =
    (repeat (length e.buffer - e.cursor_pos) right, record e { cursor_pos = length e.buffer })

unfoldable pub ctrl_right : LineEditor → Option Step
unfolding word_right
ctrl_right e =
    if e.cursor_pos == length e.buffer
    then some ([], e)
    else (word_right (length e.buffer - (e.cursor_pos + 1)) (e.cursor_pos + 1) e.buffer >>= λ k.
        some (repeat (suc k) right, record e { cursor_pos = e.cursor_pos + 1 + k }))

unfoldable pub ctrl_left : LineEditor → Option Step
unfolding word_left
ctrl_left e =
    if e.cursor_pos == 0
    then some ([], e)
    else (word_left (e.cursor_pos - 1) e.buffer >>= λ stop. some (
      repeat (e.cursor_pos - stop) left ++ (if stop == 0 then [] else right),
      record e { cursor_pos = if stop == 0 then 0 else stop + 1 },
    ))

-- `handle_key_event` of a backspace.
unfoldable pub handle_backspace : LineEditor → Option Step
unfolding remove
handle_backspace e =
    if e.cursor_pos == 0
    then some ([], e)
    else (remove (e.cursor_pos - 1) e.buffer >>= λ v.
        some (8 ∷ [], record e { buffer = v; cursor_pos = e.cursor_pos - 1 }))

unfoldable pub insert : ℕ → LineEditor → Option Step
unfolding shift_right
insert ch e = do
  v ←
      shift_right (sub_u32 (sub_u32 (length e.buffer + 1) e.cursor_pos) 1) e.cursor_pos
        (push 0 e.buffer)
  typed ← put v e.cursor_pos ch
  some (ch ∷ [], record e { buffer = typed; cursor_pos = add_u32 e.cursor_pos 1 })

-- The history position that the arrows up and down move to.
unfoldable pub history_move : ℕ → LineEditor → LineEditor
history_move code e = record e {
  history_pos =
      if code == 0x51
      then (if ltb e.history_pos (length e.history) then e.history_pos + 1 else e.history_pos)
      else (e.history_pos - 1);
}

-- The loop over a line of the history.
unfoldable pub recall : LineEditor → Step
recall e =
    let entry = get_or e.history e.history_pos [] in
    if ltb e.history_pos (length e.history)
    then (
      entry,
      record e { buffer = e.buffer ++ entry; cursor_pos = add_u32 e.cursor_pos (length entry) },
    )
    else ([], e)

unfoldable pub handle_history : ℕ → LineEditor → Option Step
unfolding clear_line recall history_move
handle_history code e = then_step (clear_line (history_move code e)) (λ f. some (recall f))

-- The last switch of `handle_key_event`, and what is behind it.
unfoldable pub handle_plain : KeyEvent → LineEditor → Option Step
unfolding goto_start goto_end insert
handle_plain k e =
    if k.code == 0x4a
    then some (goto_start e)
    else if k.code == 0x4d
    then some (goto_end e)
    else if k.code == 0x4f
    then some (
        if ltb e.cursor_pos (length e.buffer)
        then (right, record e { cursor_pos = e.cursor_pos + 1 })
        else ([], e))
    else if k.code == 0x50
    then some
        (if e.cursor_pos == 0 then ([], e) else (left, record e { cursor_pos = e.cursor_pos - 1 }))
    else if k.character == 0
    then some ([], e)
    else insert k.character e

abbrev pub home : List ℕ
home = 47 ∷ 104 ∷ 111 ∷ 109 ∷ 101 ∷ []

abbrev pub same_chars : List ℕ → List ℕ → Bool
same_chars [] [] = true
same_chars (x ∷ s) (y ∷ t) = x == y && same_chars s t
same_chars _ _ = false

-- `\x1b[38;2;179;179;255m` and `\x1b[38;2;255;255;255m`.
abbrev pub blue : List ℕ
blue =
    27 ∷ 91 ∷ 51 ∷ 56 ∷ 59 ∷ 50 ∷ 59 ∷ 49 ∷ 55 ∷ 57 ∷ 59 ∷ 49 ∷ 55 ∷ 57 ∷ 59 ∷ 50 ∷ 53 ∷ 53 ∷ 109
    ∷ []

abbrev pub white : List ℕ
white =
    27 ∷ 91 ∷ 51 ∷ 56 ∷ 59 ∷ 50 ∷ 59 ∷ 50 ∷ 53 ∷ 53 ∷ 59 ∷ 50 ∷ 53 ∷ 53 ∷ 59 ∷ 50 ∷ 53 ∷ 53 ∷ 109
    ∷ []

-- The prompt, and the working directory as `core::cwd` gives it.
module _ (prompt cwd : List ℕ) where
  abbrev pub begin_line : List ℕ
  begin_line =
      let shown =
        if leb 5 (length cwd) && same_chars (take 5 cwd) home then 126 ∷ drop 5 cwd else cwd in
      blue ++ (shown ++ (32 ∷ (prompt ++ white)))

  abbrev pub clear : LineEditor → Step
  clear e = (erase_all ++ begin_line, record e { buffer = []; cursor_pos = 0 })

  -- The two switches behind ctrl.
  abbrev pub ctrl_character : ℕ → LineEditor → Option Step
  ctrl_character ch e =
      let cleared = clear_line e in
      if ch == 97
      then some (goto_start e)
      else if ch == 101
      then some (goto_end e)
      else if ch == 108
      then some (clear e)
      else if ch == 117
      then cleared
      else some ([], e)

  abbrev pub ctrl_code : ℕ → LineEditor → Option Step
  ctrl_code code e =
      if code == 0x4f then ctrl_right e else if code == 0x50 then ctrl_left e else some ([], e)

  abbrev pub handle_ctrl : KeyEvent → LineEditor → Option Step
  handle_ctrl k e = then_step (ctrl_character k.character e) (ctrl_code k.code)

  -- `handle_key_event` where it returns no line.
  abbrev pub handle_edit : KeyEvent → LineEditor → Option Step
  handle_edit k e =
      if k.character == 8
      then handle_backspace e
      else if k.ctrl_pressed
      then handle_ctrl k e
      else if k.code == 0x51 || k.code == 0x52
      then handle_history k.code e
      else handle_plain k e

  -- `handle_key_event` of a line break: the line that it returns, which is only a line break if the
  -- buffer is empty.
  abbrev pub handle_enter : LineEditor → List ℕ × Step
  handle_enter e =
      let line = e.buffer in
      if length line == 0 then (10 ∷ [], (10 ∷ [], e)) else (
        line,
        (
          10 ∷ [],
          record {
            buffer = [];
            history = e.history ++ line ∷ [];
            cursor_pos = 0;
            history_pos = length e.history + 1;
          },
        ),
      )

  -- The line that is returned, what is printed, and the state behind it.
  abbrev pub handle_key_event : KeyEvent → LineEditor → Option (List ℕ × Step)
  handle_key_event k e =
      if k.character == 10
      then some (handle_enter e)
      else (handle_edit k e >>= λ step. some ([], step))
