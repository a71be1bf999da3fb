-- ===== src/Shell/LineEditor/Tests.antt =====
-- The line editor's theorems while `ab` stands behind the prompt `# ` on a terminal of eight columns.
use umbongo.Base.{
  ℕ, ◌≡◌, refl, List, [], ◌∷◌, ◌++◌, some, false, arith, inl, replicate, get_or, length,
}
use umbongo.Console.Terminal.{Terminal, Line}
use umbongo.Console.EscapeParser.{escape_parser}
use umbongo.Console.Feed.{Console}
use umbongo.Console.Follow.{Displays, Feeds}
use umbongo.Shell.LineEditor.{
  LineEditor, KeyEvent, handle_edit, handle_key_event, handle_plain, insert, handle_history,
  history_move,
}
use umbongo.Shell.LineBuffer.{shift_right}
use umbongo.Shell.LineEditor.Moves.{IsValid}
use umbongo.Shell.LineEditor.Keys.{handle_history-recalls}
use umbongo.Shell.LineEditor.Screen.{handle_key_event-IsValid, handle_edit-Displays}

-- The cursor stands before the `b`; the history has the line `c`.
abbrev editor : LineEditor
editor = record { buffer = 97 ∷ 98 ∷ []; history = (99 ∷ []) ∷ []; cursor_pos = 1; history_pos = 1 }

editor-IsValid : IsValid editor
editor-IsValid = record {
  cursor = omega arith;
  plain = ((refl, refl, refl), ((refl, refl, refl), tt));
  past = ((((refl, refl, refl), tt), omega arith), tt);
}

abbrev prefix : List ℕ
prefix = 35 ∷ 32 ∷ []

abbrev row : Line
row = record { chars = 35 ∷ 32 ∷ 97 ∷ 98 ∷ replicate 4 0; colours = replicate 8 0; dirty = false }

abbrev screen : Terminal
screen = record {
  lines = row ∷ [];
  column_count = 8;
  row_count = 1;
  cursor_x = 3;
  cursor_y = 0;
  colour = 0xffffff;
}

abbrev console : Console
console = record {
  parser = escape_parser;
  screens = record { default_terminal = screen; alternate_terminal = screen; on_alternate = false };
}

console-Displays : Displays 8 prefix editor.buffer editor.cursor_pos console
console-Displays = record {
  idle = refl;
  shown = record {
    line = row;
    blank = 0;
    count = 3;
    is_blank = inl refl;
    here = refl;
    chars = refl;
    colours = refl;
    width = refl;
    columns_eq = refl;
    small = omega arith;
    cursor = refl;
    inside = omega arith;
  };
}

-- The key `x`.
abbrev key_x : KeyEvent
key_x = record { code = 0x1b; character = 120; ctrl_pressed = false }

abbrev edited : LineEditor
edited = record editor { buffer = 97 ∷ 120 ∷ 98 ∷ []; cursor_pos = 2 }

handle_edit-x : handle_edit prefix [] key_x editor ≡ some (120 ∷ [], edited)
unfolding handle_plain insert shift_right
handle_edit-x = refl

handle_key_event-IsValid_example :
    (line out : List ℕ) × (f : LineEditor) × (handle_key_event prefix [] key_x editor
      ≡ some (line, (out, f)))
    × IsValid f
handle_key_event-IsValid_example =
    handle_key_event-IsValid prefix [] key_x editor-IsValid refl (omega arith)

handle_edit-Displays_example :
    Feeds (120 ∷ []) console (Displays 8 prefix edited.buffer edited.cursor_pos)
handle_edit-Displays_example =
    handle_edit-Displays prefix [] key_x 8 prefix console editor-IsValid (refl, refl) refl
      (omega arith) handle_edit-x (omega arith) console-Displays

-- The arrow up: the line becomes `bc`, and the screen shows `cb`.
abbrev arrow_up : ℕ
arrow_up = 0x52

handle_history-recalls_example :
    (out : List ℕ) × (f : LineEditor) × (handle_history arrow_up editor ≡ some (out, f))
    × (f.buffer ≡ (98 ∷ []) ++ get_or editor.history (history_move arrow_up editor).history_pos [])
    × (f.cursor_pos ≡ length (get_or editor.history (history_move arrow_up editor).history_pos []))
    × Feeds out console (
        Displays 8 prefix
          (get_or editor.history (history_move arrow_up editor).history_pos [] ++ 98 ∷ [])
          f.cursor_pos)
unfolding history_move
handle_history-recalls_example =
    handle_history-recalls arrow_up (97 ∷ []) (98 ∷ []) 8 prefix console editor-IsValid refl refl
      (omega arith) (omega arith) console-Displays
