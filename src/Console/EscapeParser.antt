-- ===== src/Console/EscapeParser.antt =====
-- servers/console/escape_parser.{hh,cc}. Its warnings are log lines and not in the model.
use umbongo.Base.{
  ℕ, ◌+◌, List, [], ◌∷◌, ◌++◌, Bool, true, false, not, ◌&&◌, ◌||◌, ◌==◌, ltb, leb, if◌then◌else◌,
  mul_u32, sub_u32,
}
use umbongo.Console.Terminal.{
  Terminal, clear, move_left, move_right, set_colour, set_cursor, set_dirty,
}

-- The two terminals, and which of them the pointer `terminal` of `main` names.
pub record Screens : Type 0 where
  pub default_terminal : Terminal
  pub alternate_terminal : Terminal
  pub on_alternate : Bool

abbrev pub current : Screens → Terminal
current s = if s.on_alternate then s.alternate_terminal else s.default_terminal

abbrev pub with_current : Terminal → Screens → Screens
with_current t s = record s {
  default_terminal = if s.on_alternate then s.default_terminal else t;
  alternate_terminal = if s.on_alternate then t else s.alternate_terminal;
}

-- `terminal->f()`
abbrev pub on_current : (Terminal → Terminal) → Screens → Screens
on_current f s = with_current (f (current s)) s

pub record EscapeParser : Type 0 where
  pub current_param : ℕ
  pub in_escape : Bool
  pub params : List ℕ

abbrev pub escape_parser : EscapeParser
escape_parser = record { current_param = 0; in_escape = false; params = [] }

-- `H`: the row comes first.
abbrev cursor_position : List ℕ → Screens → Screens
cursor_position (y ∷ x ∷ []) s = on_current (set_cursor x y) s
cursor_position _ s = s

-- `h` and `l`.
abbrev private_mode : Bool → List ℕ → Screens → Screens
private_mode enable (code ∷ []) s =
    if not (code == 1049)
    then s
    else if enable
    then on_current clear (record s { on_alternate = true })
    else on_current set_dirty (record s { on_alternate = false })
private_mode enable _ s = s

-- `m`: a foreground colour.
abbrev graphics : List ℕ → Screens → Screens
graphics (code ∷ kind ∷ r ∷ g ∷ b ∷ []) s =
    if code == 38 && kind == 2 then on_current (set_colour r g b) s else s
graphics _ s = s

-- The last switch of `parse`.
abbrev pub perform : ℕ → List ℕ → Screens → Screens
perform ch params s =
    if ch == 68
    then on_current move_left s
    else if ch == 67
    then on_current move_right s
    else if ch == 72
    then cursor_position params s
    else if ch == 74
    then on_current clear s
    else if ch == 104
    then private_mode true params s
    else if ch == 108
    then private_mode false params s
    else if ch == 109
    then graphics params s
    else s

-- `ch - '0' < 10` on a signed character: every byte below `:`, and every byte from 128 on.
abbrev pub is_param_char : ℕ → Bool
is_param_char ch = ltb ch 58 || leb 128 ch

-- `parse` of a character that is no ESC, within a sequence.
unfoldable pub parse_in_escape : ℕ → EscapeParser → Screens → EscapeParser × Screens
unfolding clear move_left move_right set_colour set_cursor set_dirty
parse_in_escape ch p s =
    let digits = record p { current_param = sub_u32 (mul_u32 p.current_param 10 + ch) 48 } in
    let pushed = record p { params = p.params ++ p.current_param ∷ []; current_param = 0 } in
    if ch == 91 || ch == 63
    then (p, s)
    else if is_param_char ch
    then (digits, s)
    else if ch == 59
    then (pushed, s)
    else (record pushed { in_escape = false }, perform ch pushed.params s)

-- `parse`: whether the character was taken.
unfoldable pub parse : ℕ → EscapeParser → Screens → Bool × EscapeParser × Screens
unfolding parse_in_escape
parse ch p s =
    if ch == 27
    then (true, record p { in_escape = true; params = [] }, s)
    else if not p.in_escape
    then (false, p, s)
    else (let (q, after) = parse_in_escape ch p s in (true, q, after))
