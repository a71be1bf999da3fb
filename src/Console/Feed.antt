-- ===== src/Console/Feed.antt =====
-- The read handler in `main` of servers/console/main.cc: bytes to a terminal. `clear_cursor` before
-- the bytes and `render` behind them draw, and are left out.
use umbongo.Base.{ℕ, List, [], ◌∷◌, Option, some, Bool, true, false, ◌==◌, if◌then◌else◌}
use umbongo.Base.Panic.{◌>>=◌}
use umbongo.Console.Terminal.{Terminal, backspace, newline, put_char}
use umbongo.Console.EscapeParser.{Screens, current, with_current, EscapeParser, parse}

pub record Console : Type 0 where
  pub parser : EscapeParser
  pub screens : Screens

-- The switch behind `parse`.
abbrev pub show : ℕ → Terminal → Option Terminal
show ch t = if ch == 8 then backspace t else if ch == 10 then newline t else put_char ch t

abbrev pub show_unless : Bool → ℕ → Console → Option Console
show_unless true ch c = some c
show_unless false ch c =
    show ch (current c.screens) >>= λ t. some (record c { screens = with_current t c.screens })

unfoldable pub feed_char : ℕ → Console → Option Console
feed_char ch c =
    let (taken, p, s) = parse ch c.parser c.screens in
    show_unless taken ch (record { parser = p; screens = s })

unfoldable pub feed : List ℕ → Console → Option Console
feed [] c = some c
feed (ch ∷ rest) c = feed_char ch c >>= feed rest
