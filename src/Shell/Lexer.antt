-- ===== src/Shell/Lexer.antt =====
-- shell/token.{hh,cc} and shell/lexer.{hh,cc}. A character is a byte.
pub mod Words
use umbongo.Base.{
  ℕ, zero, suc, ◌+◌, ◌≡◌, refl, List, [], ◌∷◌, Bool, true, false, not, ◌||◌, ◌&&◌, ◌==◌,
  if◌then◌else◌,
}

pub data TokenKind : Type 0 where
  eof identifier pipe : TokenKind

pub record Token : Type 0 where
  pub kind : TokenKind
  pub text : List ℕ

-- `Token(TokenKind)` and `Token(String)`.
abbrev pub of_kind : TokenKind → Token
of_kind k = record { kind = k; text = [] }

abbrev pub of_text : List ℕ → Token
of_text s = record { kind = identifier; text = s }

abbrev pub same_kind : TokenKind → TokenKind → Bool
same_kind eof eof = true
same_kind identifier identifier = true
same_kind pipe pipe = true
same_kind _ _ = false

-- A C string is the list of its characters, less the closing zero. The result is the string from
-- the place on that is found, or from its end on.
strchrnul : List ℕ → ℕ → List ℕ
strchrnul [] c = []
strchrnul (x ∷ str) c = if x == c then x ∷ str else strchrnul str c

-- The character at the head of a C string.
abbrev first_char : List ℕ → ℕ
first_char [] = 0
first_char (x ∷ str) = x

-- `strchr(str, c) != nullptr`
strchr : List ℕ → ℕ → Bool
unfolding strchrnul
strchr str c = first_char (strchrnul str c) == c

unfoldable pub is_space : ℕ → Bool
is_space ch = ch == 32 || ch == 12 || ch == 10 || ch == 13 || ch == 9 || ch == 11

unfoldable pub is_identifier_character : ℕ → Bool
unfolding strchr
is_identifier_character ch = not (strchr (32 ∷ 124 ∷ 10 ∷ []) ch)

-- The two loops of `next_token`. The position in the source is kept as what of it is left.
unfoldable pub skip_spaces : List ℕ → List ℕ
skip_spaces [] = []
skip_spaces (ch ∷ rest) = if is_space ch then skip_spaces rest else ch ∷ rest

unfoldable pub take_identifier : List ℕ → List ℕ × List ℕ
take_identifier [] = ([], [])
take_identifier (ch ∷ rest) =
    let (buf, after) = take_identifier rest in
    if is_identifier_character ch then (ch ∷ buf, after) else ([], ch ∷ rest)

-- `next_token` behind the spaces.
unfoldable pub token_at : List ℕ → Token × List ℕ
token_at [] = (of_kind eof, [])
token_at (ch ∷ rest) =
    let (buf, after) = take_identifier rest in
    if ch == 124
    then (of_kind pipe, rest)
    else if is_identifier_character ch
    then (of_text (ch ∷ buf), after)
    else (of_kind eof, rest)

unfoldable pub next_token : List ℕ → Token × List ℕ
unfolding token_at skip_spaces take_identifier is_space is_identifier_character
next_token source = token_at (skip_spaces source)

pub record Lexer : Type 0 where
  pub source : List ℕ
  pub peek_token : Token
  pub peek_ready : Bool

unfoldable pub lexer : List ℕ → Lexer
lexer source = record { source = source; peek_token = of_kind eof; peek_ready = false }

-- A token that is moved from keeps its kind and loses its text.
abbrev moved : Token → Token
moved t = of_kind t.kind

unfoldable pub next : Lexer → Token × Lexer
next l =
    let (t, after) = next_token l.source in
    if l.peek_ready
    then (l.peek_token, record l { peek_token = moved l.peek_token; peek_ready = false })
    else (t, record l { source = after })

unfoldable pub peek : Lexer → Token × Lexer
peek l =
    let (t, after) = next_token l.source in
    if l.peek_ready
    then (l.peek_token, l)
    else (t, record { source = after; peek_token = t; peek_ready = true })
