-- ===== src/Shell/Parser/RoundTrip.antt =====
-- A pipeline that is written out with single spaces is read back as its tree.
use umbongo.Base.{
  ℕ, zero, suc, ◌+◌, ◌≤◌, ◌<◌, ◌≡◌, refl, ◌∙◌, List, [], ◌∷◌, ◌++◌, none, some, true, false, arith,
  length, length-append,
}
use umbongo.Base.Outcome.{done}
use umbongo.Shell.Lexer.{
  Token, TokenKind, eof, identifier, of_kind, of_text, same_kind, is_identifier_character, Lexer,
  lexer, next, peek, next_token,
}
use umbongo.Shell.Lexer.Words.{
  All, IsWord, Stops, next_token-word, next_token-space, next_token-pipe, next_token-nil,
}
use umbongo.Shell.Parser.{
  Node, command, list, pipe, string_literal, Nodes, nil, cons, consume, expect, identifiers,
  parse_list, parse_command, pipe_rest, parse_pipe, parse,
}

-- A command is its first word and the others.
pub record Words : Type 0 where
  pub first : List ℕ
  pub others : List (List ℕ)

abbrev pub AreWords : Words → Type 0
AreWords c = IsWord c.first × All IsWord c.others

-- The text of the others, a space before each, with what follows.
abbrev pub words_then : List (List ℕ) → List ℕ → List ℕ
words_then [] s = s
words_then (w ∷ ws) s = 32 ∷ (w ++ words_then ws s)

-- The text of the commands behind the first, ` | ` before each.
abbrev pub pipe_tail : List Words → List ℕ
pipe_tail [] = []
pipe_tail (c ∷ cs) = 32 ∷ 124 ∷ 32 ∷ (c.first ++ words_then c.others (pipe_tail cs))

abbrev pub line : Words → List Words → List ℕ
line c cs = c.first ++ words_then c.others (pipe_tail cs)

abbrev pub literals : List (List ℕ) → Nodes
literals [] = nil
literals (w ∷ ws) = cons (string_literal w) (literals ws)

abbrev pub command_tree : Words → Node
command_tree c = command (list (cons (string_literal c.first) (literals c.others)))

abbrev pub tree : Words → List Words → Node
tree c [] = command_tree c
tree c (d ∷ ds) = pipe (command_tree c) (tree d ds)

-- The lexer before a token is looked at, and after.
abbrev at : List ℕ → Token → Lexer
at s p = record { source = s; peek_token = p; peek_ready = false }

abbrev looked : List ℕ → Lexer
looked s = record { source = (next_token s).1; peek_token = (next_token s).0; peek_ready = true }

Stops-words_then : (ws : List (List ℕ)) (s : List ℕ) → Stops s → Stops (words_then ws s)
unfolding is_identifier_character
Stops-words_then [] s h = h
Stops-words_then (w ∷ ws) s h = refl

consume_other :
    (k : TokenKind) (s : List ℕ) (p : Token)
    → same_kind (next_token s).0.kind k ≡ false
    → consume k (at s p) ≡ (none, looked s)
unfolding consume peek
consume_other k s p h = rw h

consume_same :
    (k : TokenKind) (s r : List ℕ) (p t : Token)
    → next_token s ≡ (t, r)
    → same_kind t.kind k ≡ true
    → consume k (at s p) ≡ (some t, at r (of_kind t.kind))
unfolding consume peek next
consume_same k s r p t e h = rw (e, h)

expect_same :
    (k : TokenKind) (s r : List ℕ) (p t : Token)
    → next_token s ≡ (t, r)
    → same_kind t.kind k ≡ true
    → expect k (at s p) ≡ (t, at r p)
unfolding expect next
expect_same k s r p t e h = rw (e, h)

module _ (word : List ℕ) (ws : List (List ℕ)) (s : List ℕ) (w : IsWord word) (stop : Stops s) where
  first_word : next_token (word ++ words_then ws s) ≡ (of_text word, words_then ws s)
  first_word = next_token-word word (words_then ws s) w (Stops-words_then ws s stop)

  next_word : next_token (32 ∷ (word ++ words_then ws s)) ≡ (of_text word, words_then ws s)
  next_word = next_token-space (word ++ words_then ws s) ∙ first_word

identifiers-words :
    (ws : List (List ℕ)) (fuel : ℕ) (p : Token) (s : List ℕ)
    → All IsWord ws
    → length ws < fuel
    → Stops s
    → same_kind (next_token s).0.kind identifier ≡ false
    → identifiers fuel (at (words_then ws s) p) ≡ done (literals ws, looked s)
unfolding identifiers
identifiers-words ws zero p s w h stop other = absurd (omega arith)
identifiers-words [] (suc fuel) p s w h stop other =
    rw (consume_other identifier s p other, identifiers) (rw (consume_other identifier s p other))
identifiers-words (v ∷ ws) (suc fuel) p s w h stop other =
    let step =
      consume_same identifier (words_then (v ∷ ws) s) (words_then ws s) p (of_text v)
        (next_word v ws s w.0 stop) refl in
    rw (step, identifiers)
      (rw step (rw (identifiers-words ws fuel (of_kind identifier) s w.1 (omega arith) stop other)))

parse_command-words :
    (c : Words) (fuel : ℕ) (p : Token) (source s : List ℕ)
    → AreWords c
    → length c.others < fuel
    → Stops s
    → same_kind (next_token s).0.kind identifier ≡ false
    → next_token source ≡ (of_text c.first, words_then c.others s)
    → parse_command fuel (at source p) ≡ done (command_tree c, looked s)
unfolding parse_command parse_list
parse_command-words c fuel p source s w h stop other e =
    rw (expect_same identifier source (words_then c.others s) p (of_text c.first) e refl)
      (rw (identifiers-words c.others fuel p s w.1 h stop other))

length-words_then :
    (ws : List (List ℕ)) (s : List ℕ) → length ws + length s ≤ length (words_then ws s)
length-words_then [] s = omega arith
length-words_then (w ∷ ws) s =
    omega (arith, length-words_then ws s, length-append w (words_then ws s))

next_token-bar : (r : List ℕ) → next_token (32 ∷ 124 ∷ r) ≡ (of_kind TokenKind.pipe, r)
next_token-bar r = next_token-space (124 ∷ r) ∙ next_token-pipe r

-- Behind a command comes the end or a bar.
no_word : (cs : List Words) → same_kind (next_token (pipe_tail cs)).0.kind identifier ≡ false
no_word [] = rw next_token-nil
no_word (d ∷ ds) = rw next_token-bar

Stops-pipe_tail : (cs : List Words) → Stops (pipe_tail cs)
unfolding is_identifier_character
Stops-pipe_tail [] = tt
Stops-pipe_tail (d ∷ ds) = refl

-- A lexer that has looked at a bar hands it out; one that has looked at the end does not.
consume-looked_bar :
    (r : List ℕ)
    → consume TokenKind.pipe (looked (32 ∷ 124 ∷ r))
      ≡ (some (of_kind TokenKind.pipe), at r (of_kind TokenKind.pipe))
unfolding consume peek next
consume-looked_bar r = rw next_token-bar

consume-looked_nil : (consume TokenKind.pipe (looked [])).0 ≡ none
unfolding consume peek next
consume-looked_nil = rw next_token-nil

parse_pipe-line :
    (c : Words) (cs : List Words) (fuel : ℕ) (p : Token) (source : List ℕ)
    → AreWords c
    → All AreWords cs
    → length (words_then c.others (pipe_tail cs)) < fuel
    → next_token source ≡ (of_text c.first, words_then c.others (pipe_tail cs))
    → (l : Lexer) × (parse_pipe fuel (at source p) ≡ done (tree c cs, l))
unfolding parse_pipe
parse_pipe-line c cs zero p source w ws h e = absurd (omega arith)
parse_pipe-line c [] (suc fuel) p source w ws h e =
    let room : length c.others < suc fuel = omega (arith, length-words_then c.others []) in
    let ran = parse_command-words c (suc fuel) p source [] w room tt (no_word []) e in
    ((consume TokenKind.pipe (looked [])).1, rw ran (rw (consume-looked_nil, pipe_rest)))
parse_pipe-line c (d ∷ ds) (suc fuel) p source w ws h e =
    let after = pipe_tail (d ∷ ds) in
    let small = length-words_then c.others after in
    let ran =
      parse_command-words c (suc fuel) p source after w (omega (arith, small))
        (Stops-pipe_tail (d ∷ ds)) (no_word (d ∷ ds)) e in
    let rest = 32 ∷ (d.first ++ words_then d.others (pipe_tail ds)) in
    let (l, more) =
      parse_pipe-line d ds fuel (of_kind TokenKind.pipe) rest ws.0 ws.1
        (omega (arith, small, length-append d.first (words_then d.others (pipe_tail ds))))
        (next_word d.first d.others (pipe_tail ds) ws.0.0 (Stops-pipe_tail ds)) in
    (l, rw ran (rw (consume-looked_bar rest, pipe_rest) (rw more)))

-- The text of a pipeline of commands, its words set apart by single spaces and its commands by
-- ` | `, is parsed to the tree of these commands in order, if each word is one: not empty, not begun
-- by a space character or a bar, and without a blank, a bar, a line break or a zero.
pub parse-line :
    (c : Words) (cs : List Words)
    → AreWords c
    → All AreWords cs
    → (l : Lexer) × (parse (lexer (line c cs)) ≡ done (tree c cs, l))
unfolding parse lexer
parse-line c cs w ws =
    let source = line c cs in
    let (l, ran) =
      parse_pipe-line c cs (suc (length source + 0)) (of_kind eof) source w ws
        (omega (arith, length-append c.first (words_then c.others (pipe_tail cs))))
        (first_word c.first c.others (pipe_tail cs) w.0 (Stops-pipe_tail cs)) in
    ((next l).1, rw ran)
