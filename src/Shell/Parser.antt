-- ===== src/Shell/Parser.antt =====
-- shell/parser.{hh,cc} and the tree of shell/ast.hh. The parser prints its diagnostics and goes on,
-- so they are not in the model. `Token::text` on a token that is no identifier fails an assertion.
pub mod Ends
pub mod RoundTrip
use umbongo.Base.{
  ℕ, zero, suc, ◌+◌, List, [], ◌∷◌, Option, none, some, Bool, true, false, if◌then◌else◌, length,
}
use umbongo.Base.Outcome.{Outcome, done, panic, no_fuel, ◌>>=◌}
use umbongo.Shell.Lexer.{Token, TokenKind, eof, identifier, of_kind, same_kind, Lexer, next, peek}
use umbongo.Shell.Lexer.Words.{weight}

mutual
  pub data Node : Type 0 where
    command : Node → Node
    list : Nodes → Node
    pipe : Node → Node → Node
    string_literal : List ℕ → Node

  pub data Nodes : Type 0 where
    nil : Nodes
    cons : Node → Nodes → Nodes

abbrev pub text : Token → Outcome (List ℕ)
text t = if same_kind t.kind identifier then done t.text else panic

unfoldable pub consume : TokenKind → Lexer → Option Token × Lexer
consume kind l =
    let (t, peeked) = peek l in
    let (taken, after) = next peeked in
    if same_kind t.kind kind then (some taken, after) else (none, peeked)

unfoldable pub expect : TokenKind → Lexer → Token × Lexer
expect kind l =
    let (t, after) = next l in if same_kind t.kind kind then (t, after) else (of_kind eof, after)

-- The `while` loop of `parse_list`.
pub identifiers : ℕ → Lexer → Outcome (Nodes × Lexer)
identifiers zero l = no_fuel
identifiers (suc fuel) l =
    let (found, after) = consume identifier l in
    elim found [
      | none ↦ done (nil, after)
      | some t ↦
          text t >>= λ s. identifiers fuel after >>= λ r. done (cons (string_literal s) r.0, r.1)
    ]

pub parse_list : ℕ → Lexer → Outcome (Node × Lexer)
parse_list fuel l =
    let (t, after) = expect identifier l in
    text t >>= λ s. identifiers fuel after >>= λ r. done (list (cons (string_literal s) r.0), r.1)

pub parse_command : ℕ → Lexer → Outcome (Node × Lexer)
parse_command fuel l = parse_list fuel l >>= λ r. done (command r.0, r.1)

-- What `parse_pipe` does behind its first command, by whether there is a bar.
pub pipe_rest :
    (Lexer → Outcome (Node × Lexer)) → Node → Option Token → Lexer → Outcome (Node × Lexer)
pipe_rest parse_rhs lhs none l = done (lhs, l)
pipe_rest parse_rhs lhs (some t) l = parse_rhs l >>= λ rhs. done (pipe lhs rhs.0, rhs.1)

pub parse_pipe : ℕ → Lexer → Outcome (Node × Lexer)
unfolding pipe_rest
parse_pipe zero l = no_fuel
parse_pipe (suc fuel) l = parse_command (suc fuel) l >>= λ lhs.
    let (found, after) = consume TokenKind.pipe lhs.1 in
    pipe_rest (parse_pipe fuel) lhs.0 found after

-- How many tokens are left at most.
abbrev pub size : Lexer → ℕ
size l = length l.source + (if l.peek_ready then weight l.peek_token.kind else 0)

-- `parse`, less the print about a token that is left over.
unfoldable pub parse : Lexer → Outcome (Node × Lexer)
parse l = parse_pipe (suc (size l)) l >>= λ r. done (r.0, (next r.1).1)
