-- ===== src/Shell.antt =====
-- shell/: from a line of text to tokens, to a syntax tree, to values, to the jobs that are run.
pub mod Lexer
pub mod Parser
pub mod Eval
pub mod LineBuffer
pub mod LineEditor
mod Tests
