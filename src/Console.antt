-- ===== src/Console.antt =====
-- servers/console: the terminals of the console server, the parser of escape sequences, and the
-- loop of `main` that feeds them what programs write.
pub mod Terminal
pub mod EscapeParser
pub mod Feed
pub mod Shown
pub mod Follow
