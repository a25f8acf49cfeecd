-- ===== src/Repl.antt =====
-- crates/pr-repl: the line tokenizer and its inverse, the line buffer, and the history.
pub mod Quoting
pub mod Text
pub mod Buffer
pub mod Redaction
pub mod History
