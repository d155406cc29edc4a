-- ===== src/Semantic.antt =====
-- Semantic tokens, ext/lsp_server_semantic_tokens.c: the tokens of the lexer are classified and written
-- as deltas (Collect), a second reply for a document is one edit of the first (Edits), and the
-- cache by which the server knows what it replied last (Replies).
pub mod Modifiers
pub mod Classify
pub mod Collect
pub mod Edits
pub mod Replies
pub mod Decode
pub mod Range
pub mod Splice
pub mod Session
pub mod Agreement
pub mod Client
mod Tests
