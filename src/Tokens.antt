-- ===== src/Tokens.antt =====
-- Access tokens and the tokens of chat widgets.
pub mod Service
pub mod Roundtrip
mod Tests
