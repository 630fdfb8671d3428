-- ===== src/Parser.antt =====
-- The parser (original/src/parser.c): from tokens to events.
pub mod State
pub mod Directives
pub mod Node
pub mod Document
pub mod Block
pub mod Flow
pub mod Machine
pub mod Invariant
pub mod Safety
pub mod EmptyKey
