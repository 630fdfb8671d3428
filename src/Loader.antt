-- ===== src/Loader.antt =====
-- The loader (original/src/loader.c): from the events of the parser to a document.
pub mod State
pub mod Compose
pub mod Anchors
pub mod Open
pub mod Composing
pub mod Steps
pub mod Opening
pub mod Adding
