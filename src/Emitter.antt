-- ===== src/Emitter.antt =====
-- The emitter (original/src/emitter.c).
pub mod Characters
pub mod State
pub mod Write
pub mod Scalars
pub mod Blocks
pub mod Control
pub mod Analyze
pub mod AnalyzeScalar
pub mod Process
pub mod Emit
pub mod Documents
pub mod Queue
pub mod Accumulation
pub mod Styles
pub mod Safety
