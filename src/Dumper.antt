-- ===== src/Dumper.antt =====
-- The dumper (original/src/dumper.c): from a document to the events that the emitter takes.
pub mod Anchors
pub mod Dump
pub mod Entries
pub mod Visits
pub mod Ready
pub mod Locks
pub mod Nodes
pub mod Walks
pub mod Rooted
pub mod Safety
