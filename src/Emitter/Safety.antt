-- ===== src/Emitter/Safety.antt =====
-- What the emitter (original/src/emitter.c) never does.
pub mod Strings
pub mod Ends
pub mod Recoding
pub mod Output
pub mod Writes
pub mod Columns
pub mod Tags
pub mod Scalars
pub mod Blocks
pub mod Places
pub mod Control
pub mod Stacks
pub mod Nodes
pub mod NodePlaces
pub mod Items
pub mod Collections
pub mod Directives
pub mod Documents
pub mod Analyzes
pub mod Analysis
pub mod Stream
pub mod Queue
pub mod Machine
