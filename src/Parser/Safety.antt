-- ===== src/Parser/Safety.antt =====
-- The state functions of the parser, the invariant and the grammar of events.
pub mod Nodes
pub mod Collections
pub mod Blocks
pub mod Flows
pub mod FlowMappings
pub mod Directives
pub mod Documents
pub mod Machines
