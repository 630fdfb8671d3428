-- ===== src/Types.antt =====
-- The types of original/include/yaml.h that several components share.
pub mod Basics
pub mod Tokens
pub mod Events
