-- ===== src/Api.antt =====
-- The API (original/src/api.c).
pub mod Utf8
pub mod Utf8Rounds
pub mod Utf8Exact
pub mod Utf8Characters
pub mod Events
pub mod EventStrings
pub mod EventsWhole
