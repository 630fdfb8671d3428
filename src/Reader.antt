-- ===== src/Reader.antt =====
-- The reader (original/src/reader.c): from the bytes of the input to UTF-8 characters.
pub mod Decode
pub mod Utf8
pub mod Utf8RoundTrip
pub mod Utf8Checks
pub mod Utf8Sound
pub mod Ranges
