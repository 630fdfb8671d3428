-- ===== src/Writer.antt =====
-- The writer (original/src/writer.c): from the UTF-8 output buffer to the write handler.
pub mod Recode
pub mod Utf16
pub mod Flush
pub mod Bounds
pub mod Valid
pub mod Texts
pub mod Delivery
