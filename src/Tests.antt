-- ===== src/Tests.antt =====
-- Tests at concrete inputs, and the theorems at inputs that meet their hypotheses.
mod ParserTests
mod ApiTests
mod ReaderTests
mod WriterTests
mod EmitterTests
mod LoaderTests
mod DumperTests
