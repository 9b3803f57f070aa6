-- ===== src/Toml.antt =====
-- internal/toml: the reader of a subset of TOML.
pub mod Values
pub mod Scan
pub mod Strings
pub mod Numbers
pub mod Parse
pub mod Document
pub mod Decoder
pub mod Reading
pub mod Finish
mod Tests
