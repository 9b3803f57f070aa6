-- ===== src/Toml/Reading.antt =====
-- internal/toml/parser.go: what the parser makes of texts of a given form.
pub mod Strings
pub mod Keys
pub mod Tables
