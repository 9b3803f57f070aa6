-- ===== src/Toml/Finish.antt =====
-- internal/toml/parser.go: the fuel of the parser is enough.
pub mod Consumes
pub mod Values
pub mod Loops
pub mod Document
