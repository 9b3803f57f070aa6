-- ===== src/Typemap.antt =====
-- typemap and errors: the translation of Erlang's types, and the reasons for leaving items out.
pub mod Reasons
pub mod Types
pub mod Names
pub mod Translate
pub mod Sizes
pub mod Finish
pub mod Unions
mod Tests
