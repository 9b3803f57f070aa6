-- ===== src/Etf/RoundTrip.antt =====
-- etf/etf.go: what `Encode` wrote `Decode` reads back.
pub mod Fields
pub mod Scalars
pub mod Shape
pub mod Compound
pub mod Terms
pub mod References
