-- ===== src/Etf/Total.antt =====
-- etf/etf.go: `Decode` ends, and its cursor only moves over what it reads.
pub mod Settles
pub mod Methods
pub mod Fuel
