-- ===== src/Etf.antt =====
-- etf/etf.go: the External Term Format codec.
pub mod Term
pub mod Wire
pub mod Cursor
pub mod Decode
pub mod Encode
pub mod RoundTrip
pub mod Total
pub mod Encodable
mod Tests
