-- ===== src/Hexsemver.antt =====
-- hexsemver/hexsemver.go: Hex.pm versions, constraints and requirements.
pub mod Version
pub mod Constraint
pub mod Order
pub mod Printed
pub mod Resolve
pub mod Ranges
pub mod Reprint
mod Tests
