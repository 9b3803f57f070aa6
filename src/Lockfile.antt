-- ===== src/Lockfile.antt =====
-- lockfile: the `[[erlang-package]]` entries of mochi.lock.
pub mod Entry
pub mod Render
pub mod Read
pub mod Check
pub mod Members
pub mod Lines
pub mod Steps
pub mod Normal
pub mod Trees
pub mod RoundTrip
pub mod Order
pub mod Sorting
pub mod Sums
mod Tests
