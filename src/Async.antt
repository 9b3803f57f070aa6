-- ===== src/Async.antt =====
-- async: process operations over the port.
pub mod Mailbox
pub mod Sound
pub mod Closing
pub mod Nearing
pub mod Ending
pub mod Process
pub mod Down
pub mod Accepts
mod Tests
