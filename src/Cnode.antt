-- ===== src/Cnode.antt =====
-- cnode/cnode.go: a C-node in the Erlang distribution protocol.
pub mod Conn
pub mod Handshake
pub mod Node
pub mod Frames
pub mod Session
pub mod Inverse
pub mod Quiet
pub mod Auth
pub mod Joined
pub mod Panics
pub mod Names
mod Tests
