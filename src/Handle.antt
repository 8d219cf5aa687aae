-- ===== src/Handle.antt =====
-- The receiving half of original/protocol.c: what a host does with the commands of a datagram. The
-- children follow the file.
pub mod Notify
pub mod Acknowledge
pub mod Connect
pub mod Verify
pub mod Receive
pub mod Fragments
pub mod Control
pub mod Commands
pub mod Datagram
pub mod Guards
