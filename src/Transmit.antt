-- ===== src/Transmit.antt =====
-- The sending half of original/protocol.c. The children follow the file: acknowledgements, timeouts,
-- the commands that go into a datagram, the datagram, and the loop over the peers.
pub mod Acknowledgements
pub mod Timeouts
pub mod Outgoing
pub mod Datagram
pub mod Turn
pub mod Passes
pub mod Disconnect
