-- ===== src/Peer.antt =====
-- original/peer.c. The children follow the file: commands that go out, sending, incoming queues, the
-- life of a peer, and the throttle.
pub mod Outgoing
pub mod Throttle
pub mod Dispatch
pub mod Incoming
pub mod Reset
pub mod Disconnect
pub mod Send
