-- ===== src/Tests.antt =====
-- Samples, and the theorems on original/peer.c and original/protocol.c applied to them.
mod Samples
mod Counters
mod Sending
mod Hosts
mod Links
mod Queues
mod Wires
mod Peers
