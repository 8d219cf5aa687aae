-- ===== src/Lib.antt =====
-- A verification of the ENet protocol library in C, the code under original/ that the crate enet_rs
-- ports and is tested against: both halves of the protocol, the queues and the life of a peer, the
-- service of a host, and the functions on hosts.
--
-- Parts, and how they interact. A datagram goes through the checks of its header to the loop over its
-- commands; each command goes to its handler, which works on one peer and on the host that the peer
-- points to. Commands with data go on to the peer's channel, where they are queued by sequence number
-- and delivered in order; delivery puts the peer into the host's dispatch queue. Handlers answer by
-- queueing outgoing commands and acknowledgements. The sending half gives each peer a turn: waiting
-- acknowledgements, late commands and queued commands fill a datagram, which goes to the network; there
-- are passes over the peers until none has more to send. The service of a host shares out the bandwidth,
-- sends, receives, sends again, and takes an event for the user from the peers in the dispatch queue.
--
-- Files, in the order of use:
--  Prelude: library names, Boolean tests, lists and bits over the native numbers, words modulo 2 ^ w.
--  Protocol, Wire: original/include/enet/protocol.h; the sizes of commands and their bytes.
--  Time: original/include/enet/time.h.
--  Packet: original/packet.c and the reference counts that the other files keep; Crc (enet_crc32).
--  State, World: the structures of original/include/enet/enet.h; a peer with its host, all peers.
--  Links: the nodes of original/list.c and of original/include/enet/list.h.
--  Peer: original/peer.c. Outgoing (enet_peer_setup_outgoing_command and its callers), Send
--   (enet_peer_send), Incoming (enet_peer_queue_incoming_command), Dispatch (delivery, and
--   enet_peer_receive), Reset, Disconnect (its parts on one peer), Throttle.
--  Handle: original/protocol.c. Notify (changes of state and events), Acknowledge, Connect, Verify,
--   Receive (data), Fragments, Control (pings, settings, disconnects), Commands (the switch and the
--   loop), Datagram (the header); Guards.
--  Transmit: the sending half of original/protocol.c. Acknowledgements, Timeouts, Outgoing (the commands
--   of a datagram), Datagram (its bytes), Turn (one peer), Passes (all peers, enet_host_flush),
--   Disconnect (the disconnects of original/peer.c, which flush).
--  Events, Service: the events for the user, and enet_host_service, of original/protocol.c.
--  Host: original/host.c; Bandwidth (enet_host_bandwidth_throttle), Fresh (the peers
--   of a new host), Handshake.
--  Standing: what the functions do to the host's counters of peers.
--  Tests: samples, and the theorems applied to them.
--
-- How the state corresponds. A pointer to a packet is its place in a list of all packets ever created;
-- a freed packet is marked. A queued incoming command is known by its packet, which no other command
-- has. Linked lists are lists, front first; an iterator is a place in the list; Links has the
-- nodes themselves. The buffers of a datagram are its commands and parts of packets. A peer's place in the
-- host's array is its incoming id. Integers are natural numbers, with the wrap of 16 and 32 bits written
-- out where the source can wrap; commands are in host byte order once they are decoded. A function that
-- returns 0 or -1 returns a status, and a NULL event is no event.
--
-- Fuel: the loop over the commands of a datagram has as much as the datagram has bytes, the loop over the
-- fragments of a packet as the fragment count, the loop over queued commands as there are commands, and
-- the loops of the bandwidth throttle one more than there are peers; each round takes a byte, makes a
-- fragment, takes a command, or settles a peer. The passes over the peers, and the two loops of the
-- service, which wait for the network and the clock, end only as these allow: their fuel is an argument,
-- and what is stated of them holds for every amount.
--
-- Arguments of the model: the compressor, the checksum and the intercept callback, which are the user's;
-- and the clock, the arriving datagrams, and what a send and a wait return, which are the system's.
--
-- The dispatch queue is the sequence of peers that can be reached from its start. A peer that is inserted
-- while it stands in the queue breaks the ring of the links, which the host then notes; what becomes of
-- the links after that is not followed.
--
-- Not modelled: allocation failure (the default callback aborts), the user's callbacks on freed packets,
-- sockets (original/unix.c, original/win32.c), original/compress.c, enet_host_compress, and the Rust
-- crate itself, which is tested against this code.
pub mod Prelude
pub mod Protocol
pub mod Wire
pub mod Time
pub mod Packet
pub mod State
pub mod World
pub mod Links
pub mod Peer
pub mod Handle
pub mod Transmit
pub mod Events
pub mod Host
pub mod Service
pub mod Standing
pub mod Tests
