-- ===== src/Peer/Disconnect.antt =====
-- Disconnecting, of original/peer.c, as far as it concerns the peer and its host alone. The functions
-- as a whole, with their `enet_host_flush`, are in Transmit/Disconnect.
use enet_rs.Prelude.{ℕ, Bool, true, false, not, none}
use enet_rs.Protocol.{Protocol, disconnect}
use enet_rs.State.{PeerState, Conn, disconnected, disconnecting, acknowledging_disconnect, zombie}
use enet_rs.Peer.Outgoing.{queue_outgoing_command}
use enet_rs.Peer.Reset.{reset_queues, on_disconnect}

-- A DISCONNECT command; it wants an acknowledgement or is unsequenced.
abbrev pub disconnect_command : Bool → ℕ → Protocol
disconnect_command wants_acknowledgement code = record {
  flag_acknowledge = wants_acknowledgement;
  flag_unsequenced = not wants_acknowledgement;
  channel_id = 0xff;
  reliable_sequence_number = 0;
  body = disconnect code;
}

-- The queues are emptied, and a DISCONNECT is put into them.
unfoldable pub tell_leaving : Bool → ℕ → Conn → Conn
tell_leaving wants_acknowledgement code c =
    queue_outgoing_command (disconnect_command wants_acknowledgement code) none 0 0 (reset_queues c)

-- The states in which `enet_peer_disconnect` does nothing.
abbrev pub is_leaving : PeerState → Bool
is_leaving disconnected = true
is_leaving disconnecting = true
is_leaving acknowledging_disconnect = true
is_leaving zombie = true
is_leaving _ = false

-- `enet_peer_disconnect` of a connected peer.
unfoldable pub disconnect_connected : ℕ → Conn → Conn
disconnect_connected code c =
    let told = tell_leaving true code c in
    record {
      host = on_disconnect told.peer told.host;
      peer = record (told.peer) { state = disconnecting };
    }
