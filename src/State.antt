-- ===== src/State.antt =====
-- The state of original/include/enet/enet.h: queued commands, channels, peers and the host. A
-- `Conn` is one peer with the host that it points to; lists hold their elements front first.
mod Constants
pub use Constants.*
use enet_rs.Prelude.{ℕ, Bool, true, false, Option, List, ◌==◌}
use enet_rs.Protocol.{Protocol}
use enet_rs.Packet.{Memory}

-- `ENetAcknowledgement`.
pub record Acknowledgement : Type 0 where
  pub sent_time : ℕ
  pub command : Protocol

-- `ENetOutgoingCommand`.
pub record OutgoingCommand : Type 0 where
  pub reliable_sequence_number : ℕ
  pub unreliable_sequence_number : ℕ
  pub sent_time : ℕ
  pub round_trip_timeout : ℕ
  pub queue_time : ℕ
  pub fragment_offset : ℕ
  pub fragment_length : ℕ
  pub send_attempts : ℕ
  pub command : Protocol
  pub packet : Option ℕ

-- `ENetIncomingCommand`. Its packet, which no other command has, also serves as its address.
pub record IncomingCommand : Type 0 where
  pub reliable_sequence_number : ℕ
  pub unreliable_sequence_number : ℕ
  pub command : Protocol
  pub fragment_count : ℕ
  pub fragments_remaining : ℕ
  pub fragments : List ℕ
  pub packet : ℕ

-- `ENetPeerState`.
pub data PeerState : Type 0 where
  disconnected connecting acknowledging_connect connection_pending connection_succeeded : PeerState
  connected disconnect_later disconnecting acknowledging_disconnect zombie : PeerState

abbrev pub state_number : PeerState → ℕ
state_number disconnected = 0
state_number connecting = 1
state_number acknowledging_connect = 2
state_number connection_pending = 3
state_number connection_succeeded = 4
state_number connected = 5
state_number disconnect_later = 6
state_number disconnecting = 7
state_number acknowledging_disconnect = 8
state_number zombie = 9

-- peer -> state == s
abbrev pub state_is : PeerState → PeerState → Bool
state_is s t = state_number s == state_number t

-- state == ENET_PEER_STATE_CONNECTED || state == ENET_PEER_STATE_DISCONNECT_LATER
abbrev pub is_connected : PeerState → Bool
is_connected connected = true
is_connected disconnect_later = true
is_connected _ = false

-- `ENetChannel`.
pub record Channel : Type 0 where
  pub outgoing_reliable_sequence_number : ℕ
  pub outgoing_unreliable_sequence_number : ℕ
  pub used_reliable_windows : ℕ
  pub reliable_windows : List ℕ
  pub incoming_reliable_sequence_number : ℕ
  pub incoming_unreliable_sequence_number : ℕ
  pub incoming_reliable_commands : List IncomingCommand
  pub incoming_unreliable_commands : List IncomingCommand

-- `ENetAddress`.
pub record Address : Type 0 where
  pub ip : ℕ
  pub port : ℕ

-- `ENetPeer`. `channelCount` is kept beside the list of the channels, as in the source; the two bits
-- of `flags` are `needs_dispatch` and `continue_sending`.
pub record Peer : Type 0 where
  pub outgoing_peer_id : ℕ
  pub incoming_peer_id : ℕ
  pub connect_id : ℕ
  pub outgoing_session_id : ℕ
  pub incoming_session_id : ℕ
  pub address : Address
  pub state : PeerState
  pub channels : List Channel
  pub channel_count : ℕ
  pub incoming_bandwidth : ℕ
  pub outgoing_bandwidth : ℕ
  pub incoming_bandwidth_throttle_epoch : ℕ
  pub outgoing_bandwidth_throttle_epoch : ℕ
  pub incoming_data_total : ℕ
  pub outgoing_data_total : ℕ
  pub last_send_time : ℕ
  pub last_receive_time : ℕ
  pub next_timeout : ℕ
  pub earliest_timeout : ℕ
  pub packet_loss_epoch : ℕ
  pub packets_sent : ℕ
  pub packets_lost : ℕ
  pub packet_loss : ℕ
  pub packet_loss_variance : ℕ
  pub packet_throttle : ℕ
  pub packet_throttle_limit : ℕ
  pub packet_throttle_counter : ℕ
  pub packet_throttle_epoch : ℕ
  pub packet_throttle_acceleration : ℕ
  pub packet_throttle_deceleration : ℕ
  pub packet_throttle_interval : ℕ
  pub ping_interval : ℕ
  pub timeout_limit : ℕ
  pub timeout_minimum : ℕ
  pub timeout_maximum : ℕ
  pub last_round_trip_time : ℕ
  pub lowest_round_trip_time : ℕ
  pub last_round_trip_time_variance : ℕ
  pub highest_round_trip_time_variance : ℕ
  pub round_trip_time : ℕ
  pub round_trip_time_variance : ℕ
  pub mtu : ℕ
  pub window_size : ℕ
  pub reliable_data_in_transit : ℕ
  pub outgoing_reliable_sequence_number : ℕ
  pub acknowledgements : List Acknowledgement
  pub sent_reliable_commands : List OutgoingCommand
  pub outgoing_send_reliable_commands : List OutgoingCommand
  pub outgoing_commands : List OutgoingCommand
  pub dispatched_commands : List IncomingCommand
  pub needs_dispatch : Bool
  pub continue_sending : Bool
  pub incoming_unsequenced_group : ℕ
  pub outgoing_unsequenced_group : ℕ
  pub unsequenced_window : List ℕ
  pub event_data : ℕ
  pub total_waiting_data : ℕ

-- `ENetBuffer`, behind the one of the header: a command of the datagram that is being put together, or
-- `length` bytes of a packet from an offset on.
pub data Buffer : Type 0 where
  of_command : Protocol → Buffer
  of_packet : (packet offset length : ℕ) → Buffer

-- `ENetHost` without its peers. `dispatch_queue` holds the incoming ids of the peers that
-- can be reached from the start of the queue; `dispatch_tangled` is whether a peer was put into it while
-- it stood in it, after which the links of the nodes are no ring any more. `commands` are the commands
-- of the datagram that is being put together.
pub record Host : Type 0 where
  pub incoming_bandwidth : ℕ
  pub outgoing_bandwidth : ℕ
  pub bandwidth_throttle_epoch : ℕ
  pub mtu : ℕ
  pub random_seed : ℕ
  pub recalculate_bandwidth_limits : Bool
  pub peer_count : ℕ
  pub channel_limit : ℕ
  pub service_time : ℕ
  pub dispatch_queue : List ℕ
  pub dispatch_tangled : Bool
  pub total_queued : ℕ
  pub packet_size : ℕ
  pub header_flags : ℕ
  pub commands : List Protocol
  pub buffers : List Buffer
  pub has_checksum : Bool
  pub received_address : Address
  pub total_sent_data : ℕ
  pub total_sent_packets : ℕ
  pub total_received_data : ℕ
  pub total_received_packets : ℕ
  pub connected_peers : ℕ
  pub bandwidth_limited_peers : ℕ
  pub duplicate_peers : ℕ
  pub maximum_packet_size : ℕ
  pub maximum_waiting_data : ℕ
  pub memory : Memory

-- What a function that returns 0 or -1 returns.
pub data Status : Type 0 where
  success failure : Status

-- A peer, and the host that `peer -> host` points to.
pub record Conn : Type 0 where
  pub host : Host
  pub peer : Peer
