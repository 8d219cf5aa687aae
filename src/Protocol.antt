-- ===== src/Protocol.antt =====
-- The wire protocol: original/include/enet/protocol.h, and the table of command sizes of
-- original/protocol.c. A command is its header's fields and a body, whose constructor is the command
-- number of `ENetProtocolCommand`; integers are in host byte order.
use enet_rs.Prelude.{ℕ, ◌+◌, Bool, true, false, if◌then◌else◌}

abbrev pub minimum_mtu : ℕ
minimum_mtu = 576

abbrev pub maximum_mtu : ℕ
maximum_mtu = 4096

abbrev pub maximum_packet_commands : ℕ
maximum_packet_commands = 32

abbrev pub minimum_window_size : ℕ
minimum_window_size = 4096

abbrev pub maximum_window_size : ℕ
maximum_window_size = 65536

abbrev pub minimum_channel_count : ℕ
minimum_channel_count = 1

abbrev pub maximum_channel_count : ℕ
maximum_channel_count = 255

abbrev pub maximum_peer_id : ℕ
maximum_peer_id = 0xfff

abbrev pub maximum_fragment_count : ℕ
maximum_fragment_count = 1048576

-- `ENetProtocolConnect` behind its header.
pub record Connect : Type 0 where
  pub outgoing_peer_id : ℕ
  pub incoming_session_id : ℕ
  pub outgoing_session_id : ℕ
  pub mtu : ℕ
  pub window_size : ℕ
  pub channel_count : ℕ
  pub incoming_bandwidth : ℕ
  pub outgoing_bandwidth : ℕ
  pub packet_throttle_interval : ℕ
  pub packet_throttle_acceleration : ℕ
  pub packet_throttle_deceleration : ℕ
  pub connect_id : ℕ
  pub connect_data : ℕ

-- `ENetProtocolVerifyConnect` behind its header.
pub record VerifyConnect : Type 0 where
  pub outgoing_peer_id : ℕ
  pub incoming_session_id : ℕ
  pub outgoing_session_id : ℕ
  pub mtu : ℕ
  pub window_size : ℕ
  pub channel_count : ℕ
  pub incoming_bandwidth : ℕ
  pub outgoing_bandwidth : ℕ
  pub packet_throttle_interval : ℕ
  pub packet_throttle_acceleration : ℕ
  pub packet_throttle_deceleration : ℕ
  pub connect_id : ℕ

-- `ENetProtocolSendFragment` behind its header.
pub record Fragment : Type 0 where
  pub start_sequence_number : ℕ
  pub data_length : ℕ
  pub fragment_count : ℕ
  pub fragment_number : ℕ
  pub total_length : ℕ
  pub fragment_offset : ℕ

-- The union `ENetProtocol` behind the common header. The numbers of `acknowledge` are the received
-- sequence number and the received sent time; those of `send_unreliable` and `send_unsequenced` are
-- the sequence number or group and the data length.
pub data Body : Type 0 where
  acknowledge : ℕ → ℕ → Body
  connect : Connect → Body
  verify_connect : VerifyConnect → Body
  disconnect : ℕ → Body
  ping : Body
  send_reliable : ℕ → Body
  send_unreliable : ℕ → ℕ → Body
  send_fragment : Fragment → Body
  send_unsequenced : ℕ → ℕ → Body
  bandwidth_limit : ℕ → ℕ → Body
  throttle_configure : ℕ → ℕ → ℕ → Body
  send_unreliable_fragment : Fragment → Body

-- `ENetProtocol`. The two flags are the bits ENET_PROTOCOL_COMMAND_FLAG_ACKNOWLEDGE and
-- ENET_PROTOCOL_COMMAND_FLAG_UNSEQUENCED of `header.command`.
pub record Protocol : Type 0 where
  pub flag_acknowledge : Bool
  pub flag_unsequenced : Bool
  pub channel_id : ℕ
  pub reliable_sequence_number : ℕ
  pub body : Body

-- The low four bits of `header.command`: `enum _ENetProtocolCommand`.
unfoldable pub command_number : Body → ℕ
command_number (acknowledge _ _) = 1
command_number (connect _) = 2
command_number (verify_connect _) = 3
command_number (disconnect _) = 4
command_number ping = 5
command_number (send_reliable _) = 6
command_number (send_unreliable _ _) = 7
command_number (send_fragment _) = 8
command_number (send_unsequenced _ _) = 9
command_number (bandwidth_limit _ _) = 10
command_number (throttle_configure _ _ _) = 11
command_number (send_unreliable_fragment _) = 12

abbrev pub command_none : ℕ
command_none = 0

-- `header.command`.
unfoldable pub command_byte : Protocol → ℕ
command_byte c =
    command_number c.body
    + (if c.flag_unsequenced then 64 else 0)
    + (if c.flag_acknowledge then 128 else 0)

-- `commandSizes`, by the sizes of the packed structures.
unfoldable pub command_size : Body → ℕ
command_size (acknowledge _ _) = 8
command_size (connect _) = 48
command_size (verify_connect _) = 44
command_size (disconnect _) = 8
command_size ping = 4
command_size (send_reliable _) = 6
command_size (send_unreliable _ _) = 8
command_size (send_fragment _) = 24
command_size (send_unsequenced _ _) = 8
command_size (bandwidth_limit _ _) = 12
command_size (throttle_configure _ _ _) = 16
command_size (send_unreliable_fragment _) = 24

abbrev pub is_send_unsequenced : Body → Bool
is_send_unsequenced (send_unsequenced _ _) = true
is_send_unsequenced _ = false

abbrev pub is_send_fragment : Body → Bool
is_send_fragment (send_fragment _) = true
is_send_fragment _ = false

abbrev pub is_send_unreliable_fragment : Body → Bool
is_send_unreliable_fragment (send_unreliable_fragment _) = true
is_send_unreliable_fragment _ = false

abbrev pub is_disconnect : Body → Bool
is_disconnect (disconnect _) = true
is_disconnect _ = false
