-- ===== src/World.antt =====
-- A host with all its peers: `ENetHost` with the array `peers`. A peer's place in the array is its
-- incoming id, which `enet_host_create` gives it.
use enet_rs.Prelude.{ℕ, false, List, [], get_or, set, replicate}
use enet_rs.State.{Peer, Host, Conn, disconnected}

pub record World : Type 0 where
  pub host : Host
  pub peers : List Peer

-- A peer whose memory is all zero.
abbrev pub zero_peer : Peer
zero_peer = record {
  outgoing_peer_id = 0;
  incoming_peer_id = 0;
  connect_id = 0;
  outgoing_session_id = 0;
  incoming_session_id = 0;
  address = record { ip = 0; port = 0 };
  state = disconnected;
  channels = [];
  channel_count = 0;
  incoming_bandwidth = 0;
  outgoing_bandwidth = 0;
  incoming_bandwidth_throttle_epoch = 0;
  outgoing_bandwidth_throttle_epoch = 0;
  incoming_data_total = 0;
  outgoing_data_total = 0;
  last_send_time = 0;
  last_receive_time = 0;
  next_timeout = 0;
  earliest_timeout = 0;
  packet_loss_epoch = 0;
  packets_sent = 0;
  packets_lost = 0;
  packet_loss = 0;
  packet_loss_variance = 0;
  packet_throttle = 0;
  packet_throttle_limit = 0;
  packet_throttle_counter = 0;
  packet_throttle_epoch = 0;
  packet_throttle_acceleration = 0;
  packet_throttle_deceleration = 0;
  packet_throttle_interval = 0;
  ping_interval = 0;
  timeout_limit = 0;
  timeout_minimum = 0;
  timeout_maximum = 0;
  last_round_trip_time = 0;
  lowest_round_trip_time = 0;
  last_round_trip_time_variance = 0;
  highest_round_trip_time_variance = 0;
  round_trip_time = 0;
  round_trip_time_variance = 0;
  mtu = 0;
  window_size = 0;
  reliable_data_in_transit = 0;
  outgoing_reliable_sequence_number = 0;
  acknowledgements = [];
  sent_reliable_commands = [];
  outgoing_send_reliable_commands = [];
  outgoing_commands = [];
  dispatched_commands = [];
  needs_dispatch = false;
  continue_sending = false;
  incoming_unsequenced_group = 0;
  outgoing_unsequenced_group = 0;
  unsequenced_window = replicate 32 0;
  event_data = 0;
  total_waiting_data = 0;
}

-- & host -> peers [id]
abbrev pub get_peer : World → ℕ → Peer
get_peer w id = get_or w.peers id zero_peer

-- The peer at a place, with its host; and the world with the two put back.
abbrev pub focus : World → ℕ → Conn
focus w id = record { host = w.host; peer = get_peer w id }

abbrev pub put_back : World → ℕ → Conn → World
put_back w id c = record { host = c.host; peers = set w.peers id c.peer }
