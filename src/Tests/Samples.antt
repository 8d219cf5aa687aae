-- ===== src/Tests/Samples.antt =====
-- A host, a peer, a world and datagrams to try the model of original/peer.c and
-- original/protocol.c on.
use enet_rs.Prelude.{ℕ, false, none, List, [], ◌∷◌}
use enet_rs.Protocol.{Protocol, Body, bandwidth_limit}
use enet_rs.Wire.{encode}
use enet_rs.State.{Peer, Host, Conn, connected}
use enet_rs.World.{World, zero_peer}
use enet_rs.Peer.Outgoing.{fresh_channel}
use enet_rs.Handle.Datagram.{Callbacks}

abbrev pub some_host : Host
some_host = record {
  incoming_bandwidth = 0;
  outgoing_bandwidth = 0;
  bandwidth_throttle_epoch = 0;
  mtu = 1392;
  random_seed = 7;
  recalculate_bandwidth_limits = false;
  peer_count = 2;
  channel_limit = 255;
  service_time = 5000;
  dispatch_queue = [];
  dispatch_tangled = false;
  total_queued = 0;
  packet_size = 0;
  header_flags = 0;
  commands = [];
  buffers = [];
  has_checksum = false;
  received_address = record { ip = 1; port = 2 };
  total_sent_data = 0;
  total_sent_packets = 0;
  total_received_data = 0;
  total_received_packets = 0;
  connected_peers = 1;
  bandwidth_limited_peers = 0;
  duplicate_peers = 4095;
  maximum_packet_size = 1000;
  maximum_waiting_data = 1000;
  memory = record { packets = []; fresh_byte = 0 };
}

-- A connected peer with one channel.
abbrev pub some_peer : Peer
some_peer = record zero_peer {
  state = connected;
  address = record { ip = 1; port = 2 };
  channels = fresh_channel ∷ [];
  channel_count = 1;
  packet_throttle = 20;
  packet_throttle_limit = 32;
  packet_throttle_acceleration = 2;
  packet_throttle_deceleration = 2;
  last_round_trip_time = 500;
  last_round_trip_time_variance = 10;
}

abbrev pub some_world : World
some_world = record { host = some_host; peers = some_peer ∷ zero_peer ∷ [] }

abbrev pub some_conn : Conn
some_conn = record { host = some_host; peer = some_peer }

abbrev pub free_conn : Conn
free_conn = record { host = some_host; peer = zero_peer }

-- A command without a request for an acknowledgement, on channel 0.
abbrev pub command_of : ℕ → Body → Protocol
command_of number body = record {
  flag_acknowledge = false;
  flag_unsequenced = false;
  channel_id = 0;
  reliable_sequence_number = number;
  body = body;
}

-- The datagram of peer 0 with BANDWIDTH_LIMIT, which makes it a limited peer.
abbrev pub limit_datagram : List ℕ
limit_datagram = 0 ∷ 0 ∷ encode (command_of 1 (bandwidth_limit 1000 2000)) []

abbrev pub no_callbacks : Callbacks
no_callbacks = record { compress = none; decompress = none; checksum = none }
