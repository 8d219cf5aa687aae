-- ===== src/Host.antt =====
-- The functions of original/host.c on a host as a whole: `enet_host_create`, `enet_host_destroy`,
-- `enet_host_random`, `enet_host_connect`, `enet_host_broadcast`, `enet_host_channel_limit` and
-- `enet_host_bandwidth_limit`. Allocation succeeds, and the socket is the system's.
pub mod Bandwidth
pub mod Fresh
pub mod Handshake
use Prim.Native.Nat.{bit_or, bit_xor}
use enet_rs.Prelude.{
  ℕ, zero, suc, ◌+◌, ◌*◌, ◌/◌, ◌^◌, ◌%◌, Bool, true, false, Option, none, some, List, [], ◌∷◌,
  replicate, length, ltb, ◌==◌, if◌then◌else◌, u32,
}
use enet_rs.Protocol.{
  Protocol, Connect, connect, maximum_peer_id, maximum_channel_count, minimum_channel_count,
  maximum_window_size,
}
use enet_rs.Packet.{get_packet, packet_destroy, Memory}
use enet_rs.State.{
  Address, Peer, Host, Conn, disconnected, connecting, connected, state_is, default_mtu,
  default_maximum_packet_size, default_maximum_waiting_data,
}
use enet_rs.World.{World, zero_peer, get_peer, focus, put_back}
use enet_rs.Peer.Outgoing.{fresh_channel, queue_outgoing_command}
use enet_rs.Peer.Reset.{peer_reset}
use enet_rs.Peer.Send.{peer_send}
use enet_rs.Handle.Control.{clamp_window, scaled_window}

-- A channel limit in the protocol's range; 0 is no limit.
unfoldable pub clamp_channel_limit : ℕ → ℕ
clamp_channel_limit limit =
    if limit == 0
    then maximum_channel_count
    else if ltb maximum_channel_count limit
    then maximum_channel_count
    else if ltb limit minimum_channel_count
    then minimum_channel_count
    else limit

-- `enet_host_channel_limit`.
unfoldable pub host_channel_limit : ℕ → Host → Host
host_channel_limit limit h = record h { channel_limit = clamp_channel_limit limit }

-- `enet_host_bandwidth_limit`.
unfoldable pub host_bandwidth_limit : ℕ → ℕ → Host → Host
host_bandwidth_limit incoming outgoing h = record h {
  incoming_bandwidth = incoming;
  outgoing_bandwidth = outgoing;
  recalculate_bandwidth_limits = true;
}

-- The seed: the host's address and `enet_host_random_seed ()` are taken together, halves swapped.
unfoldable pub mix_seed : ℕ → ℕ
mix_seed seed = bit_or (u32 (u32 seed * 65536)) (u32 seed / 65536)

-- A host whose fields `enet_host_create` has set; the memory of packets is that of the program.
abbrev pub new_host : ℕ → Memory → ℕ → ℕ → ℕ → ℕ → Host
new_host seed m peer_count channel_limit incoming outgoing = record {
  incoming_bandwidth = incoming;
  outgoing_bandwidth = outgoing;
  bandwidth_throttle_epoch = 0;
  mtu = default_mtu;
  random_seed = mix_seed seed;
  recalculate_bandwidth_limits = false;
  peer_count = peer_count;
  channel_limit = clamp_channel_limit channel_limit;
  service_time = 0;
  dispatch_queue = [];
  dispatch_tangled = false;
  total_queued = 0;
  packet_size = 0;
  header_flags = 0;
  commands = [];
  buffers = [];
  has_checksum = false;
  received_address = record { ip = 0; port = 0 };
  total_sent_data = 0;
  total_sent_packets = 0;
  total_received_data = 0;
  total_received_packets = 0;
  connected_peers = 0;
  bandwidth_limited_peers = 0;
  duplicate_peers = maximum_peer_id;
  maximum_packet_size = default_maximum_packet_size;
  maximum_waiting_data = default_maximum_waiting_data;
  memory = m;
}

-- The fields of a peer that are set before it is reset.
abbrev pub prepare_peer : ℕ → Peer → Peer
prepare_peer id p = record p {
  incoming_peer_id = id;
  outgoing_session_id = 0xff;
  incoming_session_id = 0xff;
}

-- The loop over the peers: `left` of them from `id` on.
unfoldable pub prepare_peers : ℕ → ℕ → World → World
prepare_peers zero id w = w
prepare_peers (suc left) id w =
    let c = focus w id in
    prepare_peers left (id + 1)
      (put_back w id (peer_reset (record c { peer = prepare_peer id c.peer })))

-- `enet_host_create`, with a socket that was made and bound; `none` for NULL.
unfoldable pub host_create : ℕ → Memory → ℕ → ℕ → ℕ → ℕ → Option World
host_create seed m peer_count channel_limit incoming outgoing =
    if ltb maximum_peer_id peer_count
    then none
    else some (
        prepare_peers peer_count 0 (record {
          host = new_host seed m peer_count channel_limit incoming outgoing;
          peers = replicate peer_count zero_peer;
        }))

-- The loop of `enet_host_destroy`.
unfoldable pub reset_peers : ℕ → ℕ → World → World
reset_peers zero id w = w
reset_peers (suc left) id w = reset_peers left (id + 1) (put_back w id (peer_reset (focus w id)))

-- What `enet_host_destroy` does before it frees the memory.
unfoldable pub host_destroy : World → World
host_destroy w = reset_peers w.host.peer_count 0 w

-- `enet_host_random`: the number, and the seed after it.
unfoldable pub host_random : ℕ → ℕ × ℕ
host_random seed =
    let n = u32 (seed + 0x6d2b79f5) in
    let a = u32 (bit_xor n (n / 2 ^ 15) * bit_or n 1) in
    let b = bit_xor a (u32 (a + u32 (bit_xor a (a / 2 ^ 7) * bit_or a 61))) in
    (bit_xor b (b / 2 ^ 14), n)

-- The first peer from `place` on that is disconnected.
unfoldable pub find_free : List Peer → ℕ → Option ℕ
find_free [] place = none
find_free (p ∷ ps) place =
    let rest = find_free ps (place + 1) in
    if state_is p.state disconnected then some place else rest

abbrev pub clamp_channels : ℕ → ℕ
clamp_channels n =
    if ltb n minimum_channel_count
    then minimum_channel_count
    else if ltb maximum_channel_count n
    then maximum_channel_count
    else n

unfoldable pub connecting_peer : Address → ℕ → ℕ → Host → Peer → Peer
connecting_peer address channel_count connect_id h p = record p {
  channels = replicate channel_count fresh_channel;
  channel_count = channel_count;
  state = connecting;
  address = address;
  connect_id = connect_id;
  mtu = h.mtu;
  window_size = clamp_window (
      if h.outgoing_bandwidth == 0
      then maximum_window_size
      else scaled_window h.outgoing_bandwidth);
}

-- What the client asks for.
abbrev pub connect_data : ℕ → Host → Peer → Connect
connect_data code h p = record {
  outgoing_peer_id = p.incoming_peer_id;
  incoming_session_id = p.incoming_session_id;
  outgoing_session_id = p.outgoing_session_id;
  mtu = p.mtu;
  window_size = p.window_size;
  channel_count = p.channel_count;
  incoming_bandwidth = h.incoming_bandwidth;
  outgoing_bandwidth = h.outgoing_bandwidth;
  packet_throttle_interval = p.packet_throttle_interval;
  packet_throttle_acceleration = p.packet_throttle_acceleration;
  packet_throttle_deceleration = p.packet_throttle_deceleration;
  connect_id = p.connect_id;
  connect_data = code;
}

-- The CONNECT command.
unfoldable pub connect_command : ℕ → Host → Peer → Protocol
connect_command code h p = record {
  flag_acknowledge = true;
  flag_unsequenced = false;
  channel_id = 0xff;
  reliable_sequence_number = 0;
  body = connect (connect_data code h p);
}

unfoldable pub start_connecting : Address → ℕ → ℕ → Conn → Conn
start_connecting address channel_count code c =
    let (connect_id, seed) = host_random c.host.random_seed in
    let h : Host = record (c.host) { random_seed = seed } in
    let p = connecting_peer address channel_count connect_id h c.peer in
    queue_outgoing_command (connect_command code h p) none 0 0 (record { host = h; peer = p })

abbrev pub connect_at : Address → ℕ → ℕ → World → Option ℕ → World × Option ℕ
connect_at address channel_count code w none = (w, none)
connect_at address channel_count code w (some id) =
    (put_back w id (start_connecting address channel_count code (focus w id)), some id)

-- `enet_host_connect`: the peer, or `none` for NULL.
unfoldable pub host_connect : Address → ℕ → ℕ → World → World × Option ℕ
host_connect address channel_count code w =
    connect_at address (clamp_channels channel_count) code w (find_free w.peers 0)

-- The loop of `enet_host_broadcast`: `left` peers from `id` on.
unfoldable pub send_to_all : ℕ → ℕ → ℕ → ℕ → World → World
send_to_all zero id channel packet w = w
send_to_all (suc left) id channel packet w =
    let sent = put_back w id (peer_send channel packet (focus w id)).0 in
    send_to_all left (id + 1) channel packet
      (if state_is (get_peer w id).state connected then sent else w)

-- `enet_host_broadcast`.
unfoldable pub host_broadcast : ℕ → ℕ → World → World
host_broadcast channel packet w =
    let w' = send_to_all w.host.peer_count 0 channel packet w in
    if (get_packet w'.host.memory packet).reference_count == 0
    then record w' { host = record (w'.host) { memory = packet_destroy packet w'.host.memory } }
    else w'
