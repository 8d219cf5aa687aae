-- ===== src/Peer/Reset.antt =====
-- The end of a peer's life, of original/peer.c: `enet_peer_reset_outgoing_commands`,
-- `enet_peer_reset_incoming_commands`, `enet_peer_reset_queues`, `enet_peer_on_connect`,
-- `enet_peer_on_disconnect` and `enet_peer_reset`.
pub mod Queue
use enet_rs.Prelude.{
  ℕ, ◌+◌, false, none, List, [], ◌∷◌, take, replicate, ◌==◌, if◌then◌else◌, size_sub,
}
use enet_rs.Protocol.{maximum_peer_id, maximum_window_size}
use enet_rs.Packet.{Memory, release_option}
use enet_rs.State.{
  OutgoingCommand, IncomingCommand, Channel, Peer, Host, Conn, disconnected, is_connected,
  default_packet_throttle, packet_throttle_scale, default_throttle_acceleration,
  default_throttle_deceleration, default_throttle_interval, default_ping_interval,
  default_timeout_limit, default_timeout_minimum, default_timeout_maximum, default_round_trip_time,
}
use enet_rs.Peer.Dispatch.{Store, remove_commands}

-- `enet_peer_reset_outgoing_commands`: every command gives up its packet.
unfoldable pub reset_outgoing_commands : List OutgoingCommand → Memory → Memory
reset_outgoing_commands [] m = m
reset_outgoing_commands (o ∷ os) m = reset_outgoing_commands os (release_option o.packet m)

-- `enet_peer_reset_incoming_commands`.
unfoldable pub reset_incoming_commands : List IncomingCommand → Store → Store
reset_incoming_commands is s = (remove_commands none is s).1

-- The loop over the channels.
unfoldable pub reset_channels : List Channel → Store → Store
reset_channels [] s = s
reset_channels (ch ∷ chs) s = reset_channels chs (
    reset_incoming_commands ch.incoming_unreliable_commands
      (reset_incoming_commands ch.incoming_reliable_commands s))

-- enet_list_remove (& peer -> dispatchList): a peer stands in the queue at most once.
unfoldable pub remove_peer : ℕ → List ℕ → List ℕ
remove_peer id [] = []
remove_peer id (x ∷ xs) = if x == id then xs else x ∷ remove_peer id xs

unfoldable pub leave_dispatch_queue : Conn → Conn
leave_dispatch_queue c =
    if c.peer.needs_dispatch
    then record {
      host = record (c.host) {
        dispatch_queue = remove_peer c.peer.incoming_peer_id c.host.dispatch_queue;
      };
      peer = record (c.peer) { needs_dispatch = false };
    }
    else c

-- The packets and the waiting bytes after all queues of the peer were emptied.
unfoldable pub emptied_store : Peer → Memory → Store
emptied_store p m =
    let m₁ = reset_outgoing_commands p.sent_reliable_commands m in
    let m₂ = reset_outgoing_commands p.outgoing_commands m₁ in
    let m₃ = reset_outgoing_commands p.outgoing_send_reliable_commands m₂ in
    reset_channels (take p.channel_count p.channels) (
      reset_incoming_commands p.dispatched_commands
        (record { waiting = p.total_waiting_data; memory = m₃ }))

-- `enet_peer_reset_queues`.
unfoldable pub reset_queues : Conn → Conn
reset_queues c =
    let left = leave_dispatch_queue c in
    let store = emptied_store left.peer left.host.memory in
    record {
      host = record (left.host) { memory = store.memory };
      peer = record (left.peer) {
        acknowledgements = [];
        sent_reliable_commands = [];
        outgoing_commands = [];
        outgoing_send_reliable_commands = [];
        dispatched_commands = [];
        total_waiting_data = store.waiting;
        channels = [];
        channel_count = 0;
      };
    }

-- `enet_peer_on_connect`.
unfoldable pub on_connect : Peer → Host → Host
on_connect p h = if is_connected p.state then h else record h {
  bandwidth_limited_peers =
      if p.incoming_bandwidth == 0
      then h.bandwidth_limited_peers
      else h.bandwidth_limited_peers + 1;
  connected_peers = h.connected_peers + 1;
}

-- `enet_peer_on_disconnect`.
unfoldable pub on_disconnect : Peer → Host → Host
on_disconnect p h =
    if is_connected p.state
    then record h {
      bandwidth_limited_peers =
          if p.incoming_bandwidth == 0
          then h.bandwidth_limited_peers
          else size_sub h.bandwidth_limited_peers 1;
      connected_peers = size_sub h.connected_peers 1;
    }
    else h

-- The assignments of `enet_peer_reset`, without the queues. The last one clears `flags`.
unfoldable pub reset_fields : Host → Peer → Peer
reset_fields h p = record p {
  outgoing_peer_id = maximum_peer_id;
  connect_id = 0;
  state = disconnected;
  incoming_bandwidth = 0;
  outgoing_bandwidth = 0;
  incoming_bandwidth_throttle_epoch = 0;
  outgoing_bandwidth_throttle_epoch = 0;
  incoming_data_total = 0;
  outgoing_data_total = 0;
  last_send_time = 0;
  last_receive_time = 0;
  next_timeout = 0;
  earliest_timeout = 0;
  packet_loss_epoch = 0;
  packets_sent = 0;
  packets_lost = 0;
  packet_loss = 0;
  packet_loss_variance = 0;
  packet_throttle = default_packet_throttle;
  packet_throttle_limit = packet_throttle_scale;
  packet_throttle_counter = 0;
  packet_throttle_epoch = 0;
  packet_throttle_acceleration = default_throttle_acceleration;
  packet_throttle_deceleration = default_throttle_deceleration;
  packet_throttle_interval = default_throttle_interval;
  ping_interval = default_ping_interval;
  timeout_limit = default_timeout_limit;
  timeout_minimum = default_timeout_minimum;
  timeout_maximum = default_timeout_maximum;
  last_round_trip_time = default_round_trip_time;
  lowest_round_trip_time = default_round_trip_time;
  last_round_trip_time_variance = 0;
  highest_round_trip_time_variance = 0;
  round_trip_time = default_round_trip_time;
  round_trip_time_variance = 0;
  mtu = h.mtu;
  reliable_data_in_transit = 0;
  outgoing_reliable_sequence_number = 0;
  window_size = maximum_window_size;
  incoming_unsequenced_group = 0;
  outgoing_unsequenced_group = 0;
  event_data = 0;
  total_waiting_data = 0;
  needs_dispatch = false;
  continue_sending = false;
  unsequenced_window = replicate 32 0;
}

-- `enet_peer_reset`.
unfoldable pub peer_reset : Conn → Conn
peer_reset c = reset_queues (record {
  host = on_disconnect c.peer c.host;
  peer = reset_fields (on_disconnect c.peer c.host) c.peer;
})
