-- ===== src/Handle/Connect.antt =====
-- The server's side of the handshake, of original/protocol.c: `enet_protocol_handle_connect`.
pub mod Bounds
use enet_rs.Prelude.{
  ℕ, ◌+◌, ◌%◌, Bool, true, false, not, ◌&&◌, ◌||◌, Option, none, some, List, [], ◌∷◌, replicate,
  ltb, leb, ◌==◌, if◌then◌else◌,
}
use enet_rs.Protocol.{
  Protocol, Connect, VerifyConnect, verify_connect, minimum_channel_count, maximum_channel_count,
  maximum_window_size,
}
use enet_rs.State.{Peer, Host, disconnected, connecting, acknowledging_connect, state_is}
use enet_rs.Peer.Outgoing.{fresh_channel, queue_outgoing_command}
use enet_rs.Handle.Control.{clamp_window, scaled_window, negotiate_window}
use enet_rs.Handle.Verify.{clamp_mtu, lower}
use enet_rs.World.{World, focus, put_back}

-- What the loop over the peers finds: the same connection, or the first free peer with the number of
-- peers that come from the address.
pub data Scan : Type 0 where
  same_connection : Scan
  candidates : Option ℕ → ℕ → Scan

-- The peer is not free, not on its way out to another host, and its address is that of the datagram.
abbrev pub is_duplicate : Host → Peer → Bool
is_duplicate h p = not (state_is p.state connecting) && (p.address.ip == h.received_address.ip)

abbrev pub is_same : Host → ℕ → Peer → Bool
is_same h connect_id p = p.address.port == h.received_address.port && p.connect_id == connect_id

abbrev pub first_of : Option ℕ → ℕ → Option ℕ
first_of none place = some place
first_of (some k) place = some k

-- The loop over the peers from `place` on.
unfoldable pub scan_peers : Host → ℕ → List Peer → ℕ → Option ℕ → ℕ → Scan
scan_peers h connect_id [] place free duplicates = candidates free duplicates
scan_peers h connect_id (p ∷ ps) place free duplicates =
    let is_free = state_is p.state disconnected in
    let is_counted = not is_free && is_duplicate h p in
    let rest =
      scan_peers h connect_id ps (place + 1) (if is_free then first_of free place else free)
        (if is_counted then duplicates + 1 else duplicates) in
    if is_counted && is_same h connect_id p then same_connection else rest

-- A session id of two bits for one side: not the one that the peer had before.
unfoldable pub next_session : ℕ → ℕ → ℕ
next_session proposed own =
    let first = ((if proposed == 0xff then own else proposed) + 1) % 4 in
    if first == own then (first + 1) % 4 else first

-- windowSize as the server answers it.
unfoldable pub answer_window : ℕ → ℕ → ℕ
answer_window incoming_bandwidth proposed = clamp_window (
    lower proposed
      (if incoming_bandwidth == 0 then maximum_window_size else scaled_window incoming_bandwidth))

-- The peer that is set up for the connection, over `channel_count` channels.
unfoldable pub set_up_peer : Host → Connect → ℕ → Peer → Peer
set_up_peer h k channel_count p = record p {
  channels = replicate channel_count fresh_channel;
  channel_count = channel_count;
  state = acknowledging_connect;
  connect_id = k.connect_id;
  address = h.received_address;
  mtu = lower (clamp_mtu k.mtu) h.mtu;
  outgoing_peer_id = k.outgoing_peer_id;
  incoming_bandwidth = k.incoming_bandwidth;
  outgoing_bandwidth = k.outgoing_bandwidth;
  packet_throttle_interval = k.packet_throttle_interval;
  packet_throttle_acceleration = k.packet_throttle_acceleration;
  packet_throttle_deceleration = k.packet_throttle_deceleration;
  event_data = k.connect_data;
  outgoing_session_id = next_session k.incoming_session_id p.outgoing_session_id;
  incoming_session_id = next_session k.outgoing_session_id p.incoming_session_id;
  window_size = negotiate_window k.incoming_bandwidth h.outgoing_bandwidth;
}

-- What the server answers; the session ids are those of the peer, crosswise.
abbrev pub verify_data : Host → Connect → Peer → VerifyConnect
verify_data h k p = record {
  outgoing_peer_id = p.incoming_peer_id;
  incoming_session_id = p.outgoing_session_id;
  outgoing_session_id = p.incoming_session_id;
  mtu = p.mtu;
  window_size = answer_window h.incoming_bandwidth k.window_size;
  channel_count = p.channel_count;
  incoming_bandwidth = h.incoming_bandwidth;
  outgoing_bandwidth = h.outgoing_bandwidth;
  packet_throttle_interval = p.packet_throttle_interval;
  packet_throttle_acceleration = p.packet_throttle_acceleration;
  packet_throttle_deceleration = p.packet_throttle_deceleration;
  connect_id = p.connect_id;
}

-- The VERIFY_CONNECT command.
unfoldable pub verify_command : Host → Connect → Peer → Protocol
verify_command h k p = record {
  flag_acknowledge = true;
  flag_unsequenced = false;
  channel_id = 0xff;
  reliable_sequence_number = 0;
  body = verify_connect (verify_data h k p);
}

-- A free peer is set up, and the answer is queued.
unfoldable pub open_connection : Connect → ℕ → World → World
open_connection k place w =
    let c = focus w place in
    let p = set_up_peer c.host k (lower c.host.channel_limit k.channel_count) c.peer in
    put_back w place
      (queue_outgoing_command (verify_command c.host k p) none 0 0 (record c { peer = p }))

abbrev pub accept_candidate : Connect → Scan → World → World × Option ℕ
accept_candidate k same_connection w = (w, none)
accept_candidate k (candidates none duplicates) w = (w, none)
accept_candidate k (candidates (some place) duplicates) w =
    if leb w.host.duplicate_peers duplicates
    then (w, none)
    else (open_connection k place w, some place)

-- `enet_protocol_handle_connect`: the peer, or `none` for NULL.
unfoldable pub handle_connect : Connect → World → World × Option ℕ
handle_connect k w =
    if ltb k.channel_count minimum_channel_count || ltb maximum_channel_count k.channel_count
    then (w, none)
    else accept_candidate k (scan_peers w.host k.connect_id w.peers 0 none 0) w
