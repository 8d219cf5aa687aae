-- ===== src/Handle/Control.antt =====
-- Commands without data, of original/protocol.c: `enet_protocol_handle_ping`,
-- `enet_protocol_handle_bandwidth_limit`, `enet_protocol_handle_throttle_configure` and
-- `enet_protocol_handle_disconnect`.
use enet_rs.Prelude.{
  ℕ, ◌+◌, ◌*◌, ◌/◌, Bool, ◌&&◌, ◌||◌, ltb, ◌==◌, if◌then◌else◌, enet_max, enet_min, size_sub,
}
use enet_rs.Protocol.{minimum_window_size, maximum_window_size}
use enet_rs.State.{
  Conn, Status, success, failure, disconnected, connecting, connection_pending,
  connection_succeeded, disconnecting, acknowledging_disconnect, zombie, is_connected, state_is,
  window_size_scale,
}
use enet_rs.Peer.Reset.{reset_queues, peer_reset}
use enet_rs.Handle.Notify.{change_state, dispatch_state, recalculate_if}

-- The clamp of a window size to the protocol's range.
unfoldable pub clamp_window : ℕ → ℕ
clamp_window w =
    if ltb w minimum_window_size
    then minimum_window_size
    else if ltb maximum_window_size w
    then maximum_window_size
    else w

-- The window that a bandwidth allows.
abbrev pub scaled_window : ℕ → ℕ
scaled_window bandwidth = (bandwidth / window_size_scale) * minimum_window_size

-- The window size for the peer's incoming and the host's outgoing bandwidth, 0 for no limit.
unfoldable pub negotiate_window : ℕ → ℕ → ℕ
negotiate_window incoming outgoing = clamp_window (
    if incoming == 0 && outgoing == 0
    then maximum_window_size
    else if incoming == 0 || outgoing == 0
    then scaled_window (enet_max incoming outgoing)
    else scaled_window (enet_min incoming outgoing))

-- `enet_protocol_handle_ping`.
unfoldable pub handle_ping : Conn → Conn × Status
handle_ping c = if is_connected c.peer.state then (c, success) else (c, failure)

-- `enet_protocol_handle_bandwidth_limit`.
unfoldable pub handle_bandwidth_limit : ℕ → ℕ → Conn → Conn × Status
handle_bandwidth_limit incoming outgoing c =
    if is_connected c.peer.state then (limited, success) else (c, failure)
  where
    removed : ℕ
    removed =
        if c.peer.incoming_bandwidth == 0
        then c.host.bandwidth_limited_peers
        else size_sub c.host.bandwidth_limited_peers 1

    limited : Conn
    limited = record {
      host = record (c.host) {
        bandwidth_limited_peers = if incoming == 0 then removed else removed + 1;
      };
      peer = record (c.peer) {
        incoming_bandwidth = incoming;
        outgoing_bandwidth = outgoing;
        window_size = negotiate_window incoming c.host.outgoing_bandwidth;
      };
    }

-- `enet_protocol_handle_throttle_configure`.
unfoldable pub handle_throttle_configure : ℕ → ℕ → ℕ → Conn → Conn × Status
handle_throttle_configure interval acceleration deceleration c =
    if is_connected c.peer.state then (configured, success) else (c, failure)
  where
    configured : Conn
    configured = record c {
      peer = record (c.peer) {
        packet_throttle_interval = interval;
        packet_throttle_acceleration = acceleration;
        packet_throttle_deceleration = deceleration;
      };
    }

-- What follows from a DISCONNECT in each state, once the queues are empty.
unfoldable pub leave : Bool → Conn → Conn
leave wants_acknowledgement c =
    if state_is c.peer.state connection_succeeded
      || state_is c.peer.state disconnecting
      || state_is c.peer.state connecting
    then dispatch_state zombie c
    else if is_connected c.peer.state
    then (if wants_acknowledgement
        then change_state acknowledging_disconnect c
        else dispatch_state zombie c)
    else peer_reset (recalculate_if (state_is c.peer.state connection_pending) c)

-- `enet_protocol_handle_disconnect`.
unfoldable pub handle_disconnect : Bool → ℕ → Conn → Conn × Status
handle_disconnect wants_acknowledgement code c =
    let left = leave wants_acknowledgement (reset_queues c) in
    let told : Conn = record left { peer = record (left.peer) { event_data = code } } in
    if state_is c.peer.state disconnected
      || state_is c.peer.state zombie
      || state_is c.peer.state acknowledging_disconnect
    then (c, success)
    else if state_is left.peer.state disconnected
    then (left, success)
    else (told, success)
