-- ===== src/Handle/Verify.antt =====
-- The client's side of the handshake, of original/protocol.c: `enet_protocol_handle_verify_connect`.
use enet_rs.Prelude.{ℕ, Bool, not, ◌||◌, Option, ltb, ◌==◌, if◌then◌else◌}
use enet_rs.Protocol.{
  VerifyConnect, minimum_channel_count, maximum_channel_count, minimum_mtu, maximum_mtu,
}
use enet_rs.State.{Peer, Conn, failure, connecting, zombie, state_is}
use enet_rs.Handle.Notify.{Event, notify_connect, dispatch_state}
use enet_rs.Handle.Acknowledge.{Handled, handled, remove_sent_reliable_command}
use enet_rs.Handle.Control.{clamp_window}

-- The clamp of an MTU to the protocol's range.
unfoldable pub clamp_mtu : ℕ → ℕ
clamp_mtu m =
    if ltb m minimum_mtu then minimum_mtu else if ltb maximum_mtu m then maximum_mtu else m

-- The MTU of a peer after the other side named one.
abbrev pub lower : ℕ → ℕ → ℕ
lower proposed own = if ltb proposed own then proposed else own

-- The answer does not fit the question.
unfoldable pub is_mismatch : VerifyConnect → Peer → Bool
is_mismatch v p =
    ltb v.channel_count minimum_channel_count
    || ltb maximum_channel_count v.channel_count
    || not (v.packet_throttle_interval == p.packet_throttle_interval)
    || not (v.packet_throttle_acceleration == p.packet_throttle_acceleration)
    || not (v.packet_throttle_deceleration == p.packet_throttle_deceleration)
    || not (v.connect_id == p.connect_id)

-- What the client takes over from the answer.
unfoldable pub adopt : VerifyConnect → Peer → Peer
adopt v p = record p {
  channel_count = lower v.channel_count p.channel_count;
  outgoing_peer_id = v.outgoing_peer_id;
  incoming_session_id = v.incoming_session_id;
  outgoing_session_id = v.outgoing_session_id;
  mtu = lower (clamp_mtu v.mtu) p.mtu;
  window_size = lower (clamp_window v.window_size) p.window_size;
  incoming_bandwidth = v.incoming_bandwidth;
  outgoing_bandwidth = v.outgoing_bandwidth;
}

-- `enet_protocol_handle_verify_connect`.
unfoldable pub handle_verify_connect : Option Event → VerifyConnect → Conn → Handled
handle_verify_connect event v c =
    let (removed, _) = remove_sent_reliable_command 1 0xff c in
    let rejected = dispatch_state zombie (record c { peer = record (c.peer) { event_data = 0 } }) in
    let adopted : Conn = record removed { peer = adopt v removed.peer } in
    if not (state_is c.peer.state connecting)
    then handled (c, event)
    else if is_mismatch v c.peer
    then record { conn = rejected; event = event; status = failure }
    else handled (notify_connect event adopted)
