-- ===== src/Transmit/Turn.antt =====
-- A turn of one peer, of original/protocol.c: the body of the loops of
-- `enet_protocol_send_outgoing_commands`.
use enet_rs.Prelude.{
  ℕ, ◌+◌, ◌*◌, ◌/◌, Bool, true, false, not, ◌&&◌, Option, none, some, List, [], is_empty, ltb, leb,
  ◌==◌, if◌then◌else◌, u32, size_sub, enet_difference,
}
use enet_rs.Time.{time_greater_equal, time_difference}
use enet_rs.State.{OutgoingCommand, Peer, Conn, packet_loss_interval, packet_loss_scale}
use enet_rs.Peer.Throttle.{peer_ping}
use enet_rs.Handle.Notify.{Event, EventType, no_event}
use enet_rs.Handle.Datagram.{Callbacks}
use enet_rs.Transmit.Acknowledgements.{send_acknowledgements}
use enet_rs.Transmit.Timeouts.{check_timeouts}
use enet_rs.Transmit.Outgoing.{Checked, check_outgoing_commands, remove_sent_unreliable_commands}
use enet_rs.Transmit.Datagram.{Network, socket_send, build_datagram}

-- How a function that serves the host goes on or ends: the loop goes on (0 at its end), 1 or -1.
pub data Outcome : Type 0 where
  going_on reported failed : Outcome

-- What a turn leaves. The list of sent unreliable commands is empty between turns, since a command is
-- put there only with its bytes into the datagram, and is released when the datagram was sent.
pub record Turn : Type 0 where
  pub conn : Conn
  pub event : Option Event
  pub network : Network
  pub outcome : Outcome

-- The datagram has nothing but its header.
unfoldable pub begin_turn : Conn → Conn
begin_turn c = record {
  host = record (c.host) { header_flags = 0; commands = []; buffers = []; packet_size = 4 };
  peer = record (c.peer) { continue_sending = false };
}

unfoldable pub acknowledge_first : Conn → Conn
acknowledge_first c = if is_empty c.peer.acknowledgements then c else send_acknowledgements c

-- The first command in flight is due.
unfoldable pub is_due : Bool → Conn → Bool
is_due check_for_timeouts c =
    check_for_timeouts
    && not (is_empty c.peer.sent_reliable_commands)
    && time_greater_equal c.host.service_time c.peer.next_timeout

unfoldable pub look_for_timeouts : Bool → Option Event → Conn → (Conn × Option Event) × Bool
look_for_timeouts check_for_timeouts event c =
    if is_due check_for_timeouts c then check_timeouts event c else ((c, event), false)

-- event != NULL && event -> type != ENET_EVENT_TYPE_NONE
abbrev pub has_type : EventType → Bool
has_type no_event = false
has_type _ = true

abbrev pub is_filled : Option Event → Bool
is_filled none = false
is_filled (some e) = has_type e.type

unfoldable pub put_outgoing : Conn → Checked
put_outgoing c =
    if is_empty c.peer.outgoing_commands && is_empty c.peer.outgoing_send_reliable_commands
    then record { conn = c; unreliable = []; can_ping = true }
    else check_outgoing_commands [] c

-- The peer has not been heard for a while, and there is room for a ping.
unfoldable pub wants_ping : Checked → Bool
wants_ping k =
    k.can_ping
    && is_empty k.conn.peer.sent_reliable_commands
    && leb k.conn.peer.ping_interval
        (time_difference k.conn.host.service_time k.conn.peer.last_receive_time)
    && leb 4 (size_sub k.conn.peer.mtu k.conn.host.packet_size)

unfoldable pub fill_datagram : Conn → Checked
fill_datagram c =
    let k = put_outgoing c in
    if wants_ping k then check_outgoing_commands k.unreliable (peer_ping k.conn) else k

-- packetLoss and packetLossVariance, every ten seconds.
unfoldable pub average_loss : ℕ → Peer → Peer
average_loss now p =
    let loss = u32 (p.packets_lost * packet_loss_scale) / p.packets_sent in
    record p {
      packet_loss_variance =
          u32 (p.packet_loss_variance * 3 + enet_difference loss p.packet_loss) / 4;
      packet_loss = u32 (p.packet_loss * 7 + loss) / 8;
      packet_loss_epoch = now;
      packets_sent = 0;
      packets_lost = 0;
    }

unfoldable pub measure_loss : ℕ → Peer → Peer
measure_loss now p =
    if p.packet_loss_epoch == 0
    then record p { packet_loss_epoch = now }
    else if leb packet_loss_interval (time_difference now p.packet_loss_epoch)
        && ltb 0 p.packets_sent
    then average_loss now p
    else p

-- The datagram was sent, or not.
abbrev pub after_send : Option Event → Network → Option ℕ → Conn → Turn
after_send event n none c = record { conn = c; event = event; network = n; outcome = failed }
after_send event n (some sent_length) c = record {
  conn = record c {
    host = record (c.host) {
      total_sent_data = u32 (c.host.total_sent_data + sent_length);
      total_sent_packets = u32 (c.host.total_sent_packets + 1);
    };
  };
  event = event;
  network = n;
  outcome = going_on;
}

-- The datagram is built and sent.
unfoldable pub transmit : Callbacks → Option Event → List OutgoingCommand → Network → Conn → Turn
transmit cb event unreliable n c =
    let measured : Conn = record c { peer = measure_loss c.host.service_time c.peer } in
    let (bytes, flags) = build_datagram cb measured in
    let c' : Conn = record {
      host = record (c.host) { header_flags = flags };
      peer = record (measured.peer) { last_send_time = c.host.service_time };
    } in
    let (result, n') = socket_send c.peer.address bytes n in
    after_send event n' result (remove_sent_unreliable_commands unreliable c')

unfoldable pub send_filled : Callbacks → Option Event → Network → Checked → Turn
send_filled cb event n k =
    if is_empty k.conn.host.commands
    then record { conn = k.conn; event = event; network = n; outcome = going_on }
    else transmit cb event k.unreliable n k.conn

abbrev pub after_timeouts : Callbacks → Network → (Conn × Option Event) × Bool → Turn
after_timeouts cb n ((c, event), true) = record {
  conn = c;
  event = event;
  network = n;
  outcome = if is_filled event then reported else going_on;
}
after_timeouts cb n ((c, event), false) = send_filled cb event n (fill_datagram c)

-- The turn of a peer that is connected, or on its way to be or not to be.
unfoldable pub send_turn : Callbacks → Bool → Option Event → Network → Conn → Turn
send_turn cb check_for_timeouts event n c =
    after_timeouts cb n
      (look_for_timeouts check_for_timeouts event (acknowledge_first (begin_turn c)))
