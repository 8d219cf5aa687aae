-- ===== src/Transmit/Acknowledgements.antt =====
-- Acknowledgements on their way out, of original/protocol.c: `enet_protocol_send_acknowledgements`.
use enet_rs.Prelude.{
  ℕ, ◌+◌, Bool, true, false, ◌||◌, List, [], ◌∷◌, ◌++◌, length, ltb, leb, if◌then◌else◌, u16,
  size_sub,
}
use enet_rs.Protocol.{Protocol, acknowledge, command_size, maximum_packet_commands, is_disconnect}
use enet_rs.State.{Acknowledgement, of_command, Host, Conn, zombie}
use enet_rs.Handle.Notify.{dispatch_state}

-- ENET_BUFFER_MAXIMUM
abbrev pub buffer_maximum : ℕ
buffer_maximum = 65

-- host -> bufferCount: the header's buffer counts too.
abbrev pub buffer_count : Host → ℕ
buffer_count h = 1 + length h.buffers

-- A command at the end of the datagram, with its buffer.
unfoldable pub add_command : Protocol → Host → Host
add_command m h = record h {
  commands = h.commands ++ (m ∷ []);
  buffers = h.buffers ++ (of_command m ∷ []);
  packet_size = h.packet_size + command_size m.body;
}

-- No room for a further acknowledgement.
unfoldable pub has_no_room : Conn → Bool
has_no_room c =
    leb maximum_packet_commands (length c.host.commands)
    || leb buffer_maximum (buffer_count c.host)
    || ltb (size_sub c.peer.mtu c.host.packet_size) 8

abbrev pub acknowledgement_for : Acknowledgement → Protocol
acknowledgement_for a = record {
  flag_acknowledge = false;
  flag_unsequenced = false;
  channel_id = a.command.channel_id;
  reliable_sequence_number = a.command.reliable_sequence_number;
  body = acknowledge a.command.reliable_sequence_number (u16 a.sent_time);
}

-- One round of the loop. The acknowledgement of a DISCONNECT is the end of the connection.
unfoldable pub send_acknowledgement : Acknowledgement → Conn → Conn
send_acknowledgement a c =
    let c' : Conn = record c { host = add_command (acknowledgement_for a) c.host } in
    if is_disconnect a.command.body then dispatch_state zombie c' else c'

-- The acknowledgements that are left wait for the next datagram.
unfoldable pub stop_acknowledging : List Acknowledgement → Conn → Conn
stop_acknowledging left c = record c {
  peer = record (c.peer) { acknowledgements = left; continue_sending = true };
}

-- The loop over the acknowledgements.
unfoldable pub acknowledge_all : List Acknowledgement → Conn → Conn
acknowledge_all [] c = record c { peer = record (c.peer) { acknowledgements = [] } }
acknowledge_all (a ∷ acks) c =
    let rest = acknowledge_all acks (send_acknowledgement a c) in
    if has_no_room c then stop_acknowledging (a ∷ acks) c else rest

-- `enet_protocol_send_acknowledgements`.
unfoldable pub send_acknowledgements : Conn → Conn
send_acknowledgements c = acknowledge_all c.peer.acknowledgements c
