-- ===== src/Peer/Outgoing.antt =====
-- Commands on their way out, of original/peer.c: `enet_peer_setup_outgoing_command`,
-- `enet_peer_queue_outgoing_command`, `enet_peer_queue_acknowledgement` and
-- `enet_peer_has_outgoing_commands`.
use enet_rs.Prelude.{
  ℕ, ◌+◌, ◌-◌, ◌/◌, Bool, true, false, not, ◌&&◌, Option, none, some, [], ◌∷◌, ◌++◌, get_or, modify,
  replicate, is_empty, ltb, leb, ◌==◌, if◌then◌else◌, u16, u32,
}
use enet_rs.Protocol.{Protocol, Body, send_unreliable, send_unsequenced, command_size}
use enet_rs.Packet.{retain}
use enet_rs.State.{
  OutgoingCommand, Channel, Peer, Host, Conn, reliable_windows_count, reliable_window_size,
  free_reliable_windows,
}

-- The channel with all counters at zero and empty queues, as `enet_host_connect` and
-- `enet_protocol_handle_connect` set it up.
abbrev pub fresh_channel : Channel
fresh_channel = record {
  outgoing_reliable_sequence_number = 0;
  outgoing_unreliable_sequence_number = 0;
  used_reliable_windows = 0;
  reliable_windows = replicate reliable_windows_count 0;
  incoming_reliable_sequence_number = 0;
  incoming_unreliable_sequence_number = 0;
  incoming_reliable_commands = [];
  incoming_unreliable_commands = [];
}

-- peer -> channels [id]
abbrev pub get_channel : Peer → ℕ → Channel
get_channel p id = get_or p.channels id fresh_channel

abbrev pub on_channel : Peer → ℕ → (Channel → Channel) → Peer
on_channel p id f = record p { channels = modify p.channels id f }

-- The sequence numbers of a command: of the peer on channel 0xff, or else of its channel.
unfoldable pub assign_numbers : Peer → OutgoingCommand → Peer × OutgoingCommand
assign_numbers p o =
    if id == 0xff
    then on_peer
    else if o.command.flag_acknowledge
    then reliable
    else if o.command.flag_unsequenced
    then unsequenced
    else unreliable
  where
    id : ℕ
    id = o.command.channel_id

    ch : Channel
    ch = get_channel p id

    next : ℕ
    next = u16 (ch.outgoing_reliable_sequence_number + 1)

    next_unreliable : ℕ
    next_unreliable =
        if o.fragment_offset == 0
        then u16 (ch.outgoing_unreliable_sequence_number + 1)
        else ch.outgoing_unreliable_sequence_number

    on_peer : Peer × OutgoingCommand
    on_peer =
        let n = u16 (p.outgoing_reliable_sequence_number + 1) in
        (
          record p { outgoing_reliable_sequence_number = n },
          record o { reliable_sequence_number = n; unreliable_sequence_number = 0 },
        )

    reliable : Peer × OutgoingCommand
    reliable = (
      on_channel p id (λ c. record c {
        outgoing_reliable_sequence_number = next;
        outgoing_unreliable_sequence_number = 0;
      }),
      record o { reliable_sequence_number = next; unreliable_sequence_number = 0 },
    )

    unsequenced : Peer × OutgoingCommand
    unsequenced = (
      record p { outgoing_unsequenced_group = u16 (p.outgoing_unsequenced_group + 1) },
      record o { reliable_sequence_number = 0; unreliable_sequence_number = 0 },
    )

    unreliable : Peer × OutgoingCommand
    unreliable = (
      on_channel p id (λ c. record c { outgoing_unreliable_sequence_number = next_unreliable }),
      record o {
        reliable_sequence_number = ch.outgoing_reliable_sequence_number;
        unreliable_sequence_number = next_unreliable;
      },
    )

-- The switch on the command number that writes a sequence number or a group into the body.
unfoldable pub number_body : ℕ → ℕ → Body → Body
number_body unreliable group (send_unreliable _ data_length) =
    send_unreliable unreliable data_length
number_body unreliable group (send_unsequenced _ data_length) = send_unsequenced group data_length
number_body unreliable group body = body

-- The command as it is queued: numbered, not yet sent, and stamped with its place in the host's order.
unfoldable pub stamp : ℕ → ℕ → OutgoingCommand → OutgoingCommand
stamp group queue_time o = record o {
  send_attempts = 0;
  sent_time = 0;
  round_trip_timeout = 0;
  queue_time = queue_time;
  command = record (o.command) {
    reliable_sequence_number = o.reliable_sequence_number;
    body = number_body o.unreliable_sequence_number group o.command.body;
  };
}

abbrev pub has_packet : Option ℕ → Bool
has_packet none = false
has_packet (some _) = true

-- A reliable command with a packet waits in one queue, all others in the other.
unfoldable pub enqueue : Peer → OutgoingCommand → Peer
enqueue p o =
    if o.command.flag_acknowledge && has_packet o.packet
    then record p {
      outgoing_send_reliable_commands = p.outgoing_send_reliable_commands ++ (o ∷ []);
    }
    else record p { outgoing_commands = p.outgoing_commands ++ (o ∷ []) }

-- `enet_peer_setup_outgoing_command`.
unfoldable pub setup_outgoing_command : OutgoingCommand → Conn → Conn
setup_outgoing_command o c =
    let total =
      u32 (c.peer.outgoing_data_total + command_size o.command.body + o.fragment_length) in
    let (p, o') = assign_numbers (record (c.peer) { outgoing_data_total = total }) o in
    let queued = u32 (c.host.total_queued + 1) in
    record {
      host = record (c.host) { total_queued = queued };
      peer = enqueue p (stamp p.outgoing_unsequenced_group queued o');
    }

abbrev pub retain_option : Option ℕ → Host → Host
retain_option none h = h
retain_option (some k) h = record h { memory = retain 1 k h.memory }

-- `enet_peer_queue_outgoing_command`.
unfoldable pub queue_outgoing_command : Protocol → Option ℕ → ℕ → ℕ → Conn → Conn
queue_outgoing_command command packet offset len c =
    setup_outgoing_command fresh (record c { host = retain_option packet c.host })
  where
    fresh : OutgoingCommand
    fresh = record {
      reliable_sequence_number = 0;
      unreliable_sequence_number = 0;
      sent_time = 0;
      round_trip_timeout = 0;
      queue_time = 0;
      fragment_offset = offset;
      fragment_length = u16 len;
      send_attempts = 0;
      command = command;
      packet = packet;
    }

-- reliableWindow and currentWindow: the window of a number, one round later if the number has
-- wrapped past the channel's.
unfoldable pub window_of : ℕ → ℕ → ℕ
window_of number current =
    number / reliable_window_size + (if ltb number current then reliable_windows_count else 0)

-- A number just ahead of the free windows is not acknowledged.
unfoldable pub is_unacknowledgeable : ℕ → ℕ → Bool
is_unacknowledgeable number current =
    let reliable_window = window_of number current in
    let current_window = current / reliable_window_size in
    leb (current_window + free_reliable_windows - 1) reliable_window
    && leb reliable_window (current_window + free_reliable_windows)

-- `enet_peer_queue_acknowledgement`; the Boolean is whether an acknowledgement is returned.
unfoldable pub queue_acknowledgement : Protocol → ℕ → Peer → Peer × Bool
queue_acknowledgement command sent_time p =
    if ltb id p.channel_count
      && is_unacknowledgeable command.reliable_sequence_number
          (get_channel p id).incoming_reliable_sequence_number
    then (p, false)
    else (
      record p {
        outgoing_data_total = u32 (p.outgoing_data_total + 8);
        acknowledgements =
            p.acknowledgements ++ (record { sent_time = sent_time; command = command } ∷ []);
      },
      true,
    )
  where
    id : ℕ
    id = command.channel_id

-- `enet_peer_has_outgoing_commands`.
unfoldable pub has_outgoing_commands : Peer → Bool
has_outgoing_commands p = not (
    is_empty p.outgoing_commands
    && is_empty p.outgoing_send_reliable_commands
    && is_empty p.sent_reliable_commands)
