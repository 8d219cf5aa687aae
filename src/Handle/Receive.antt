-- ===== src/Handle/Receive.antt =====
-- Commands with data, of original/protocol.c: `enet_protocol_handle_send_reliable`,
-- `enet_protocol_handle_send_unsequenced` and `enet_protocol_handle_send_unreliable`. The payload is
-- what the datagram holds behind the command.
pub mod Replay
use enet_rs.Prelude.{
  ℕ, ◌+◌, ◌-◌, ◌*◌, ◌%◌, Bool, not, ◌&&◌, ◌||◌, some, List, length, take, replicate, ltb, leb, ◌==◌,
  if◌then◌else◌, bitmap_test, bitmap_set,
}
use enet_rs.Protocol.{Protocol}
use enet_rs.State.{
  Peer, Conn, Status, success, failure, is_connected, unsequenced_window_size,
  free_unsequenced_windows,
}
use enet_rs.Peer.Incoming.{Incoming, Queued, refused, discarded, queued, queue_incoming_command}

-- The guard at the start of the handlers of data.
abbrev pub is_receivable : Protocol → Conn → Bool
is_receivable command c = ltb command.channel_id c.peer.channel_count && is_connected c.peer.state

-- The data of `data_length` bytes does not lie within the datagram, or is too large.
abbrev pub is_oversized : ℕ → List ℕ → Conn → Bool
is_oversized data_length payload c =
    ltb c.host.maximum_packet_size data_length || ltb (length payload) data_length

abbrev pub queued_status : Queued → Status
queued_status refused = failure
queued_status discarded = success
queued_status (queued _) = success

abbrev pub incoming_data : Protocol → List ℕ → ℕ → ℕ → Incoming
incoming_data command payload data_length flags = record {
  command = command;
  contents = some (take data_length payload);
  data_length = data_length;
  flags = flags;
  fragment_count = 0;
}

abbrev pub receive_data : Protocol → List ℕ → ℕ → ℕ → Conn → Conn × Status
receive_data command payload data_length flags c =
    let (c', result) = queue_incoming_command (incoming_data command payload data_length flags) c in
    if not (is_receivable command c) || is_oversized data_length payload c
    then (c, failure)
    else (c', queued_status result)

-- `enet_protocol_handle_send_reliable`.
unfoldable pub handle_send_reliable : Protocol → ℕ → List ℕ → Conn → Conn × Status
handle_send_reliable command data_length payload c = receive_data command payload data_length 1 c

-- `enet_protocol_handle_send_unreliable`.
unfoldable pub handle_send_unreliable : Protocol → ℕ → List ℕ → Conn → Conn × Status
handle_send_unreliable command data_length payload c = receive_data command payload data_length 0 c

-- unsequencedGroup, one round later if it has wrapped.
unfoldable pub unwrap_group : ℕ → ℕ → ℕ
unwrap_group group incoming = if ltb group incoming then group + 0x10000 else group

-- The group lies too far ahead of the window.
unfoldable pub is_group_beyond : ℕ → ℕ → Bool
is_group_beyond group incoming =
    leb (incoming + free_unsequenced_windows * unsequenced_window_size)
      (unwrap_group group incoming)

-- The window moved up to the block of the group, all its bits cleared, unless it is there.
unfoldable pub advance_window : ℕ → Peer → Peer
advance_window group p =
    let base = group - group % unsequenced_window_size in
    if base == p.incoming_unsequenced_group
    then p
    else record p { incoming_unsequenced_group = base; unsequenced_window = replicate 32 0 }

-- The group was received before.
unfoldable pub is_group_seen : ℕ → Peer → Bool
is_group_seen group p =
    group - group % unsequenced_window_size == p.incoming_unsequenced_group
    && bitmap_test p.unsequenced_window (group % unsequenced_window_size)

unfoldable pub mark_group : ℕ → Peer → Peer
mark_group group p = record p {
  unsequenced_window = bitmap_set p.unsequenced_window (group % unsequenced_window_size);
}

-- The group's bit is set if the packet was taken, or silently discarded.
unfoldable pub mark_queued : ℕ → Conn × Queued → Conn × Status
mark_queued group (c, refused) = (c, failure)
mark_queued group (c, discarded) = (record c { peer = mark_group group c.peer }, success)
mark_queued group (c, queued _) = (record c { peer = mark_group group c.peer }, success)

-- `enet_protocol_handle_send_unsequenced`.
unfoldable pub handle_send_unsequenced : Protocol → ℕ → ℕ → List ℕ → Conn → Conn × Status
handle_send_unsequenced command group data_length payload c =
    let advanced : Conn = record c { peer = advance_window group c.peer } in
    let result =
      mark_queued group
        (queue_incoming_command (incoming_data command payload data_length 2) advanced) in
    if not (is_receivable command c) || is_oversized data_length payload c
    then (c, failure)
    else if is_group_beyond group c.peer.incoming_unsequenced_group
    then (c, success)
    else if is_group_seen group c.peer
    then (c, success)
    else result
