-- ===== src/Handle/Fragments.antt =====
-- Fragments, of original/protocol.c: `enet_protocol_handle_send_fragment` and
-- `enet_protocol_handle_send_unreliable_fragment`.
use enet_rs.Prelude.{
  ℕ, ◌+◌, ◌-◌, Bool, not, ◌&&◌, ◌||◌, none, List, [], ◌∷◌, length, take, ltb, leb, ◌==◌,
  if◌then◌else◌, u32, sub32, bitmap_test, bitmap_set,
}
use mathlib.Core.List.{reverse}
use enet_rs.Protocol.{
  Protocol, Fragment, maximum_fragment_count, is_send_fragment, is_send_unreliable_fragment,
}
use enet_rs.Packet.{Memory, get_packet, write_bytes}
use enet_rs.State.{IncomingCommand, Conn, Status, success, failure}
use enet_rs.Peer.Outgoing.{get_channel, on_channel}
use enet_rs.Peer.Dispatch.{is_ahead, dispatch_reliable, dispatch_unreliable}
use enet_rs.Peer.Incoming.{Incoming, Queued, refused, discarded, queued, queue_incoming_command}
use enet_rs.Handle.Receive.{is_receivable}

-- The search for the command that collects the fragments: it is there (its packet is given), it is
-- not, or the command with its number does not fit the fragment.
pub data Start : Type 0 where
  missing mismatch : Start
  found : ℕ → Start

-- totalLength and fragmentCount are those of the command that collects the fragments.
abbrev pub fits : Fragment → Memory → IncomingCommand → Bool
fits f m i =
    f.total_length == (get_packet m i.packet).data_length && f.fragment_count == i.fragment_count

-- The search of the reliable queue, its end first.
unfoldable pub find_start : Fragment → Memory → ℕ → List IncomingCommand → Start
find_start f m current [] = missing
find_start f m current (i ∷ is) =
    let on = find_start f m current is in
    let compare_numbers =
      if leb i.reliable_sequence_number f.start_sequence_number
      then (if ltb i.reliable_sequence_number f.start_sequence_number
          then missing
          else if is_send_fragment i.command.body && fits f m i
          then found i.packet
          else mismatch)
      else on in
    if leb current f.start_sequence_number
    then (if ltb i.reliable_sequence_number current then on else compare_numbers)
    else (if leb current i.reliable_sequence_number then missing else compare_numbers)

-- The search of the unreliable queue, its end first.
unfoldable pub find_unreliable_start : ℕ → Fragment → Memory → ℕ → List IncomingCommand → Start
find_unreliable_start number f m current [] = missing
find_unreliable_start number f m current (i ∷ is) =
    let on = find_unreliable_start number f m current is in
    let compare_unreliable =
      if leb i.unreliable_sequence_number f.start_sequence_number
      then (if ltb i.unreliable_sequence_number f.start_sequence_number
          then missing
          else if is_send_unreliable_fragment i.command.body && fits f m i
          then found i.packet
          else mismatch)
      else on in
    let compare_numbers =
      if ltb i.reliable_sequence_number number
      then missing
      else if ltb number i.reliable_sequence_number
      then on
      else compare_unreliable in
    if leb current number
    then (if ltb i.reliable_sequence_number current then on else compare_numbers)
    else (if leb current i.reliable_sequence_number then missing else compare_numbers)

-- The tests of the numbers in the fragment.
unfoldable pub is_malformed : Fragment → Conn → Bool
is_malformed f c =
    ltb maximum_fragment_count f.fragment_count
    || leb f.fragment_count f.fragment_number
    || ltb c.host.maximum_packet_size f.total_length
    || ltb f.total_length f.fragment_count
    || leb f.total_length f.fragment_offset
    || ltb (f.total_length - f.fragment_offset) f.data_length

-- The command with the packet, changed.
unfoldable pub on_command :
    ℕ → (IncomingCommand → IncomingCommand) → List IncomingCommand → List IncomingCommand
on_command packet f [] = []
on_command packet f (i ∷ is) =
    let rest = on_command packet f is in if i.packet == packet then f i ∷ is else i ∷ rest

-- The command with the packet, if it is in the list.
unfoldable pub fragments_of : ℕ → List IncomingCommand → List ℕ
fragments_of packet [] = []
fragments_of packet (i ∷ is) =
    let rest = fragments_of packet is in if i.packet == packet then i.fragments else rest

unfoldable pub remaining_of : ℕ → List IncomingCommand → ℕ
remaining_of packet [] = 0
remaining_of packet (i ∷ is) =
    let rest = remaining_of packet is in if i.packet == packet then i.fragments_remaining else rest

-- The fragment is ticked off.
unfoldable pub tick_fragment : ℕ → IncomingCommand → IncomingCommand
tick_fragment number i = record i {
  fragments_remaining = sub32 i.fragments_remaining 1;
  fragments = bitmap_set i.fragments number;
}

-- The bytes that are copied: no more than the packet has room for.
unfoldable pub copied_length : Fragment → ℕ → ℕ
copied_length f total =
    if ltb total (u32 (f.fragment_offset + f.data_length))
    then total - f.fragment_offset
    else f.data_length

-- memcpy of the fragment's bytes into the packet.
unfoldable pub copy_fragment : Fragment → List ℕ → ℕ → Memory → Memory
copy_fragment f payload packet m =
    write_bytes packet f.fragment_offset
      (take (copied_length f (get_packet m packet).data_length) payload) m

-- The end of `enet_protocol_handle_send_fragment`, for the collecting command with this packet.
unfoldable pub add_fragment : ℕ → Fragment → List ℕ → ℕ → Conn → Conn
add_fragment id f payload packet c =
    let queue = (get_channel c.peer id).incoming_reliable_commands in
    let queue' = on_command packet (tick_fragment f.fragment_number) queue in
    let added : Conn = record {
      host = record (c.host) { memory = copy_fragment f payload packet c.host.memory };
      peer = on_channel c.peer id (λ ch. record ch { incoming_reliable_commands = queue' });
    } in
    let dispatched = dispatch_reliable id none added in
    if bitmap_test (fragments_of packet queue) f.fragment_number
    then c
    else if leb (remaining_of packet queue') 0
    then dispatched
    else added

-- The end of `enet_protocol_handle_send_unreliable_fragment`.
unfoldable pub add_unreliable_fragment : ℕ → Fragment → List ℕ → ℕ → Conn → Conn
add_unreliable_fragment id f payload packet c =
    let queue = (get_channel c.peer id).incoming_unreliable_commands in
    let queue' = on_command packet (tick_fragment f.fragment_number) queue in
    let added : Conn = record {
      host = record (c.host) { memory = copy_fragment f payload packet c.host.memory };
      peer = on_channel c.peer id (λ ch. record ch { incoming_unreliable_commands = queue' });
    } in
    let dispatched = dispatch_unreliable id none added in
    if bitmap_test (fragments_of packet queue) f.fragment_number
    then c
    else if leb (remaining_of packet queue') 0
    then dispatched
    else added

-- The arguments with which a collecting command is queued; `flags` are the packet's.
abbrev pub collecting : Protocol → Fragment → ℕ → Incoming
collecting command f flags = record {
  command = command;
  contents = none;
  data_length = f.total_length;
  flags = flags;
  fragment_count = f.fragment_count;
}

-- NULL, or the collecting command. (A command with fragments is never silently discarded.)
unfoldable pub after_queue : (ℕ → Conn → Conn) → Conn × Queued → Conn × Status
after_queue add (c, refused) = (c, failure)
after_queue add (c, discarded) = (c, failure)
after_queue add (c, queued packet) = (add packet c, success)

unfoldable pub after_search : (ℕ → Conn → Conn) → Incoming → Start → Conn → Conn × Status
after_search add q missing c = after_queue add (queue_incoming_command q c)
after_search add q mismatch c = (c, failure)
after_search add q (found packet) c = (add packet c, success)

-- The guard on the data of a fragment.
abbrev pub is_unusable : Fragment → List ℕ → Conn → Bool
is_unusable f payload c =
    leb f.data_length 0
    || ltb c.host.maximum_packet_size f.data_length
    || ltb (length payload) f.data_length

-- `enet_protocol_handle_send_fragment`.
unfoldable pub handle_send_fragment : Protocol → Fragment → List ℕ → Conn → Conn × Status
handle_send_fragment command f payload c =
    let ch = get_channel c.peer command.channel_id in
    let start =
      find_start f c.host.memory ch.incoming_reliable_sequence_number
        (reverse ch.incoming_reliable_commands) in
    let host_command : Protocol = record command {
      reliable_sequence_number = f.start_sequence_number;
    } in
    let result =
      after_search (add_fragment command.channel_id f payload) (collecting host_command f 1) start
        c in
    if not (is_receivable command c) || is_unusable f payload c
    then (c, failure)
    else if not (is_ahead f.start_sequence_number ch.incoming_reliable_sequence_number)
    then (c, success)
    else if is_malformed f c
    then (c, failure)
    else result

-- `enet_protocol_handle_send_unreliable_fragment`.
unfoldable pub handle_send_unreliable_fragment : Protocol → Fragment → List ℕ → Conn → Conn × Status
handle_send_unreliable_fragment command f payload c =
    let ch = get_channel c.peer command.channel_id in
    let number = command.reliable_sequence_number in
    let start =
      find_unreliable_start number f c.host.memory ch.incoming_reliable_sequence_number
        (reverse ch.incoming_unreliable_commands) in
    let result =
      after_search (add_unreliable_fragment command.channel_id f payload) (collecting command f 8)
        start c in
    if not (is_receivable command c) || is_unusable f payload c
    then (c, failure)
    else if not (is_ahead number ch.incoming_reliable_sequence_number)
    then (c, success)
    else if number == ch.incoming_reliable_sequence_number
        && leb f.start_sequence_number ch.incoming_unreliable_sequence_number
    then (c, success)
    else if is_malformed f c
    then (c, failure)
    else result
