-- ===== src/Peer/Send.antt =====
-- Sending a packet, of original/peer.c: `enet_peer_send` with its fragmentation loop.
pub mod Tiling
use enet_rs.Prelude.{
  ℕ, zero, suc, ◌+◌, ◌-◌, ◌/◌, Bool, true, false, not, ◌&&◌, ◌||◌, some, List, [], ◌∷◌, ltb, leb,
  length, if◌then◌else◌, u16, u32, size_sub, test_bit,
}
use enet_rs.Protocol.{
  Protocol, Body, Fragment, send_reliable, send_unreliable, send_unsequenced, send_fragment,
  send_unreliable_fragment, maximum_fragment_count,
}
use enet_rs.Packet.{
  Packet, get_packet, retain, flag_reliable, flag_unsequenced, flag_unreliable_fragment,
}
use enet_rs.State.{OutgoingCommand, Channel, Conn, Status, success, failure, connected, state_is}
use enet_rs.Peer.Outgoing.{get_channel, setup_outgoing_command, queue_outgoing_command}

-- What all fragments of a packet share.
pub record Fragmentation : Type 0 where
  pub packet : ℕ
  pub data_length : ℕ
  pub channel_id : ℕ
  pub is_unreliable : Bool
  pub start_sequence_number : ℕ
  pub fragment_count : ℕ

abbrev pub fragment_body : Fragmentation → Fragment → Body
fragment_body s f = if s.is_unreliable then send_unreliable_fragment f else send_fragment f

-- The command for the bytes at `offset`.
abbrev pub make_fragment : Fragmentation → ℕ → ℕ → ℕ → OutgoingCommand
make_fragment s number offset len = record {
  reliable_sequence_number = 0;
  unreliable_sequence_number = 0;
  sent_time = 0;
  round_trip_timeout = 0;
  queue_time = 0;
  fragment_offset = offset;
  fragment_length = u16 len;
  send_attempts = 0;
  command = record {
    flag_acknowledge = not s.is_unreliable;
    flag_unsequenced = false;
    channel_id = s.channel_id;
    reliable_sequence_number = 0;
    body = fragment_body s (record {
      start_sequence_number = s.start_sequence_number;
      data_length = u16 len;
      fragment_count = s.fragment_count;
      fragment_number = number;
      total_length = u32 s.data_length;
      fragment_offset = offset;
    });
  };
  packet = some s.packet;
}

-- The loop over the fragments; the fuel is the number of fragments that are left.
unfoldable pub make_fragments : ℕ → Fragmentation → ℕ → ℕ → ℕ → List OutgoingCommand
make_fragments zero s number offset len = []
make_fragments (suc fuel) s number offset len =
    let len' = if ltb (s.data_length - offset) len then s.data_length - offset else len in
    let rest = make_fragments fuel s (u32 (number + 1)) (u32 (offset + len')) len' in
    if ltb offset s.data_length then make_fragment s number offset len' ∷ rest else []

-- The loop that sets up the fragments in turn.
unfoldable pub setup_all : List OutgoingCommand → Conn → Conn
setup_all [] c = c
setup_all (o ∷ os) c = setup_all os (setup_outgoing_command o c)

-- The bytes of a packet that fit into one datagram.
unfoldable pub fragment_length : Conn → ℕ
fragment_length c =
    let room = size_sub c.peer.mtu (4 + 24) in if c.host.has_checksum then size_sub room 4 else room

-- The command for a packet that is not fragmented.
abbrev pub whole_command : Packet → ℕ → Channel → Protocol
whole_command k id ch =
    if test_bit k.flags flag_unsequenced && not (test_bit k.flags flag_reliable)
    then record {
      flag_acknowledge = false;
      flag_unsequenced = true;
      channel_id = id;
      reliable_sequence_number = 0;
      body = send_unsequenced 0 (u16 k.data_length);
    }
    else if test_bit k.flags flag_reliable || leb 0xffff ch.outgoing_unreliable_sequence_number
    then record {
      flag_acknowledge = true;
      flag_unsequenced = false;
      channel_id = id;
      reliable_sequence_number = 0;
      body = send_reliable (u16 k.data_length);
    }
    else record {
      flag_acknowledge = false;
      flag_unsequenced = false;
      channel_id = id;
      reliable_sequence_number = 0;
      body = send_unreliable 0 (u16 k.data_length);
    }

abbrev pub plan_fragments : ℕ → Packet → ℕ → Channel → ℕ → Fragmentation
plan_fragments p k id ch len =
    let is_unreliable =
      test_bit k.flags flag_unreliable_fragment
      && not (test_bit k.flags flag_reliable)
      && ltb ch.outgoing_unreliable_sequence_number 0xffff in
    record {
      packet = p;
      data_length = k.data_length;
      channel_id = id;
      is_unreliable = is_unreliable;
      start_sequence_number =
          if is_unreliable
          then u16 (ch.outgoing_unreliable_sequence_number + 1)
          else u16 (ch.outgoing_reliable_sequence_number + 1);
      fragment_count = u32 ((k.data_length + len - 1) / len);
    }

-- The branch for a packet that is longer than a fragment.
unfoldable pub send_fragments : ℕ → ℕ → Conn → Conn × Status
send_fragments id p c =
    let len = fragment_length c in
    let s = plan_fragments p (get_packet c.host.memory p) id (get_channel c.peer id) len in
    let fragments = make_fragments s.fragment_count s 0 0 len in
    let retained : Conn = record c {
      host = record (c.host) { memory = retain (length fragments) p c.host.memory };
    } in
    if ltb maximum_fragment_count s.fragment_count
    then (c, failure)
    else (setup_all fragments retained, success)

-- `enet_peer_send`.
unfoldable pub peer_send : ℕ → ℕ → Conn → Conn × Status
peer_send id p c =
    let k = get_packet c.host.memory p in
    if not (state_is c.peer.state connected)
      || leb c.peer.channel_count id
      || ltb c.host.maximum_packet_size k.data_length
    then (c, failure)
    else if ltb (fragment_length c) k.data_length
    then send_fragments id p c
    else (
      queue_outgoing_command (whole_command k id (get_channel c.peer id)) (some p) 0 k.data_length
          c,
      success,
    )
