-- ===== src/Peer/Incoming.antt =====
-- Incoming commands on their way into a channel's queues, of original/peer.c:
-- `enet_peer_queue_incoming_command`.
pub mod Order
pub mod Window
pub mod Insert
use enet_rs.Prelude.{
  ℕ, ◌+◌, ◌-◌, ◌/◌, not, ◌&&◌, Option, some, List, [], ◌∷◌, ◌++◌, length, take, drop, replicate,
  ltb, leb, ◌==◌, if◌then◌else◌, u16,
}
use mathlib.Core.List.{reverse}
use enet_rs.Protocol.{
  Protocol, Body, send_fragment, send_reliable, send_unreliable, send_unreliable_fragment,
  send_unsequenced, is_send_unsequenced, maximum_fragment_count,
}
use enet_rs.Packet.{packet_create, packet_destroy, retain}
use enet_rs.State.{IncomingCommand, Channel, Peer, Conn, disconnect_later, state_is}
use enet_rs.Peer.Outgoing.{get_channel, on_channel, window_of}
use enet_rs.Peer.Dispatch.{dispatch_reliable, dispatch_unreliable, is_ahead}

-- The place at which a command goes into a queue: behind the command at which the search from the
-- end of the queue stops, `skipped` commands before the end; or nowhere, since it is there already.
pub data Place : Type 0 where
  duplicate : Place
  before_last : ℕ → Place

-- The search from the end of the reliable queue. The list is the queue, its end first.
unfoldable pub reliable_place : ℕ → ℕ → List IncomingCommand → ℕ → Place
reliable_place number current [] skipped = before_last skipped
reliable_place number current (i ∷ is) skipped =
    let on = reliable_place number current is (skipped + 1) in
    let compare_numbers =
      if leb i.reliable_sequence_number number
      then (if ltb i.reliable_sequence_number number then before_last skipped else duplicate)
      else on in
    if leb current number
    then (if ltb i.reliable_sequence_number current then on else compare_numbers)
    else (if leb current i.reliable_sequence_number then before_last skipped else compare_numbers)

-- The search from the end of the unreliable queue. The first test looks at the new command, not at
-- the one in the queue.
unfoldable pub unreliable_place : Body → ℕ → ℕ → ℕ → List IncomingCommand → ℕ → Place
unreliable_place body number unreliable current [] skipped = before_last skipped
unreliable_place body number unreliable current (i ∷ is) skipped =
    let on = unreliable_place body number unreliable current is (skipped + 1) in
    let compare_unreliable =
      if leb i.unreliable_sequence_number unreliable
      then (if ltb i.unreliable_sequence_number unreliable then before_last skipped else duplicate)
      else on in
    let compare_numbers =
      if ltb i.reliable_sequence_number number
      then before_last skipped
      else if ltb number i.reliable_sequence_number
      then on
      else compare_unreliable in
    if is_send_unsequenced body
    then on
    else if leb current number
    then (if ltb i.reliable_sequence_number current then on else compare_numbers)
    else (if leb current i.reliable_sequence_number then before_last skipped else compare_numbers)

-- The list with an element put in, `skipped` elements before its end.
abbrev pub insert_before_last {ℓ} : {A : Type ℓ} → ℕ → A → List A → List A
insert_before_last skipped x xs =
    take (length xs - skipped) xs ++ (x ∷ drop (length xs - skipped) xs)

-- `command -> sendUnreliable.unreliableSequenceNumber`: in a fragment its first number stands there.
abbrev pub unreliable_field : Body → ℕ
unreliable_field (send_unreliable number _) = number
unreliable_field (send_unreliable_fragment f) = f.start_sequence_number
unreliable_field _ = 0

-- The switch on the command number: to the reliable queue, to the unreliable queue, or discarded.
pub data Target : Type 0 where
  discard : Target
  to_reliable : ℕ → Target
  to_unreliable : ℕ → Target

abbrev pub reliable_target : Place → Target
reliable_target duplicate = discard
reliable_target (before_last skipped) = to_reliable skipped

abbrev pub unreliable_target : Place → Target
unreliable_target duplicate = discard
unreliable_target (before_last skipped) = to_unreliable skipped

abbrev pub target_reliable : ℕ → Channel → Target
target_reliable number ch =
    if number == ch.incoming_reliable_sequence_number
    then discard
    else reliable_target (
        reliable_place number ch.incoming_reliable_sequence_number
          (reverse ch.incoming_reliable_commands) 0)

abbrev pub target_unreliable : Body → ℕ → Channel → Target
target_unreliable body number ch =
    let unreliable = unreliable_field body in
    if number == ch.incoming_reliable_sequence_number
      && leb unreliable ch.incoming_unreliable_sequence_number
    then discard
    else unreliable_target (
        unreliable_place body number unreliable ch.incoming_reliable_sequence_number
          (reverse ch.incoming_unreliable_commands) 0)

-- An unsequenced command goes to the front of the unreliable queue.
unfoldable pub target : Body → ℕ → Channel → Target
target (send_fragment _) number ch = target_reliable number ch
target (send_reliable _) number ch = target_reliable number ch
target (send_unreliable s l) number ch = target_unreliable (send_unreliable s l) number ch
target (send_unreliable_fragment f) number ch =
    target_unreliable (send_unreliable_fragment f) number ch
target (send_unsequenced _ _) number ch = to_unreliable (length ch.incoming_unreliable_commands)
target _ number ch = discard

-- What the function returns: NULL, the dummy command, or the queued command.
pub data Queued : Type 0 where
  refused discarded : Queued
  queued : ℕ → Queued

-- The arguments after the peer: the contents (`none` for NULL), their length, flags, fragment count.
pub record Incoming : Type 0 where
  pub command : Protocol
  pub contents : Option (List ℕ)
  pub data_length : ℕ
  pub flags : ℕ
  pub fragment_count : ℕ

-- The label `discardCommand`.
abbrev pub discard_result : Incoming → Queued
discard_result q = if ltb 0 q.fragment_count then refused else discarded

abbrev pub new_incoming : Incoming → ℕ → ℕ → IncomingCommand
new_incoming q unreliable packet = record {
  reliable_sequence_number = q.command.reliable_sequence_number;
  unreliable_sequence_number = u16 unreliable;
  command = q.command;
  fragment_count = q.fragment_count;
  fragments_remaining = q.fragment_count;
  fragments = replicate ((q.fragment_count + 31) / 32) 0;
  packet = packet;
}

-- enet_list_insert (enet_list_next (currentCommand), incomingCommand)
abbrev pub insert_at : Target → IncomingCommand → Channel → Channel
insert_at discard i ch = ch
insert_at (to_reliable skipped) i ch = record ch {
  incoming_reliable_commands = insert_before_last skipped i ch.incoming_reliable_commands;
}
insert_at (to_unreliable skipped) i ch = record ch {
  incoming_unreliable_commands = insert_before_last skipped i ch.incoming_unreliable_commands;
}

-- The command put into its queue, before anything is dispatched.
unfoldable pub insert_command : Incoming → Target → Conn → Conn × ℕ
insert_command q t c =
    let (packet, created) = packet_create q.contents q.data_length q.flags c.host.memory in
    let i = new_incoming q (unreliable_field q.command.body) packet in
    let p : Peer = on_channel c.peer q.command.channel_id (λ ch. insert_at t i ch) in
    (
      record {
        host = record (c.host) { memory = retain 1 packet created };
        peer = record p { total_waiting_data = p.total_waiting_data + q.data_length };
      },
      packet,
    )

-- The switch after the insertion.
abbrev pub dispatch_target : Target → ℕ → ℕ → Conn → Conn
dispatch_target (to_reliable _) id packet c = dispatch_reliable id (some packet) c
dispatch_target _ id packet c = dispatch_unreliable id (some packet) c

-- Too many fragments: the packet is created and destroyed, and NULL is returned.
abbrev pub refuse_fragments : Incoming → Conn → Conn × Queued
refuse_fragments q c =
    let (packet, created) = packet_create q.contents q.data_length q.flags c.host.memory in
    (record c { host = record (c.host) { memory = packet_destroy packet created } }, refused)

abbrev pub accept : Incoming → Target → Conn → Conn × Queued
accept q t c =
    let (c', packet) = insert_command q t c in
    (dispatch_target t q.command.channel_id packet c', queued packet)

abbrev pub store_incoming : Incoming → Target → Conn → Conn × Queued
store_incoming q t c =
    if leb c.host.maximum_waiting_data c.peer.total_waiting_data
    then (c, refused)
    else if ltb maximum_fragment_count q.fragment_count
    then refuse_fragments q c
    else accept q t c

abbrev pub queue_target : Incoming → Target → Conn → Conn × Queued
queue_target q discard c = (c, discard_result q)
queue_target q (to_reliable k) c = store_incoming q (to_reliable k) c
queue_target q (to_unreliable k) c = store_incoming q (to_unreliable k) c

-- `enet_peer_queue_incoming_command`.
unfoldable pub queue_incoming_command : Incoming → Conn → Conn × Queued
queue_incoming_command q c =
    if state_is c.peer.state disconnect_later
    then (c, discard_result q)
    else if not (is_send_unsequenced q.command.body)
        && not (is_ahead number ch.incoming_reliable_sequence_number)
    then (c, discard_result q)
    else queue_target q (target q.command.body number ch) c
  where
    ch : Channel
    ch = get_channel c.peer q.command.channel_id

    number : ℕ
    number = q.command.reliable_sequence_number
