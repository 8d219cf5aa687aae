-- ===== src/Transmit/Outgoing.antt =====
-- The commands that go into a datagram, of original/protocol.c:
-- `enet_protocol_check_outgoing_commands` and `enet_protocol_remove_sent_unreliable_commands`.
pub mod Limits
pub mod Windows
use Prim.Native.Nat.{bit_and, bit_or}
use enet_rs.Prelude.{
  ℕ, zero, suc, ◌+◌, ◌-◌, ◌*◌, ◌/◌, ◌%◌, ◌^◌, Bool, true, false, not, ◌&&◌, ◌||◌, Option, none,
  some, List, [], ◌∷◌, ◌++◌, length, get_or, set, is_empty, ltb, leb, ◌==◌, if◌then◌else◌, u16, u32,
  size_sub, set_bit, enet_max,
}
use enet_rs.Protocol.{Protocol, command_size, maximum_packet_commands}
use enet_rs.Packet.{Memory, release_option, release_sent_option}
use enet_rs.Time.{time_less}
use enet_rs.State.{
  OutgoingCommand, Channel, Buffer, of_packet, Peer, Host, Conn, disconnect_later, state_is,
  reliable_windows_count, reliable_window_size, free_reliable_windows, packet_throttle_scale,
  packet_throttle_counter,
}
use enet_rs.Peer.Outgoing.{get_channel, on_channel, has_packet, has_outgoing_commands}
use enet_rs.Peer.Disconnect.{disconnect_connected}
use enet_rs.Transmit.Acknowledgements.{buffer_maximum, buffer_count, add_command}

-- The state of the loop. Of each queue, `passed` are the commands that the loop has passed and left
-- there, and the other list starts at `currentCommand` or `currentSendReliableCommand`.
pub record Sending : Type 0 where
  pub host : Host
  pub peer : Peer
  pub passed : List OutgoingCommand
  pub outgoing : List OutgoingCommand
  pub passed_reliable : List OutgoingCommand
  pub reliable : List OutgoingCommand
  pub unreliable : List OutgoingCommand
  pub window_wrap : Bool
  pub can_ping : Bool

-- The queue that a command comes from: outgoingCommands, or outgoingSendReliableCommands.
pub data Origin : Type 0 where
  mixed_queue reliable_queue : Origin

-- The command stays in its queue.
unfoldable pub keep : Origin → OutgoingCommand → Sending → Sending
keep mixed_queue o s = record s { passed = s.passed ++ (o ∷ []) }
keep reliable_queue o s = record s { passed_reliable = s.passed_reliable ++ (o ∷ []) }

-- currentSendReliableCommand = enet_list_end (& peer -> outgoingSendReliableCommands)
unfoldable pub skip_reliable : Sending → Sending
skip_reliable s = record s { passed_reliable = s.passed_reliable ++ s.reliable; reliable = [] }

-- The window of a number.
abbrev pub window_index : OutgoingCommand → ℕ
window_index o = o.reliable_sequence_number / reliable_window_size

-- The first command of a new window has to wait: the window before is full, or one of the windows that
-- must be free is in use.
unfoldable pub is_window_blocked : OutgoingCommand → Channel → Bool
is_window_blocked o ch =
    let w = window_index o in
    let ones = 2 ^ (free_reliable_windows + 2) - 1 in
    ltb o.send_attempts 1
    && o.reliable_sequence_number % reliable_window_size == 0
    && (leb reliable_window_size
          (get_or ch.reliable_windows ((w + reliable_windows_count - 1) % reliable_windows_count) 0)
        || not (
            bit_and ch.used_reliable_windows
              (bit_or (ones * 2 ^ w) (ones / 2 ^ (reliable_windows_count - w)))
            == 0))

-- With the packet, more data would be in transit than the window allows.
unfoldable pub exceeds_window : OutgoingCommand → Peer → Bool
exceeds_window o p =
    let window = u32 (p.packet_throttle * p.window_size) / packet_throttle_scale in
    has_packet o.packet
    && ltb (enet_max window p.mtu) (u32 (p.reliable_data_in_transit + o.fragment_length))

-- The datagram has no room for the command, with its data if it has any.
unfoldable pub does_not_fit : OutgoingCommand → Host → Peer → Bool
does_not_fit o h p =
    let size = command_size o.command.body in
    leb maximum_packet_commands (length h.commands)
    || leb buffer_maximum (buffer_count h + 1)
    || ltb (size_sub p.mtu h.packet_size) size
    || has_packet o.packet
      && ltb (u16 (size_sub p.mtu h.packet_size)) (u16 (size + o.fragment_length))

-- The data of a command at the end of the datagram.
abbrev pub add_data : OutgoingCommand → Option ℕ → Host → Host
add_data o none h = h
add_data o (some packet) h = record h {
  buffers = h.buffers ++ (of_packet packet o.fragment_offset o.fragment_length ∷ []);
  packet_size = h.packet_size + o.fragment_length;
}

unfoldable pub add_outgoing : OutgoingCommand → Host → Host
add_outgoing o h = add_data o o.packet (add_command o.command h)

unfoldable pub add_to_datagram : OutgoingCommand → Sending → Sending
add_to_datagram o s = record s {
  host = add_outgoing o s.host;
  peer = record (s.peer) { packets_sent = u32 (s.peer.packets_sent + 1) };
}

-- The window of a command that is sent for the first time holds one command more.
unfoldable pub enter_window : ℕ → Channel → Channel
enter_window w ch = record ch {
  used_reliable_windows = set_bit ch.used_reliable_windows w;
  reliable_windows = set ch.reliable_windows w (u16 (get_or ch.reliable_windows w 0 + 1));
}

unfoldable pub count_in_window : OutgoingCommand → Peer → Peer
count_in_window o p =
    if ltb o.command.channel_id p.channel_count && ltb o.send_attempts 1
    then on_channel p o.command.channel_id (enter_window (window_index o))
    else p

-- The command as it waits for its acknowledgement.
unfoldable pub in_flight : OutgoingCommand → ℕ → Peer → OutgoingCommand
in_flight o now p = record o {
  send_attempts = u16 (o.send_attempts + 1);
  round_trip_timeout =
      if o.round_trip_timeout == 0
      then u32 (p.round_trip_time + 4 * p.round_trip_time_variance)
      else o.round_trip_timeout;
  sent_time = now;
}

-- A reliable command is sent.
unfoldable pub launch : OutgoingCommand → ℕ → Peer → Peer
launch o now p =
    let o' = in_flight o now p in
    let q = count_in_window o p in
    record q {
      next_timeout =
          if is_empty q.sent_reliable_commands
          then u32 (now + o'.round_trip_timeout)
          else q.next_timeout;
      sent_reliable_commands = q.sent_reliable_commands ++ (o' ∷ []);
      reliable_data_in_transit = u32 (q.reliable_data_in_transit + o.fragment_length);
    }

unfoldable pub launch_reliable : OutgoingCommand → Sending → Sending
launch_reliable o s = record s {
  host = record (s.host) { header_flags = set_bit s.host.header_flags 15 };
  peer = launch o s.host.service_time s.peer;
}

-- The commands that follow with the same numbers are dropped too. (The source reads the packet of
-- each, and is undefined where one has none.)
unfoldable pub drop_same : ℕ → ℕ → List OutgoingCommand → Memory → List OutgoingCommand × Memory
drop_same number unreliable [] m = ([], m)
drop_same number unreliable (o ∷ os) m =
    let rest = drop_same number unreliable os (release_option o.packet m) in
    if o.reliable_sequence_number == number && o.unreliable_sequence_number == unreliable
    then rest
    else (o ∷ os, m)

-- A packet that the throttle drops, with all its fragments.
unfoldable pub drop_packet : OutgoingCommand → Sending → Sending
drop_packet o s =
    let (left, m) =
      drop_same o.reliable_sequence_number o.unreliable_sequence_number s.outgoing
        (release_option o.packet s.host.memory) in
    record s { host = record (s.host) { memory = m }; outgoing = left }

-- An unreliable command goes into the datagram; its packet is released after the datagram was sent.
unfoldable pub release_later : OutgoingCommand → Sending → Sending
release_later o s =
    add_to_datagram o
      (if has_packet o.packet then record s { unreliable = s.unreliable ++ (o ∷ []) } else s)

-- packetThrottleCounter, for the first command of an unreliable packet.
unfoldable pub count_throttle : Peer → Peer
count_throttle p = record p {
  packet_throttle_counter =
      u32 (p.packet_throttle_counter + packet_throttle_counter) % packet_throttle_scale;
}

unfoldable pub send_unreliable_command : OutgoingCommand → Sending → Sending
send_unreliable_command o s =
    let counted : Sending = record s { peer = count_throttle s.peer } in
    if has_packet o.packet && o.fragment_offset == 0
    then (if ltb counted.peer.packet_throttle counted.peer.packet_throttle_counter
        then drop_packet o counted
        else release_later o counted)
    else release_later o s

-- The datagram is full: the Boolean is whether the loop goes on.
unfoldable pub put_command : Origin → OutgoingCommand → Sending → Sending × Bool
put_command origin o s =
    if does_not_fit o s.host s.peer
    then (keep origin o (record s { peer = record (s.peer) { continue_sending = true } }), false)
    else if o.command.flag_acknowledge
    then (add_to_datagram o (launch_reliable o s), true)
    else (send_unreliable_command o s, true)

unfoldable pub put_reliable : Origin → OutgoingCommand → Sending → Sending × Bool
put_reliable origin o s =
    let has_channel = ltb o.command.channel_id s.peer.channel_count in
    if has_channel && s.window_wrap
    then (keep origin o s, true)
    else if has_channel && is_window_blocked o (get_channel s.peer o.command.channel_id)
    then (skip_reliable (keep origin o (record s { window_wrap = true })), true)
    else if exceeds_window o s.peer
    then (skip_reliable (keep origin o s), true)
    else put_command origin o (record s { can_ping = false })

unfoldable pub consider : Origin → OutgoingCommand → Sending → Sending × Bool
consider origin o s =
    if o.command.flag_acknowledge then put_reliable origin o s else put_command origin o s

-- The next command: the one that was queued first, of the two at the cursors.
unfoldable pub next_command :
    List OutgoingCommand → List OutgoingCommand → Option (Origin × OutgoingCommand)
next_command [] [] = none
next_command (o ∷ os) [] = some (mixed_queue, o)
next_command [] (r ∷ rs) = some (reliable_queue, r)
next_command (o ∷ os) (r ∷ rs) =
    if time_less r.queue_time o.queue_time then some (reliable_queue, r) else some (mixed_queue, o)

abbrev pub tail {ℓ} : {A : Type ℓ} → List A → List A
tail [] = []
tail (x ∷ xs) = xs

-- The cursor of the queue behind its command.
unfoldable pub advance : Origin → Sending → Sending
advance mixed_queue s = record s { outgoing = tail s.outgoing }
advance reliable_queue s = record s { reliable = tail s.reliable }

abbrev pub after_next : (Sending → Sending) → Option (Origin × OutgoingCommand) → Sending → Sending
after_next go_on none s = s
after_next go_on (some (origin, o)) s =
    let (s', goes_on) = consider origin o (advance origin s) in
    let rest = go_on s' in if goes_on then rest else s'

-- The loop; the fuel is the number of commands at and behind the cursors.
unfoldable pub send_loop : ℕ → Sending → Sending
send_loop zero s = s
send_loop (suc fuel) s = after_next (send_loop fuel) (next_command s.outgoing s.reliable) s

-- The two queues of the peer when the loop has ended.
unfoldable pub put_queues : Sending → Peer
put_queues s = record (s.peer) {
  outgoing_commands = s.passed ++ s.outgoing;
  outgoing_send_reliable_commands = s.passed_reliable ++ s.reliable;
}

-- A peer that only waited for its commands to be sent is disconnected.
unfoldable pub leave_if_done : List OutgoingCommand → Conn → Conn
leave_if_done unreliable c =
    if state_is c.peer.state disconnect_later
      && not (has_outgoing_commands c.peer)
      && is_empty unreliable
    then disconnect_connected c.peer.event_data c
    else c

unfoldable pub start_sending : List OutgoingCommand → Conn → Sending
start_sending unreliable c = record {
  host = c.host;
  peer = c.peer;
  passed = [];
  outgoing = c.peer.outgoing_commands;
  passed_reliable = [];
  reliable = c.peer.outgoing_send_reliable_commands;
  unreliable = unreliable;
  window_wrap = false;
  can_ping = true;
}

-- What `enet_protocol_check_outgoing_commands` leaves: the list of sent unreliable commands, and what it
-- returns.
pub record Checked : Type 0 where
  pub conn : Conn
  pub unreliable : List OutgoingCommand
  pub can_ping : Bool

-- `enet_protocol_check_outgoing_commands`.
unfoldable pub check_outgoing_commands : List OutgoingCommand → Conn → Checked
check_outgoing_commands unreliable c =
    let s =
      send_loop (length c.peer.outgoing_commands + length c.peer.outgoing_send_reliable_commands)
        (start_sending unreliable c) in
    record {
      conn = leave_if_done s.unreliable (record { host = s.host; peer = put_queues s });
      unreliable = s.unreliable;
      can_ping = s.can_ping;
    }

-- The loop of `enet_protocol_remove_sent_unreliable_commands`.
unfoldable pub release_all : List OutgoingCommand → Memory → Memory
release_all [] m = m
release_all (o ∷ os) m = release_all os (release_sent_option o.packet m)

-- `enet_protocol_remove_sent_unreliable_commands`.
unfoldable pub remove_sent_unreliable_commands : List OutgoingCommand → Conn → Conn
remove_sent_unreliable_commands unreliable c =
    if is_empty unreliable
    then c
    else leave_if_done []
        (record c { host = record (c.host) { memory = release_all unreliable c.host.memory } })
