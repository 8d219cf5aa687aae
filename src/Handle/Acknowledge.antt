-- ===== src/Handle/Acknowledge.antt =====
-- Acknowledgements, of original/protocol.c: `enet_protocol_find_sent_reliable_command`,
-- `enet_protocol_remove_sent_reliable_command` and `enet_protocol_handle_acknowledge`.
pub mod Times
pub mod Windows
use enet_rs.Prelude.{
  ℕ, ◌+◌, ◌-◌, ◌*◌, ◌/◌, ◌%◌, Bool, true, false, not, ◌&&◌, ◌||◌, Option, none, some, List, [], ◌∷◌,
  get_or, set, ltb, leb, ◌==◌, if◌then◌else◌, u32, sub32, clear_bit, enet_max,
}
use enet_rs.Protocol.{command_none, command_number}
use enet_rs.Packet.{release_sent_option}
use enet_rs.Time.{time_less, time_difference}
use enet_rs.State.{
  PeerState, OutgoingCommand, Channel, Peer, Conn, Status, success, failure, disconnected,
  acknowledging_connect, disconnect_later, disconnecting, zombie, state_is, reliable_window_size,
}
use enet_rs.Peer.Outgoing.{on_channel, has_packet, has_outgoing_commands}
use enet_rs.Peer.Throttle.{throttle}
use enet_rs.Peer.Disconnect.{disconnect_connected}
use enet_rs.Handle.Notify.{Event, notify_connect, notify_disconnect}

abbrev pub matches : ℕ → ℕ → OutgoingCommand → Bool
matches number id o = o.reliable_sequence_number == number && o.command.channel_id == id

-- A command that was found in a list, and the list without it.
pub record Found : Type 0 where
  pub command : OutgoingCommand
  pub rest : List OutgoingCommand

abbrev pub found_behind : OutgoingCommand → Option Found → Option Found
found_behind o none = none
found_behind o (some f) = some (record f { rest = o ∷ f.rest })

-- The search in `sentReliableCommands`.
unfoldable pub find_sent : ℕ → ℕ → List OutgoingCommand → Option Found
find_sent number id [] = none
find_sent number id (o ∷ os) =
    let on = found_behind o (find_sent number id os) in
    if matches number id o then some (record { command = o; rest = os }) else on

-- `enet_protocol_find_sent_reliable_command`: the search in a queue of commands to be sent, which
-- stops at the first reliable command that was never sent.
unfoldable pub find_sent_reliable_command : ℕ → ℕ → List OutgoingCommand → Option Found
find_sent_reliable_command number id [] = none
find_sent_reliable_command number id (o ∷ os) =
    let on = found_behind o (find_sent_reliable_command number id os) in
    if not o.command.flag_acknowledge
    then on
    else if ltb o.send_attempts 1
    then none
    else if matches number id o
    then some (record { command = o; rest = os })
    else on

-- The reliable window of the acknowledged number holds one command less.
unfoldable pub leave_window : ℕ → Channel → Channel
leave_window number ch =
    if ltb 0 count
    then record ch {
      reliable_windows = set ch.reliable_windows window (count - 1);
      used_reliable_windows =
          if count - 1 == 0
          then clear_bit ch.used_reliable_windows window
          else ch.used_reliable_windows;
    }
    else ch
  where
    window : ℕ
    window = number / reliable_window_size

    count : ℕ
    count = get_or ch.reliable_windows window 0

-- nextTimeout, from the first command that still waits for its acknowledgement.
abbrev pub timeout_of_first : List OutgoingCommand → ℕ → ℕ
timeout_of_first [] t = t
timeout_of_first (o ∷ os) t = u32 (o.sent_time + o.round_trip_timeout)

-- What is done with the command once it is out of its list; `was_sent` is whether it was in flight.
unfoldable pub retire : Bool → ℕ → ℕ → OutgoingCommand → Conn → Conn
retire was_sent number id o c =
    let p : Peer =
      if ltb id c.peer.channel_count then on_channel c.peer id (leave_window number) else c.peer in
    record {
      host = record (c.host) { memory = release_sent_option o.packet c.host.memory };
      peer = record p {
        reliable_data_in_transit =
            if has_packet o.packet && was_sent
            then sub32 p.reliable_data_in_transit o.fragment_length
            else p.reliable_data_in_transit;
        next_timeout = timeout_of_first p.sent_reliable_commands p.next_timeout;
      };
    }

abbrev pub retire_second_queue : ℕ → ℕ → Option Found → Conn → Conn × ℕ
retire_second_queue number id none c = (c, command_none)
retire_second_queue number id (some f) c = (
  retire false number id f.command
      (record c { peer = record (c.peer) { outgoing_send_reliable_commands = f.rest } }),
  command_number f.command.command.body,
)

abbrev pub retire_first_queue : ℕ → ℕ → Option Found → Conn → Conn × ℕ
retire_first_queue number id none c =
    retire_second_queue number id
      (find_sent_reliable_command number id c.peer.outgoing_send_reliable_commands) c
retire_first_queue number id (some f) c = (
  retire false number id f.command
      (record c { peer = record (c.peer) { outgoing_commands = f.rest } }),
  command_number f.command.command.body,
)

abbrev pub retire_sent : ℕ → ℕ → Option Found → Conn → Conn × ℕ
retire_sent number id none c =
    retire_first_queue number id (find_sent_reliable_command number id c.peer.outgoing_commands) c
retire_sent number id (some f) c = (
  retire true number id f.command
      (record c { peer = record (c.peer) { sent_reliable_commands = f.rest } }),
  command_number f.command.command.body,
)

-- `enet_protocol_remove_sent_reliable_command`; the number is that of the command, or `command_none`.
unfoldable pub remove_sent_reliable_command : ℕ → ℕ → Conn → Conn × ℕ
remove_sent_reliable_command number id c =
    retire_sent number id (find_sent number id c.peer.sent_reliable_commands) c

-- The full sent time of a command from its low 16 bits and the present time.
unfoldable pub full_sent_time : ℕ → ℕ → ℕ
full_sent_time service_time received =
    let full = service_time / 65536 * 65536 + received in
    if ltb (service_time / 32768 % 2) (full / 32768 % 2) then sub32 full 65536 else full

-- The smoothed round trip time and its variance.
unfoldable pub smooth : ℕ → Peer → Peer
smooth rtt p =
    let variance = p.round_trip_time_variance - p.round_trip_time_variance / 4 in
    let above = rtt - p.round_trip_time in
    let below = p.round_trip_time - rtt in
    if leb p.round_trip_time rtt
    then record p {
      round_trip_time_variance = u32 (variance + above / 4);
      round_trip_time = u32 (p.round_trip_time + above / 8);
    }
    else record p {
      round_trip_time_variance = u32 (variance + below / 4);
      round_trip_time = p.round_trip_time - below / 8;
    }

-- A measured round trip time, the first or a later one.
unfoldable pub measure : ℕ → Peer → Peer
measure rtt p =
    if ltb 0 p.last_receive_time
    then smooth rtt (throttle rtt p).0
    else record p { round_trip_time = rtt; round_trip_time_variance = (rtt + 1) / 2 }

-- The extremes since the throttle's epoch began, and the start of a new epoch.
unfoldable pub track_extremes : ℕ → Peer → Peer
track_extremes service_time p =
    let lowest =
      if ltb p.round_trip_time p.lowest_round_trip_time
      then p.round_trip_time
      else p.lowest_round_trip_time in
    let highest =
      if ltb p.highest_round_trip_time_variance p.round_trip_time_variance
      then p.round_trip_time_variance
      else p.highest_round_trip_time_variance in
    if p.packet_throttle_epoch == 0
      || leb p.packet_throttle_interval (time_difference service_time p.packet_throttle_epoch)
    then record p {
      last_round_trip_time = lowest;
      last_round_trip_time_variance = enet_max highest 1;
      lowest_round_trip_time = p.round_trip_time;
      highest_round_trip_time_variance = p.round_trip_time_variance;
      packet_throttle_epoch = service_time;
    }
    else record p { lowest_round_trip_time = lowest; highest_round_trip_time_variance = highest }

-- The peer after a measurement at `service_time`.
unfoldable pub note_round_trip : ℕ → ℕ → Peer → Peer
note_round_trip service_time rtt p = record (track_extremes service_time (measure rtt p)) {
  last_receive_time = enet_max service_time 1;
  earliest_timeout = 0;
}

-- What a handler of a command does with the event, and what it returns.
pub record Handled : Type 0 where
  pub conn : Conn
  pub event : Option Event
  pub status : Status

abbrev pub handled : Conn × Option Event → Handled
handled (c, e) = record { conn = c; event = e; status = success }

-- The switch on the peer's state.
unfoldable pub acknowledged : PeerState → Option Event → ℕ → Conn → Handled
acknowledged acknowledging_connect event number c =
    if number == 3
    then handled (notify_connect event c)
    else record { conn = c; event = event; status = failure }
acknowledged disconnecting event number c =
    if number == 4
    then handled (notify_disconnect event c)
    else record { conn = c; event = event; status = failure }
acknowledged disconnect_later event number c =
    if has_outgoing_commands c.peer
    then handled (c, event)
    else handled (disconnect_connected c.peer.event_data c, event)
acknowledged _ event number c = handled (c, event)

-- roundTripTime, of a command that was sent at this time.
unfoldable pub round_trip_sample : ℕ → ℕ → ℕ
round_trip_sample now sent = enet_max (time_difference now sent) 1

-- `enet_protocol_handle_acknowledge` of a command of channel `id`.
unfoldable pub handle_acknowledge : Option Event → ℕ → ℕ → ℕ → Conn → Handled
handle_acknowledge event id received_number received_time c =
    let sent = full_sent_time c.host.service_time received_time in
    let rtt = round_trip_sample c.host.service_time sent in
    let noted : Conn = record c { peer = note_round_trip c.host.service_time rtt c.peer } in
    let (removed, number) = remove_sent_reliable_command received_number id noted in
    if state_is c.peer.state disconnected
      || state_is c.peer.state zombie
      || time_less c.host.service_time sent
    then handled (c, event)
    else acknowledged removed.peer.state event number removed
