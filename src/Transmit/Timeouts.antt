-- ===== src/Transmit/Timeouts.antt =====
-- Reliable commands that were not acknowledged in time, of original/protocol.c:
-- `enet_protocol_check_timeouts`.
pub mod Conserved
use enet_rs.Prelude.{
  ℕ, ◌+◌, ◌-◌, ◌*◌, ◌^◌, Bool, true, false, not, ◌&&◌, ◌||◌, Option, none, some, List, [], ◌∷◌,
  ◌++◌, is_empty, ltb, leb, ◌==◌, if◌then◌else◌, u32, sub32,
}
use enet_rs.Time.{time_less, time_difference}
use enet_rs.State.{OutgoingCommand, Peer, Conn}
use enet_rs.Peer.Outgoing.{has_packet}
use enet_rs.Handle.Notify.{Event, notify_disconnect}

-- The state of the loop: commands that stay in flight, and those that go back to the front of the two
-- queues of the peer.
pub record Sweep : Type 0 where
  pub peer : Peer
  pub kept : List OutgoingCommand
  pub resent : List OutgoingCommand
  pub resent_reliable : List OutgoingCommand

-- The command still waits for its acknowledgement.
abbrev pub is_in_time : ℕ → OutgoingCommand → Bool
is_in_time now o = ltb (time_difference now o.sent_time) o.round_trip_timeout

-- earliestTimeout, with this command's sent time.
unfoldable pub note_timeout : OutgoingCommand → Peer → Peer
note_timeout o p =
    if p.earliest_timeout == 0 || time_less o.sent_time p.earliest_timeout
    then record p { earliest_timeout = o.sent_time }
    else p

-- The peer has not answered for too long.
unfoldable pub is_timed_out : ℕ → OutgoingCommand → Peer → Bool
is_timed_out now o p =
    not (p.earliest_timeout == 0)
    && (leb p.timeout_maximum (time_difference now p.earliest_timeout)
        || leb p.timeout_limit (2 ^ (o.send_attempts - 1))
          && leb p.timeout_minimum (time_difference now p.earliest_timeout))

-- nextTimeout: from the command behind, if the command was the first in flight.
unfoldable pub next_in_flight : List OutgoingCommand → List OutgoingCommand → Peer → Peer
next_in_flight (k ∷ kept) behind p = p
next_in_flight [] [] p = p
next_in_flight [] (o ∷ os) p = record p { next_timeout = u32 (o.sent_time + o.round_trip_timeout) }

-- The command goes back to its queue, with twice the time.
unfoldable pub lose : OutgoingCommand → List OutgoingCommand → Sweep → Sweep
lose o behind s =
    let o' : OutgoingCommand = record o { round_trip_timeout = u32 (o.round_trip_timeout * 2) } in
    let p =
      next_in_flight s.kept behind
        (record (s.peer) { packets_lost = u32 (s.peer.packets_lost + 1) }) in
    if has_packet o.packet
    then record s {
      peer = record p {
        reliable_data_in_transit = sub32 p.reliable_data_in_transit o.fragment_length;
      };
      resent_reliable = s.resent_reliable ++ (o' ∷ []);
    }
    else record s { peer = p; resent = s.resent ++ (o' ∷ []) }

-- The peer with its queues; `behind` are the commands that the loop has not come to.
unfoldable pub swept : List OutgoingCommand → Sweep → Peer
swept behind s = record (s.peer) {
  sent_reliable_commands = s.kept ++ behind;
  outgoing_commands = s.resent ++ s.peer.outgoing_commands;
  outgoing_send_reliable_commands = s.resent_reliable ++ s.peer.outgoing_send_reliable_commands;
}

-- The loop. The peer is given with the queues as they were; the Boolean is whether it has timed out.
unfoldable pub sweep : ℕ → List OutgoingCommand → Sweep → Peer × Bool
sweep now [] s = (swept [] s, false)
sweep now (o ∷ os) s =
    let noted = note_timeout o s.peer in
    let on_time = sweep now os (record s { kept = s.kept ++ (o ∷ []) }) in
    let lost = sweep now os (lose o os (record s { peer = noted })) in
    if is_in_time now o
    then on_time
    else if is_timed_out now o noted
    then (swept (o ∷ os) (record s { peer = noted }), true)
    else lost

abbrev pub after_sweep : Option Event → Conn → Bool → (Conn × Option Event) × Bool
after_sweep event c true = (notify_disconnect event c, true)
after_sweep event c false = ((c, event), false)

-- `enet_protocol_check_timeouts`.
unfoldable pub check_timeouts : Option Event → Conn → (Conn × Option Event) × Bool
check_timeouts event c =
    let (p, timed_out) =
      sweep c.host.service_time c.peer.sent_reliable_commands
        (record { peer = c.peer; kept = []; resent = []; resent_reliable = [] }) in
    after_sweep event (record c { peer = p }) timed_out
