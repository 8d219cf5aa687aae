-- ===== src/Handle/Commands.antt =====
-- The loop over the commands of a datagram, of original/protocol.c: the second half of
-- `enet_protocol_handle_incoming_commands`, with the switch on the command number.
pub mod Fuel
use enet_rs.Prelude.{
  ℕ, zero, suc, Bool, true, false, not, Option, none, some, List, drop, if◌then◌else◌,
}
use enet_rs.Protocol.{
  Protocol, Body, acknowledge, connect, verify_connect, disconnect, ping, send_reliable,
  send_unreliable, send_fragment, send_unsequenced, bandwidth_limit, throttle_configure,
  send_unreliable_fragment, is_disconnect,
}
use enet_rs.Wire.{decode}
use enet_rs.State.{
  PeerState, Conn, Status, success, failure, disconnected, acknowledging_connect, disconnecting,
  acknowledging_disconnect, zombie,
}
use enet_rs.World.{World, focus, put_back}
use enet_rs.Peer.Outgoing.{queue_acknowledgement}
use enet_rs.Handle.Notify.{Event}
use enet_rs.Handle.Acknowledge.{Handled, handle_acknowledge}
use enet_rs.Handle.Connect.{handle_connect}
use enet_rs.Handle.Verify.{handle_verify_connect}
use enet_rs.Handle.Receive.{handle_send_reliable, handle_send_unreliable, handle_send_unsequenced}
use enet_rs.Handle.Fragments.{handle_send_fragment, handle_send_unreliable_fragment}
use enet_rs.Handle.Control.{
  handle_ping, handle_bandwidth_limit, handle_throttle_configure, handle_disconnect,
}

abbrev pub keep_event : Option Event → Conn × Status → Handled
keep_event event (c, s) = record { conn = c; event = event; status = s }

-- The switch on the command number, for the commands of a known peer.
unfoldable pub handle_command : Option Event → Protocol → Body → List ℕ → Conn → Handled
handle_command event m (acknowledge number time) payload c =
    handle_acknowledge event m.channel_id number time c
handle_command event m (connect k) payload c = record { conn = c; event = event; status = failure }
handle_command event m (verify_connect v) payload c = handle_verify_connect event v c
handle_command event m (disconnect code) payload c =
    keep_event event (handle_disconnect m.flag_acknowledge code c)
handle_command event m ping payload c = keep_event event (handle_ping c)
handle_command event m (send_reliable len) payload c =
    keep_event event (handle_send_reliable m len payload c)
handle_command event m (send_unreliable _ len) payload c =
    keep_event event (handle_send_unreliable m len payload c)
handle_command event m (send_unsequenced group len) payload c =
    keep_event event (handle_send_unsequenced m group len payload c)
handle_command event m (send_fragment f) payload c =
    keep_event event (handle_send_fragment m f payload c)
handle_command event m (bandwidth_limit incoming outgoing) payload c =
    keep_event event (handle_bandwidth_limit incoming outgoing c)
handle_command event m (throttle_configure i a d) payload c =
    keep_event event (handle_throttle_configure i a d c)
handle_command event m (send_unreliable_fragment f) payload c =
    keep_event event (handle_send_unreliable_fragment m f payload c)

-- How far the handler of a command moves `currentData` past it.
abbrev pub payload_length : Body → ℕ
payload_length (send_reliable len) = len
payload_length (send_unreliable _ len) = len
payload_length (send_unsequenced _ len) = len
payload_length (send_fragment f) = f.data_length
payload_length (send_unreliable_fragment f) = f.data_length
payload_length _ = 0

-- Whether a command of a peer in this state is acknowledged.
abbrev pub is_acknowledged : PeerState → Body → Bool
is_acknowledged disconnecting body = false
is_acknowledged acknowledging_connect body = false
is_acknowledged disconnected body = false
is_acknowledged zombie body = false
is_acknowledged acknowledging_disconnect body = is_disconnect body
is_acknowledged _ body = true

unfoldable pub acknowledge_command : Protocol → ℕ → Conn → Conn
acknowledge_command m sent_time c =
    if is_acknowledged c.peer.state m.body
    then record c { peer = (queue_acknowledgement m sent_time c.peer).0 }
    else c

-- Where the loop over the commands stands: the world, the peer (`none` for NULL) and the event.
pub record Progress : Type 0 where
  pub world : World
  pub peer : Option ℕ
  pub event : Option Event

-- What is known of the datagram behind its header: its sent time, if it has one.
abbrev pub after_command : Option ℕ → Protocol → ℕ → Progress → Progress × Bool
after_command sent m id s = if not m.flag_acknowledge then (s, true) else acknowledge_sent sent
  where
    acknowledge_sent : Option ℕ → Progress × Bool
    acknowledge_sent none = (s, false)
    acknowledge_sent (some time) = (
      record s { world = put_back s.world id (acknowledge_command m time (focus s.world id)) },
      true,
    )

abbrev pub after_handler : Option ℕ → Protocol → ℕ → World → Handled → Progress × Bool
after_handler sent m id w h =
    let s : Progress = record { world = put_back w id h.conn; peer = some id; event = h.event } in
    elim h.status [ success ↦ after_command sent m id s | failure ↦ (s, false) ]

abbrev pub after_connect : Option ℕ → Protocol → Option Event → World × Option ℕ → Progress × Bool
after_connect sent m event (w, none) = (record { world = w; peer = none; event = event }, false)
after_connect sent m event (w, some id) =
    after_command sent m id (record { world = w; peer = some id; event = event })

-- Without a peer only CONNECT is handled.
abbrev pub handle_unknown : Option ℕ → Protocol → Body → Progress → Progress × Bool
handle_unknown sent m (connect k) s = after_connect sent m s.event (handle_connect k s.world)
handle_unknown sent m _ s = (s, false)

abbrev pub handle_for : Option ℕ → Protocol → List ℕ → Option ℕ → Progress → Progress × Bool
handle_for sent m payload none s = handle_unknown sent m m.body s
handle_for sent m payload (some id) s =
    after_handler sent m id s.world (handle_command s.event m m.body payload (focus s.world id))

-- One round of the loop; the Boolean is whether it goes on.
unfoldable pub command_step : Option ℕ → Protocol → List ℕ → Progress → Progress × Bool
command_step sent m payload s = handle_for sent m payload s.peer s

-- What follows from the command at the front of the bytes, if a whole one is there; `go_on` is the
-- rest of the loop.
abbrev pub after_decode :
    (List ℕ → Progress → Progress) → Option ℕ → Option (Protocol × List ℕ) → Progress → Progress
after_decode go_on sent none s = s
after_decode go_on sent (some (m, payload)) s =
    let (s', goes_on) = command_step sent m payload s in
    let rest = go_on (drop (payload_length m.body) payload) s' in if goes_on then rest else s'

-- The loop over the commands of a datagram; the fuel is the number of bytes that are left.
unfoldable pub run_commands : ℕ → Option ℕ → List ℕ → Progress → Progress
run_commands zero sent bytes s = s
run_commands (suc fuel) sent bytes s = after_decode (run_commands fuel sent) sent (decode bytes) s
