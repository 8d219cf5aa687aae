-- ===== src/Service.antt =====
-- The service of a host, of original/protocol.c: `enet_protocol_receive_incoming_commands` and
-- `enet_host_service`. The clock, the arriving datagrams and the waits are the system's: what each
-- call returns is an argument. So is the user's intercept callback.
use enet_rs.Prelude.{
  ℕ, zero, suc, ◌+◌, Bool, true, false, Option, none, some, List, length, if◌then◌else◌, leb, u32,
}
use enet_rs.Time.{time_difference, time_greater_equal}
use enet_rs.State.{Address, Host, bandwidth_throttle_interval}
use enet_rs.World.{World}
use enet_rs.Handle.Notify.{Event}
use enet_rs.Handle.Datagram.{Callbacks, handle_incoming_commands}
use enet_rs.Transmit.Datagram.{Network}
use enet_rs.Transmit.Turn.{Outcome, going_on, reported, failed, is_filled}
use enet_rs.Transmit.Passes.{goes_on, send_outgoing_commands}
use enet_rs.Events.{Checkup, dispatch_incoming_commands, clear_event}
use enet_rs.Host.Bandwidth.{host_bandwidth_throttle}

-- What `enet_socket_receive` returns: a length, 0, -2 for a datagram that is passed over, or -1.
pub data Arrival : Type 0 where
  datagram : Address → List ℕ → Arrival
  nothing unreadable broken : Arrival

-- What `enet_socket_wait` returns: an error, or the condition it was woken by.
pub data Wait : Type 0 where
  wait_failed : Wait
  woken : (received interrupted : Bool) → Wait

-- The system: the answers to come of `enet_time_get`, `enet_socket_receive` and `enet_socket_wait`, by
-- number, and how many were given.
pub record System : Type 0 where
  pub clock : ℕ → ℕ
  pub readings : ℕ
  pub arrival : ℕ → Arrival
  pub arrivals : ℕ
  pub wait : ℕ → Wait
  pub waits : ℕ
  pub network : Network

-- The user's intercept callback: 1, -1 or another number.
pub data Interception : Type 0 where
  taken refused passed_on : Interception

abbrev pub Intercept : Type 0
Intercept = List ℕ → World → Option Event → Interception × World × Option Event

-- The state of the service. `outcome` is `going_on` while nothing was returned, and for 0.
pub record Service : Type 0 where
  pub world : World
  pub event : Option Event
  pub system : System
  pub outcome : Outcome

-- What of the user a host has.
pub record User : Type 0 where
  pub callbacks : Callbacks
  pub intercept : Option Intercept

-- What `enet_protocol_handle_incoming_commands` returns.
abbrev pub handled_outcome : Option Event → Outcome
handled_outcome event = if is_filled event then reported else going_on

unfoldable pub handle_bytes : Callbacks → List ℕ → Service → Service
handle_bytes cb bytes s =
    let done = handle_incoming_commands cb s.event bytes s.world in
    record s { world = done.world; event = done.event; outcome = handled_outcome done.event }

abbrev pub after_intercept :
    Callbacks → List ℕ → Service → Interception × World × Option Event → Service
after_intercept cb bytes s (taken, w, event) = record s {
  world = w;
  event = event;
  outcome = handled_outcome event;
}
after_intercept cb bytes s (refused, w, event) = record s {
  world = w;
  event = event;
  outcome = failed;
}
after_intercept cb bytes s (passed_on, w, event) =
    handle_bytes cb bytes (record s { world = w; event = event })

abbrev pub intercept_with : Option Intercept → Callbacks → List ℕ → Service → Service
intercept_with none cb bytes s = handle_bytes cb bytes s
intercept_with (some f) cb bytes s = after_intercept cb bytes s (f bytes s.world s.event)

-- The datagram's sender and size are noted.
unfoldable pub note_arrival : Address → ℕ → Host → Host
note_arrival address count h = record h {
  received_address = address;
  total_received_data = u32 (h.total_received_data + count);
  total_received_packets = u32 (h.total_received_packets + 1);
}

-- What a round of the loop does with an arrival; the Boolean is whether the loop goes on.
unfoldable pub take_arrival : User → Arrival → Service → Service × Bool
take_arrival u nothing s = (s, false)
take_arrival u unreadable s = (s, true)
take_arrival u broken s = (record s { outcome = failed }, false)
take_arrival u (datagram address bytes) s =
    let noted : Service = record s {
      world = record (s.world) { host = note_arrival address (length bytes) s.world.host };
    } in
    let s' = intercept_with u.intercept u.callbacks bytes noted in (s', goes_on s'.outcome)

-- The loop: at most `left` datagrams.
unfoldable pub receive_datagrams : ℕ → User → Service → Service
receive_datagrams zero u s = s
receive_datagrams (suc left) u s =
    let (s', goes_on) =
      take_arrival u (s.system.arrival s.system.arrivals)
        (record s { system = record (s.system) { arrivals = s.system.arrivals + 1 } }) in
    let rest = receive_datagrams left u s' in if goes_on then rest else s'

-- `enet_protocol_receive_incoming_commands`.
unfoldable pub receive_incoming_commands : User → Service → Service
receive_incoming_commands u s = receive_datagrams 256 u s

-- A call of `enet_time_get`.
unfoldable pub read_clock : Service → ℕ × Service
read_clock s = (
  s.system.clock s.system.readings,
  record s { system = record (s.system) { readings = s.system.readings + 1 } },
)

-- host -> serviceTime = enet_time_get ()
unfoldable pub set_service_time : Service → Service
set_service_time s =
    let (now, s') = read_clock s in
    record s' { world = record (s'.world) { host = record (s'.world.host) { service_time = now } } }

unfoldable pub throttle_if_due : Service → Service
throttle_if_due s =
    let h = s.world.host in
    let (now, s') = read_clock s in
    if leb bandwidth_throttle_interval (time_difference h.service_time h.bandwidth_throttle_epoch)
    then record s' { world = host_bandwidth_throttle now s'.world }
    else s

unfoldable pub send_commands : ℕ → User → Service → Service
send_commands fuel u s =
    let p = send_outgoing_commands fuel u.callbacks true s.event s.system.network s.world in
    record {
      world = p.world;
      event = p.event;
      system = record (s.system) { network = p.network };
      outcome = p.outcome;
    }

abbrev pub after_checkup : Checkup → Service → Service
after_checkup k s = record s {
  world = k.world;
  event = some k.event;
  outcome = if k.found then reported else going_on;
}

-- Events that wait for the user, unless there is no event to fill in.
abbrev pub dispatch_with : Option Event → Service → Service
dispatch_with none s = s
dispatch_with (some e) s = after_checkup (dispatch_incoming_commands e s.world) s

-- The next step, unless something was returned.
abbrev pub and_then : (Service → Service) → Service → Service
and_then step s = let s' = step s in if goes_on s.outcome then s' else s

-- The body of the loop up to the dispatch of events.
unfoldable pub service_once : ℕ → User → Service → Service
service_once fuel u s =
    and_then (λ t. dispatch_with t.event t)
      (and_then (send_commands fuel u) (
        and_then (receive_incoming_commands u)
          (and_then (send_commands fuel u) (throttle_if_due s))))

-- How the inner loop ends: something is returned, or the service goes on if a datagram came.
pub data Woken : Type 0 where
  returns : Service → Woken
  wakes : Bool → Service → Woken

abbrev pub after_wait : (Service → Woken) → Wait → Service → Woken
after_wait again wait_failed s = returns (record s { outcome = failed })
after_wait again (woken received interrupted) s =
    let rest = again s in if interrupted then rest else wakes received s

-- The inner loop. (When the fuel is used up the wait is taken to be over.)
unfoldable pub wait_for : ℕ → ℕ → Service → Woken
wait_for zero deadline s = returns s
wait_for (suc fuel) deadline s =
    let s' = set_service_time s in
    let waited : Service = record s' {
      system = record (s'.system) { waits = s'.system.waits + 1 };
    } in
    let rest = after_wait (wait_for fuel deadline) (s'.system.wait s'.system.waits) waited in
    if time_greater_equal s'.world.host.service_time deadline then returns s' else rest

abbrev pub after_waiting : (Service → Service) → Woken → Service
after_waiting again (returns s) = s
after_waiting again (wakes received s) =
    let s' = set_service_time s in let rest = again s' in if received then rest else s'

-- The outer loop.
unfoldable pub service_loop : ℕ → User → ℕ → Service → Service
service_loop zero u deadline s = s
service_loop (suc fuel) u deadline s =
    let s' = service_once (suc fuel) u s in
    let rest = after_waiting (service_loop fuel u deadline) (wait_for fuel deadline s') in
    if goes_on s'.outcome
    then (if time_greater_equal s'.world.host.service_time deadline then s' else rest)
    else s'

unfoldable pub start_service : ℕ → User → ℕ → Service → Service
start_service fuel u timeout s =
    let s' = set_service_time s in
    service_loop fuel u (u32 (timeout + s'.world.host.service_time)) s'

-- The events that wait from before.
abbrev pub dispatch_first : Option Event → Service → Service
dispatch_first none s = s
dispatch_first (some e) s = dispatch_with (some (clear_event e)) s

-- `enet_host_service`.
unfoldable pub host_service : ℕ → User → ℕ → Service → Service
host_service fuel u timeout s = and_then (start_service fuel u timeout) (dispatch_first s.event s)
