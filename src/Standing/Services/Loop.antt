-- ===== src/Standing/Services/Loop.antt =====
-- The service of a host keeps its counters: `enet_protocol_receive_incoming_commands` and
-- `enet_host_service` of original/protocol.c.
use enet_rs.Prelude.{
  ℕ, zero, suc, ◌+◌, refl, Bool, true, false, Option, none, some, List, length, if◌then◌else◌, leb,
}
use enet_rs.State.{bandwidth_throttle_interval}
use enet_rs.Time.{time_difference, time_greater_equal}
use enet_rs.World.{World}
use enet_rs.Handle.Notify.{Event}
use enet_rs.Handle.Datagram.{Callbacks}
use enet_rs.Transmit.Passes.{goes_on}
use enet_rs.Events.{clear_event}
use enet_rs.Service.{
  Arrival, datagram, nothing, unreadable, broken, Wait, wait_failed, woken, Interception, taken,
  refused, passed_on, Intercept, Service, User, handle_bytes, after_intercept, intercept_with,
  take_arrival, note_arrival, receive_datagrams, receive_incoming_commands, set_service_time,
  throttle_if_due, read_clock, send_commands, dispatch_with, and_then, service_once, Woken, returns,
  wakes, after_wait, wait_for, after_waiting, service_loop, start_service, dispatch_first,
  host_service,
}
use enet_rs.Standing.Totals.{IsCounted}
use enet_rs.Standing.Datagram.{handle_incoming_commands-IsCounted}
use enet_rs.Standing.Rounds.{send_outgoing_commands-IsCounted}
use enet_rs.Standing.Hosts.{host-IsCounted}
use enet_rs.Standing.Hosts.Shares.{host_bandwidth_throttle-IsCounted}
use enet_rs.Standing.Services.{dispatch_incoming_commands-IsCounted}

-- What the proofs ask of the user's intercept callback.
pub data KeepsCounts : Option Intercept → Type 0 where
  no_intercept : KeepsCounts none
  keeps_counts :
      (f : Intercept)
      → ((bytes : List ℕ) (w : World) (e : Option Event) → IsCounted w → IsCounted (f bytes w e).1)
      → KeepsCounts (some f)

abbrev Counts : Service → Type 0
Counts s = IsCounted s.world

Counts-if : (t : Bool) (a b : Service) → Counts a → Counts b → Counts (if t then a else b)
Counts-if true a b p q = p
Counts-if false a b p q = q

handle_bytes-Counts :
    (cb : Callbacks) (bytes : List ℕ) (s : Service) → Counts s → Counts (handle_bytes cb bytes s)
unfolding handle_bytes
handle_bytes-Counts cb bytes s n = handle_incoming_commands-IsCounted cb s.event bytes s.world n

after_intercept-Counts :
    (cb : Callbacks) (bytes : List ℕ) (s : Service) (r : Interception × World × Option Event)
    → IsCounted r.1
    → Counts (after_intercept cb bytes s r)
after_intercept-Counts cb bytes s (taken, w, event) n = n
after_intercept-Counts cb bytes s (refused, w, event) n = n
after_intercept-Counts cb bytes s (passed_on, w, event) n = handle_bytes-Counts cb bytes _ n

intercept_with-Counts :
    (i : Option Intercept) (cb : Callbacks) (bytes : List ℕ) (s : Service)
    → KeepsCounts i
    → Counts s
    → Counts (intercept_with i cb bytes s)
intercept_with-Counts none cb bytes s keeps n = handle_bytes-Counts cb bytes s n
intercept_with-Counts (some f) cb bytes s (keeps_counts _ keeps) n =
    after_intercept-Counts cb bytes s (f bytes s.world s.event) (keeps bytes s.world s.event n)

take_arrival-Counts :
    (u : User) (a : Arrival) (s : Service)
    → KeepsCounts u.intercept
    → Counts s
    → Counts (take_arrival u a s).0
unfolding take_arrival note_arrival
take_arrival-Counts u nothing s keeps n = n
take_arrival-Counts u unreadable s keeps n = n
take_arrival-Counts u broken s keeps n = n
take_arrival-Counts u (datagram address bytes) s keeps n =
    intercept_with-Counts u.intercept u.callbacks bytes _ keeps
      (host-IsCounted s.world (note_arrival address (length bytes) s.world.host) refl refl n)

receive_datagrams-Counts :
    (left : ℕ) (u : User) (s : Service)
    → KeepsCounts u.intercept
    → Counts s
    → Counts (receive_datagrams left u s)
unfolding receive_datagrams
receive_datagrams-Counts zero u s keeps n = n
receive_datagrams-Counts (suc left) u s keeps n =
    let noted : Service = record s {
      system = record (s.system) { arrivals = s.system.arrivals + 1 };
    } in
    let r = take_arrival u (s.system.arrival s.system.arrivals) noted in
    let n' = take_arrival-Counts u (s.system.arrival s.system.arrivals) noted keeps n in
    Counts-if r.1 (receive_datagrams left u r.0) r.0 (receive_datagrams-Counts left u r.0 keeps n')
      n'

receive_incoming_commands-Counts :
    (u : User) (s : Service)
    → KeepsCounts u.intercept
    → Counts s
    → Counts (receive_incoming_commands u s)
unfolding receive_incoming_commands
receive_incoming_commands-Counts u s keeps n = receive_datagrams-Counts 256 u s keeps n

set_service_time-Counts : (s : Service) → Counts s → Counts (set_service_time s)
unfolding set_service_time read_clock
set_service_time-Counts s n = host-IsCounted s.world _ refl refl n

throttle_if_due-Counts : (s : Service) → Counts s → Counts (throttle_if_due s)
unfolding throttle_if_due read_clock
throttle_if_due-Counts s n =
    Counts-if
      (leb bandwidth_throttle_interval
        (time_difference s.world.host.service_time s.world.host.bandwidth_throttle_epoch))
      _ s (host_bandwidth_throttle-IsCounted (s.system.clock s.system.readings) s.world n) n

send_commands-Counts :
    (fuel : ℕ) (u : User) (s : Service) → Counts s → Counts (send_commands fuel u s)
unfolding send_commands
send_commands-Counts fuel u s n =
    send_outgoing_commands-IsCounted fuel u.callbacks true s.event s.system.network s.world n

dispatch_with-Counts : (e : Option Event) (s : Service) → Counts s → Counts (dispatch_with e s)
dispatch_with-Counts none s n = n
dispatch_with-Counts (some e) s n = dispatch_incoming_commands-IsCounted e s.world n

and_then-Counts :
    (step : Service → Service) (s : Service)
    → ((t : Service) → Counts t → Counts (step t))
    → Counts s
    → Counts (and_then step s)
and_then-Counts step s keeps n = Counts-if (goes_on s.outcome) (step s) s (keeps s n) n

service_once-Counts :
    (fuel : ℕ) (u : User) (s : Service)
    → KeepsCounts u.intercept
    → Counts s
    → Counts (service_once fuel u s)
unfolding service_once
service_once-Counts fuel u s keeps n =
    let throttled = throttle_if_due s in
    let sent = and_then (send_commands fuel u) throttled in
    let received = and_then (receive_incoming_commands u) sent in
    let sent_again = and_then (send_commands fuel u) received in
    and_then-Counts (λ t. dispatch_with t.event t) sent_again
      (λ t m. dispatch_with-Counts t.event t m)
      (and_then-Counts (send_commands fuel u) received (send_commands-Counts fuel u) (
        and_then-Counts (receive_incoming_commands u) sent
          (λ t m. receive_incoming_commands-Counts u t keeps m)
          (and_then-Counts (send_commands fuel u) throttled (send_commands-Counts fuel u)
            (throttle_if_due-Counts s n))))

-- The service in what the inner loop ends with.
data CountsWoken : Woken → Type 0 where
  counts_returns : (s : Service) → Counts s → CountsWoken (returns s)
  counts_wakes : (t : Bool) (s : Service) → Counts s → CountsWoken (wakes t s)

CountsWoken-if :
    (t : Bool) (a b : Woken) → CountsWoken a → CountsWoken b → CountsWoken (if t then a else b)
CountsWoken-if true a b p q = p
CountsWoken-if false a b p q = q

after_wait-Counts :
    (again : Service → Woken) (x : Wait) (s : Service)
    → ((t : Service) → Counts t → CountsWoken (again t))
    → Counts s
    → CountsWoken (after_wait again x s)
after_wait-Counts again wait_failed s keeps n = counts_returns _ n
after_wait-Counts again (woken received interrupted) s keeps n =
    CountsWoken-if interrupted (again s) (wakes received s) (keeps s n) (counts_wakes received s n)

wait_for-Counts :
    (fuel deadline : ℕ) (s : Service) → Counts s → CountsWoken (wait_for fuel deadline s)
unfolding wait_for
wait_for-Counts zero deadline s n = counts_returns s n
wait_for-Counts (suc fuel) deadline s n =
    let s' = set_service_time s in
    let n' = set_service_time-Counts s n in
    CountsWoken-if (time_greater_equal s'.world.host.service_time deadline) (returns s') _
      (counts_returns s' n')
      (after_wait-Counts (wait_for fuel deadline) (s'.system.wait s'.system.waits) _
        (wait_for-Counts fuel deadline) n')

after_waiting-Counts :
    (again : Service → Service) (x : Woken)
    → ((t : Service) → Counts t → Counts (again t))
    → CountsWoken x
    → Counts (after_waiting again x)
after_waiting-Counts again (returns s) keeps (counts_returns _ n) = n
after_waiting-Counts again (wakes received s) keeps (counts_wakes _ _ n) =
    let s' = set_service_time s in
    let n' = set_service_time-Counts s n in Counts-if received (again s') s' (keeps s' n') n'

service_loop-Counts :
    (fuel : ℕ) (u : User) (deadline : ℕ) (s : Service)
    → KeepsCounts u.intercept
    → Counts s
    → Counts (service_loop fuel u deadline s)
unfolding service_loop
service_loop-Counts zero u deadline s keeps n = n
service_loop-Counts (suc fuel) u deadline s keeps n =
    let s' = service_once (suc fuel) u s in
    let n' = service_once-Counts (suc fuel) u s keeps n in
    let rest = after_waiting (service_loop fuel u deadline) (wait_for fuel deadline s') in
    let m =
      after_waiting-Counts (service_loop fuel u deadline) (wait_for fuel deadline s')
        (λ t c. service_loop-Counts fuel u deadline t keeps c)
        (wait_for-Counts fuel deadline s' n') in
    Counts-if (goes_on s'.outcome)
      (if time_greater_equal s'.world.host.service_time deadline then s' else rest) s'
      (Counts-if (time_greater_equal s'.world.host.service_time deadline) s' rest n' m) n'

start_service-Counts :
    (fuel : ℕ) (u : User) (timeout : ℕ) (s : Service)
    → KeepsCounts u.intercept
    → Counts s
    → Counts (start_service fuel u timeout s)
unfolding start_service
start_service-Counts fuel u timeout s keeps n =
    service_loop-Counts fuel u _ _ keeps (set_service_time-Counts s n)

dispatch_first-Counts : (e : Option Event) (s : Service) → Counts s → Counts (dispatch_first e s)
dispatch_first-Counts none s n = n
dispatch_first-Counts (some e) s n = dispatch_with-Counts (some (clear_event e)) s n

-- A whole call of the service keeps the host's counters right: if they are the numbers of its
-- connected peers and of those with a limited incoming bandwidth, and there are fewer than 4096 peers,
-- this holds when the service returns, for every clock, network, order of arrivals and waits, whatever
-- the timeout and the user's callbacks, if an intercept callback keeps it too; and it holds after
-- every number of rounds that the fuel allows.
pub host_service-IsCounted :
    (fuel : ℕ) (u : User) (timeout : ℕ) (s : Service)
    → KeepsCounts u.intercept
    → IsCounted s.world
    → IsCounted (host_service fuel u timeout s).world
unfolding host_service
host_service-IsCounted fuel u timeout s keeps n =
    and_then-Counts (start_service fuel u timeout) (dispatch_first s.event s)
      (λ t m. start_service-Counts fuel u timeout t keeps m) (dispatch_first-Counts s.event s n)
