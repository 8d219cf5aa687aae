-- ===== src/Tests/Sending.antt =====
-- The theorems on the sending half of original/protocol.c, on its events and on its service, applied to
-- samples.
use enet_rs.Prelude.{◌+◌, ◌≤◌, ◌%◌, ◌≡◌, refl, length, true, false, none, some, [], ◌∷◌, arith}
use enet_rs.Protocol.{ping, command_size}
use enet_rs.State.{Acknowledgement, OutgoingCommand, Peer, Conn, zombie}
use enet_rs.World.{World, zero_peer}
use enet_rs.Time.{time_less, time_difference}
use enet_rs.Handle.Notify.{Event, no_event}
use enet_rs.Transmit.Acknowledgements.{send_acknowledgements}
use enet_rs.Transmit.Timeouts.{
  note_timeout, is_timed_out, next_in_flight, lose, swept, sweep, check_timeouts,
}
use enet_rs.Transmit.Timeouts.Conserved.{unacknowledged, check_timeouts-unacknowledged}
use enet_rs.Transmit.Outgoing.{check_outgoing_commands}
use enet_rs.Transmit.Outgoing.Limits.{IsWithin, FitsWord, none_left, fits_first}
use enet_rs.Transmit.Outgoing.Limits.Full.{
  check_outgoing_commands-IsWithin, send_acknowledgements-IsWithin,
}
use enet_rs.Transmit.Datagram.{compress_with, build_datagram}
use enet_rs.Transmit.Datagram.Length.{build_datagram-length}
use enet_rs.Transmit.Datagram.RoundTrip.{gives, compressed_of, checks_out-build_datagram}
use enet_rs.Handle.Datagram.{Callbacks, checks_out}
use enet_rs.Transmit.Turn.{going_on}
use enet_rs.Events.{dispatch_incoming_commands}
use enet_rs.Events.News.{dispatch_incoming_commands-found}
use enet_rs.Service.{Service, User, nothing, wait_failed, host_service}
use enet_rs.Standing.Totals.{IsCounted}
use enet_rs.Standing.Services.Loop.{no_intercept, host_service-IsCounted}
use enet_rs.Tests.Samples.{some_host, some_peer, some_world, command_of, no_callbacks}
use enet_rs.Tests.Counters.{some_world-IsCounted}

-- A command that waits in a queue or for its acknowledgement.
abbrev pub some_outgoing : OutgoingCommand
some_outgoing = record {
  reliable_sequence_number = 1;
  unreliable_sequence_number = 0;
  sent_time = 1000;
  round_trip_timeout = 500;
  queue_time = 1;
  fragment_offset = 0;
  fragment_length = 0;
  send_attempts = 1;
  command = record (command_of 1 ping) { flag_acknowledge = true };
  packet = none;
}

abbrev some_acknowledgement : Acknowledgement
some_acknowledgement = record { sent_time = 70000; command = command_of 3 ping }

abbrev sending_peer : Peer
sending_peer = record some_peer {
  mtu = 1392;
  outgoing_commands = some_outgoing ∷ [];
  sent_reliable_commands = some_outgoing ∷ [];
  acknowledgements = some_acknowledgement ∷ [];
  timeout_limit = 32;
  timeout_minimum = 5000;
  timeout_maximum = 30000;
}

abbrev sending_conn : Conn
sending_conn = record { host = record some_host { packet_size = 4 }; peer = sending_peer }

sending_conn-IsWithin : IsWithin 1392 sending_conn.host
sending_conn-IsWithin = record {
  commands = omega arith;
  buffers = omega arith;
  counted = refl;
  size = omega arith;
}

some_outgoing-FitsWord : FitsWord some_outgoing
unfolding command_size
some_outgoing-FitsWord = omega arith

check_outgoing_commands-IsWithin_example :
    IsWithin 1392 (check_outgoing_commands [] sending_conn).conn.host
check_outgoing_commands-IsWithin_example =
    check_outgoing_commands-IsWithin [] sending_conn (omega arith)
      (fits_first some_outgoing [] some_outgoing-FitsWord none_left) none_left sending_conn-IsWithin

send_acknowledgements-IsWithin_example : IsWithin 1392 (send_acknowledgements sending_conn).host
send_acknowledgements-IsWithin_example =
    send_acknowledgements-IsWithin sending_conn (omega arith) sending_conn-IsWithin

build_datagram-length_example : length (build_datagram no_callbacks sending_conn).0 ≤ 1392 + 0
build_datagram-length_example =
    build_datagram-length no_callbacks 1392 sending_conn (omega arith) sending_conn-IsWithin

-- A host with a checksum, and a peer with an id at the other side.
abbrev length_checksum : Callbacks
length_checksum = record no_callbacks { checksum = some (λ bytes. length bytes % 4294967296) }

abbrev known_conn : Conn
known_conn = record {
  host = record some_host { packet_size = 4; header_flags = 0 };
  peer = record some_peer { outgoing_peer_id = 5; outgoing_session_id = 2 };
}

known_conn-plain : compressed_of length_checksum known_conn ≡ none
unfolding compress_with
known_conn-plain = refl

checks_out-build_datagram_example :
    checks_out length_checksum.checksum 6 known_conn.peer.connect_id
      (build_datagram length_checksum known_conn).0
    ≡ true
checks_out-build_datagram_example =
    checks_out-build_datagram length_checksum known_conn false refl (omega arith) (omega arith)
      (gives (λ bytes. length bytes % 4294967296) (λ bytes. omega arith)) known_conn-plain

-- The command is late, but the peer has not timed out.
sending_conn_in_time : (check_timeouts none sending_conn).1 ≡ false
unfolding check_timeouts sweep note_timeout is_timed_out lose swept next_in_flight time_difference
    time_less
sending_conn_in_time = refl

check_timeouts-unacknowledged_example :
    unacknowledged (λ o. o.command.flag_acknowledge) (check_timeouts none sending_conn).0.0.peer
    ≡ unacknowledged (λ o. o.command.flag_acknowledge) sending_peer
check_timeouts-unacknowledged_example =
    check_timeouts-unacknowledged (λ o. o.command.flag_acknowledge) none sending_conn (λ o t. refl)
      sending_conn_in_time

abbrev blank_event : Event
blank_event = record { type = no_event; peer = none; channel_id = 0; code = 0; packet = none }

-- Peer 0 has nothing to tell, peer 1 is gone.
abbrev zombie_world : World
zombie_world = record {
  host = record some_host { dispatch_queue = 0 ∷ 1 ∷ [] };
  peers = some_peer ∷ record zero_peer { state = zombie } ∷ [];
}

dispatch_incoming_commands-found_example :
    (dispatch_incoming_commands blank_event zombie_world).found ≡ true
dispatch_incoming_commands-found_example = dispatch_incoming_commands-found blank_event zombie_world

-- A system where nothing arrives and the wait fails.
abbrev some_service : Service
some_service = record {
  world = some_world;
  event = some blank_event;
  system = record {
    clock = λ n. 6000;
    readings = 0;
    arrival = λ n. nothing;
    arrivals = 0;
    wait = λ n. wait_failed;
    waits = 0;
    network = record { sent = []; outcome = λ n. some 0 };
  };
  outcome = going_on;
}

abbrev some_user : User
some_user = record { callbacks = no_callbacks; intercept = none }

host_service-IsCounted_example : IsCounted (host_service 3 some_user 10 some_service).world
host_service-IsCounted_example =
    host_service-IsCounted 3 some_user 10 some_service no_intercept some_world-IsCounted
